-- ===== src/Tests/Config.antt =====
-- The theorems on the configuration file (server/src/ya_config.c) at concrete inputs, and runs of it.
use Prim.Native.Char.{code}
use Prim.Native.String.{String}
use mouse_hero.Base.{
  ℕ, ◌<◌, ◌||◌, ◌≡◌, ◌⊎◌, refl, Bool, true, false, none, some, List, [], ◌∷◌, length, leb,
  replicate, All, arith,
}
use mouse_hero.Base.Int.{pos, negsuc}
use mouse_hero.Config.Bounds.{IsValid, Call, parses, sets, run, run-IsValid}
use mouse_hero.Config.Lines.{IsOneLine, IsSection, IsKey, IsValue, starts_with}
use mouse_hero.Config.Lookup.{get-set, Sets, IsRefused, set_long_key}
use mouse_hero.Config.RoundTrip.{IsWritable, Succeeds, parse-save}
use mouse_hero.Config.Text.{contains}
use mouse_hero.Config.{
  Entry, Config, ya_config_init, ya_config_parse, ya_config_save, ya_config_set, ya_config_get,
  parse_lines, parse_line, trim_start, trim_end, add_entry, reserve, safe_strncpy, unquote,
  remove_inline_comment, trim_whitespace,
}
use mouse_hero.Wire.{Bytes}

-- Every literal below is ASCII.
abbrev ascii : String → Bytes
ascii String.[] = []
ascii (String.◌∷◌ c s) = code c ∷ ascii s

abbrev item : String → String → String → Entry
item s k v = record { section = ascii s; key = ascii k; value = ascii v }

abbrev enough : ℕ → Bool
enough n = true

abbrev file : Bytes
file = ascii "; demo\n[server]\n  port = 34567 ; tcp\nname=\"my pc\"\n\n[input]\nspeed=\n[broken\n"

abbrev items : List Entry
items = item "server" "port" "34567" ∷ item "server" "name" "my pc" ∷ item "input" "speed" "" ∷ []

abbrev loaded : Config
loaded = record { entries = items; capacity = 8 }

parse-file : ya_config_parse enough (some file) ya_config_init ≡ (pos 0, loaded)
unfolding ya_config_parse parse_lines parse_line add_entry reserve safe_strncpy unquote
    remove_inline_comment trim_whitespace
parse-file = refl

save-loaded :
    ya_config_save true loaded
    ≡ (pos 0, some (ascii "[server]\nport=34567\nname=my pc\n\n[input]\nspeed=\n"))
unfolding ya_config_save safe_strncpy
save-loaded = refl

-- The quotes are lost when the value is saved, and so are the spaces that they kept when it is read.
quotes_lost :
    (ya_config_parse enough (some (ascii "[a]\nk=\" b \"\n")) ya_config_init).1.entries
    ≡ item "a" "k" " b " ∷ []
unfolding ya_config_parse parse_lines parse_line add_entry reserve safe_strncpy unquote
    remove_inline_comment trim_whitespace
quotes_lost = refl

line_of :
    (s : String)
    → contains b'\n' (ascii s) ≡ false
    → contains 0 (ascii s) ≡ false
    → trim_start (ascii s) ≡ ascii s
    → trim_end (ascii s) ≡ ascii s
    → IsOneLine (ascii s)
line_of s newline zeros front behind = record {
  no_newline = newline;
  no_zero = zeros;
  trimmed = record { in_front = front; behind = behind };
}

server-IsSection : IsSection (ascii "server")
server-IsSection = record {
  line = line_of "server" refl refl refl refl;
  no_bracket = refl;
  fits = omega arith;
}

input-IsSection : IsSection (ascii "input")
input-IsSection = record {
  line = line_of "input" refl refl refl refl;
  no_bracket = refl;
  fits = omega arith;
}

IsKey-of :
    (s : String)
    → IsOneLine (ascii s)
    → contains b'=' (ascii s) ≡ false
    → (starts_with b';' (ascii s) || starts_with b'#' (ascii s) || starts_with b'[' (ascii s))
      ≡ false
    → length (ascii s) < 64
    → IsKey (ascii s)
IsKey-of s line equals comment short = record {
  line = line;
  no_equals = equals;
  no_comment = comment;
  fits = short;
}

IsValue-of :
    (s : String)
    → IsOneLine (ascii s)
    → contains b';' (ascii s) ≡ false
    → contains b'#' (ascii s) ≡ false
    → unquote (ascii s) ≡ ascii s
    → IsValue (ascii s)
IsValue-of s line semicolon hash unquoted = record {
  line = line;
  no_semicolon = semicolon;
  no_hash = hash;
  unquoted = unquoted;
}

loaded-IsWritable : All IsWritable loaded.entries
unfolding unquote
loaded-IsWritable = (
  record {
    section = server-IsSection;
    key = IsKey-of "port" (line_of "port" refl refl refl refl) refl refl (omega arith);
    value = IsValue-of "34567" (line_of "34567" refl refl refl refl) refl refl refl;
    fits = omega arith;
  },
  (
    record {
      section = server-IsSection;
      key = IsKey-of "name" (line_of "name" refl refl refl refl) refl refl (omega arith);
      value = IsValue-of "my pc" (line_of "my pc" refl refl refl refl) refl refl refl;
      fits = omega arith;
    },
    (
      record {
        section = input-IsSection;
        key = IsKey-of "speed" (line_of "speed" refl refl refl refl) refl refl (omega arith);
        value = IsValue-of "" (line_of "" refl refl refl refl) refl refl refl;
        fits = omega arith;
      },
      tt,
    ),
  ),
)

parse-save_example :
    ((ya_config_save true loaded).0 ≡ pos 0)
    × Succeeds items (ya_config_parse enough (ya_config_save true loaded).1 ya_config_init)
parse-save_example = parse-save enough (λ n. refl) loaded ya_config_init loaded-IsWritable

-- The array of eight is full at the ninth entry.
abbrev little : ℕ → Bool
little n = leb n 8

abbrev calls : List Call
calls =
    parses little (some file)
    ∷ sets little (some (ascii "server")) (some (ascii "port")) (some (ascii "1"))
    ∷ sets little (some (replicate 70 b'a')) (some (ascii "k")) (some (replicate 300 b'v'))
    ∷ []

run-IsValid_example : IsValid (run calls ya_config_init)
run-IsValid_example = run-IsValid calls

get-set_example :
    (((ya_config_set enough loaded
          (some (ascii "input"))
          (some (ascii "speed"))
          (some (ascii "3"))).0
        ≡ pos 0)
      × Sets
          (ascii "input")
          (ascii "speed")
          (ascii "3")
          loaded
          (ya_config_set enough loaded
            (some (ascii "input"))
            (some (ascii "speed"))
            (some (ascii "3"))).1)
    ⊎ IsRefused enough (ascii "input") (ascii "speed") loaded (
        ya_config_set enough loaded
          (some (ascii "input"))
          (some (ascii "speed"))
          (some (ascii "3")))
get-set_example =
    get-set enough loaded (ascii "input") (ascii "speed") (ascii "3") (omega arith) (omega arith)

abbrev long_key : Bytes
long_key = replicate 64 b'k'

set_long_key_example :
    let r = ya_config_set enough ya_config_init (some []) (some long_key) (some (ascii "1")) in
    (ya_config_get ya_config_init (some []) (some long_key) ≡ none)
    × (ya_config_get r.1 (some []) (some long_key) ≡ none)
    × ((r ≡ (negsuc 1, ya_config_init)) ⊎ ((r.0 ≡ pos 0) × (length r.1.entries ≡ 1)))
set_long_key_example =
    set_long_key enough ya_config_init [] long_key (ascii "1")
      (record { allocated = omega arith; entries = tt }) (omega arith)
