-- ===== src/Config.antt =====
-- The configuration file (server/src/ya_config.c and ya_config.h). A C string is its bytes in front of
-- the zero. `entries` are the first `count` entries of the array, so that `count` is their number. The
-- argument `realloc` says for which capacities there is memory. The file is its bytes; opening it may
-- fail. Errors of the writes are left out: the source does not look at them.
pub mod Text
pub mod Lines
pub mod Bounds
pub mod Lookup
pub mod RoundTrip
use mouse_hero.Base.{
  ℕ, suc, ◌+◌, ◌*◌, ◌-◌, Bool, true, false, not, ◌&&◌, ◌||◌, Option, none, some, List, [], ◌∷◌,
  ◌++◌, length, take, leb, ◌==◌, if◌then◌else◌, equal,
}
use mouse_hero.Base.Int.{ℤ, pos, negsuc}
use mouse_hero.Wire.{Bytes}

abbrev pub max_line_length : ℕ
max_line_length = 256

abbrev pub max_section_length : ℕ
max_section_length = 64

abbrev pub max_key_length : ℕ
max_key_length = 64

abbrev pub max_value_length : ℕ
max_value_length = 256

-- YA_Config_Entry
pub record Entry : Type 0 where
  pub section : Bytes
  pub key : Bytes
  pub value : Bytes

-- YA_Config
pub record Config : Type 0 where
  pub entries : List Entry
  pub capacity : ℕ

abbrev pub ya_config_init : Config
ya_config_init = record { entries = []; capacity = 0 }

-- The array is given back, and the configuration is as after `ya_config_init`.
unfoldable pub ya_config_free : Config → Config
ya_config_free config = record config { entries = []; capacity = 0 }

-- isspace in the C locale
abbrev pub is_space : ℕ → Bool
is_space c = c == b' ' || leb 9 c && leb c 13

-- The walk of `start`.
abbrev pub trim_start : Bytes → Bytes
trim_start [] = []
trim_start (c ∷ cs) = if is_space c then trim_start cs else c ∷ cs

abbrev pub keep : ℕ → Bytes → Bytes
keep c [] = if is_space c then [] else c ∷ []
keep c (d ∷ ds) = c ∷ (d ∷ ds)

-- The walk of `end`: a byte stays where it, or a byte behind it, is no space.
abbrev pub trim_end : Bytes → Bytes
trim_end [] = []
trim_end (c ∷ cs) = keep c (trim_end cs)

unfoldable pub trim_whitespace : Bytes → Bytes
trim_whitespace str = trim_end (trim_start str)

abbrev pub shift : ℕ → Option (Bytes × Bytes) → Option (Bytes × Bytes)
shift c none = none
shift c (some (before, behind)) = some (c ∷ before, behind)

-- strchr: the bytes in front of the first `c`, and those behind it.
abbrev pub strchr : ℕ → Bytes → Option (Bytes × Bytes)
strchr c [] = none
strchr c (x ∷ xs) = if x == c then some ([], xs) else shift x (strchr c xs)

-- A zero written where the first `c` stands.
abbrev pub cut : ℕ → Bytes → Bytes
cut c str = elim (strchr c str) [ none ↦ str | some (before, behind) ↦ before ]

unfoldable pub remove_inline_comment : Bytes → Bytes
remove_inline_comment str = trim_whitespace (cut b'#' (cut b';' str))

unfoldable pub safe_strncpy : Bytes → ℕ → Bytes
safe_strncpy src size = take (size - 1) src

-- strrchr: the bytes in front of the last `c`.
abbrev pub strrchr : ℕ → Bytes → Option Bytes
strrchr c [] = none
strrchr c (x ∷ xs) = elim (strrchr c xs) [
  | some before ↦ some (x ∷ before)
  | none ↦ if x == c then some [] else none
]

-- A quote in front goes with the last one behind it, if there is one.
unfoldable pub unquote : Bytes → Bytes
unquote [] = []
unquote (c ∷ cs) =
    if c == b'"' then (elim (strrchr b'"' cs) [ some v ↦ v | none ↦ c ∷ cs ]) else c ∷ cs

-- What one line does.
pub data Line : Type 0 where
  skipped : Line
  header : Bytes → Line
  pair : Bytes → Bytes → Line

abbrev pub parse_pair : Bytes → Line
parse_pair start = elim (strchr b'=' start) [
  | none ↦ skipped
  | some (key, value) ↦
      pair (trim_whitespace key) (unquote (remove_inline_comment (trim_whitespace value)))
]

abbrev pub parse_header : Bytes → Line
parse_header str = elim (strchr b']' str) [
  | none ↦ skipped
  | some (name, behind) ↦ header (trim_whitespace (safe_strncpy name max_section_length))
]

abbrev pub parse_trimmed : Bytes → Line
parse_trimmed [] = skipped
parse_trimmed (c ∷ cs) =
    if c == b';' || c == b'#'
    then skipped
    else if c == b'['
    then parse_header cs
    else parse_pair (c ∷ cs)

-- A line that `fgets` returns is a C string: what stands behind a zero is not seen.
unfoldable pub parse_line : Bytes → Line
parse_line line = parse_trimmed (trim_whitespace (cut 0 line))

abbrev pub push : ℕ → List Bytes → List Bytes
push c [] = (c ∷ []) ∷ []
push c (l ∷ ls) = (c ∷ l) ∷ ls

abbrev pub ends_line : ℕ → ℕ → Bool
ends_line room c = c == b'\n' || leb room 1

-- The lines that `fgets` returns, where the one that is begun has room for `room` bytes: a line ends
-- behind its newline, or where the buffer is full.
abbrev pub fgets : ℕ → Bytes → List Bytes
fgets room [] = []
fgets room (c ∷ cs) =
    let rest = fgets (if ends_line room c then max_line_length - 1 else room - 1) cs in
    if ends_line room c then (c ∷ []) ∷ rest else push c rest

abbrev pub matches : Bytes → Bytes → Entry → Bool
matches section key entry = equal entry.section section && equal entry.key key

abbrev pub bounded_entry : Bytes → Bytes → Bytes → Entry
bounded_entry section key value = record {
  section = safe_strncpy section max_section_length;
  key = safe_strncpy key max_key_length;
  value = safe_strncpy value max_value_length;
}

module _ (realloc : ℕ → Bool) where
  unfoldable pub reserve : Config → Option Config
  reserve config =
      let new_capacity = config.capacity * 2 + 8 in
      if leb config.capacity (length config.entries)
      then (if realloc new_capacity then some (record config { capacity = new_capacity }) else none)
      else some config

  -- A new entry at the end, in `ya_config_parse` and in `ya_config_set`; `none` is -2.
  unfoldable pub add_entry : Config → Bytes → Bytes → Bytes → Option Config
  add_entry config section key value = elim (reserve config) [
    | none ↦ none
    | some c ↦ some (record c { entries = c.entries ++ bounded_entry section key value ∷ [] })
  ]

  -- The loop over the lines, with the section that it is in.
  unfoldable pub parse_lines : List Bytes → Bytes → Config → ℤ × Config
  parse_lines [] current config = (pos 0, config)
  parse_lines (line ∷ lines) current config = elim (parse_line line) [
    | skipped ↦ parse_lines lines current config
    | header name ↦ parse_lines lines name config
    | pair key value ↦ elim (add_entry config current key value) [
      | none ↦ (negsuc 1, config)
      | some c ↦ parse_lines lines current c
    ]
  ]

  -- The file is its bytes, or cannot be opened.
  unfoldable pub ya_config_parse : Option Bytes → Config → ℤ × Config
  ya_config_parse none config = (negsuc 0, config)
  ya_config_parse (some file) config = parse_lines (fgets (max_line_length - 1) file) [] config

abbrev pub find : Bytes → Bytes → List Entry → Option Bytes
find section key [] = none
find section key (entry ∷ entries) =
    if matches section key entry then some entry.value else find section key entries

-- `none` stands for NULL.
unfoldable pub ya_config_get : Config → Option Bytes → Option Bytes → Option Bytes
ya_config_get config (some section) (some key) = find section key config.entries
ya_config_get config none key = none
ya_config_get config (some section) none = none

-- The first entry that matches gets the value.
abbrev pub update : Bytes → Bytes → Bytes → List Entry → List Entry
update section key value [] = []
update section key value (entry ∷ entries) =
    if matches section key entry
    then record entry { value = safe_strncpy value max_value_length } ∷ entries
    else entry ∷ update section key value entries

abbrev pub set_present : (ℕ → Bool) → Config → Bytes → Bytes → Bytes → ℤ × Config
set_present realloc config section key value = elim (find section key config.entries) [
  | some old ↦ (pos 0, record config { entries = update section key value config.entries })
  | none ↦ elim (add_entry realloc config section key value) [
    | none ↦ (negsuc 1, config)
    | some c ↦ (pos 0, c)
  ]
]

unfoldable pub ya_config_set :
    (ℕ → Bool) → Config → Option Bytes → Option Bytes → Option Bytes → ℤ × Config
ya_config_set realloc config (some section) (some key) (some value) =
    set_present realloc config section key value
ya_config_set realloc config none key value = (negsuc 0, config)
ya_config_set realloc config (some section) none value = (negsuc 0, config)
ya_config_set realloc config (some section) (some key) none = (negsuc 0, config)

abbrev pub section_lines : Bytes → Bool → Bytes → Bytes → Bytes
section_lines last first section rest =
    if equal last section
    then rest
    else (if first then [] else b'\n' ∷ []) ++ (b'[' ∷ (section ++ (b']' ∷ b'\n' ∷ rest)))

abbrev pub next_section : Bytes → Bytes → Bytes
next_section last section =
    if equal last section then last else safe_strncpy section max_section_length

-- The loop over the entries; `first` is `i == 0`.
abbrev pub save_entries : Bytes → Bool → List Entry → Bytes
save_entries last first [] = []
save_entries last first (e ∷ es) =
    section_lines last first e.section
      (e.key ++ (b'=' ∷ (e.value ++ (b'\n' ∷ save_entries (next_section last e.section) false es))))

-- `opens` says whether the file can be written.
unfoldable pub ya_config_save : Bool → Config → ℤ × Option Bytes
ya_config_save false config = (negsuc 0, none)
ya_config_save true config = (pos 0, some (save_entries [] true config.entries))
