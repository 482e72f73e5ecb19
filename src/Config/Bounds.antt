-- ===== src/Config/Bounds.antt =====
-- The arrays of the configuration: no text is longer than its field, no entry stands behind the
-- allocated ones.
use mathlib.Core.Option.{some_inj}
use mouse_hero.Base.{
  ℕ, ◌+◌, ◌*◌, ◌-◌, ◌≤◌, ◌<◌, ◌≡◌, refl, ap, Bool, inl, inr, Option, none, some, List, [], ◌∷◌,
  ◌++◌, length, length-append, length-take, leb, arith, Bool-cases, Option-cases, All,
}
use mouse_hero.Config.{
  Entry, Config, Line, skipped, header, pair, parse_line, reserve, add_entry, parse_lines,
  bounded_entry, find, matches, update, safe_strncpy, ya_config_init, ya_config_free,
  ya_config_parse, ya_config_set, set_present,
}
use mouse_hero.Wire.{Bytes}

-- Each text leaves room for its zero.
pub record Fits (e : Entry) : Type 0 where
  pub section : length e.section < 64
  pub key : length e.key < 64
  pub value : length e.value < 256

pub record IsValid (c : Config) : Type 0 where
  pub allocated : length c.entries ≤ c.capacity
  pub entries : All Fits c.entries

safe_strncpy-lt : (s : Bytes) (size : ℕ) → 0 < size → length (safe_strncpy s size) < size
unfolding safe_strncpy
safe_strncpy-lt s size h = omega (arith, length-take (size - 1) s)

pub bounded_entry-Fits : (section key value : Bytes) → Fits (bounded_entry section key value)
bounded_entry-Fits section key value = record {
  section = safe_strncpy-lt section 64 (omega arith);
  key = safe_strncpy-lt key 64 (omega arith);
  value = safe_strncpy-lt value 256 (omega arith);
}

All-snoc : (es : List Entry) (e : Entry) → All Fits es → Fits e → All Fits (es ++ e ∷ [])
All-snoc [] e a f = (f, tt)
All-snoc (x ∷ xs) e a f = (a.0, All-snoc xs e a.1 f)

abbrev IsReserved : Config → Option Config → Type 0
IsReserved c none = Unit {0}
IsReserved c (some c') = (c'.entries ≡ c.entries) × (length c.entries < c'.capacity)

reserve-IsReserved :
    (realloc : ℕ → Bool) (c : Config)
    → length c.entries ≤ c.capacity
    → IsReserved c (reserve realloc c)
unfolding reserve
reserve-IsReserved realloc c h = elim (Bool-cases (leb c.capacity (length c.entries))) [
  | inr room ↦ rw room (refl, ground arith)
  | inl full ↦ rw full (elim (Bool-cases (realloc (c.capacity * 2 + 8))) [
    | inl there ↦ rw there (refl, omega arith)
    | inr gone ↦ rw gone tt
  ])
]

pub add_entry-IsValid :
    (realloc : ℕ → Bool) (c c' : Config) (section key value : Bytes)
    → IsValid c
    → add_entry realloc c section key value ≡ some c'
    → IsValid c'
unfolding add_entry
add_entry-IsValid realloc c c' section key value v h = elim (Option-cases (reserve realloc c)) [
  | inl e ↦ ground (arith, h, e)
  | inr (d, e) ↦
      let (same, room) = rw e at (reserve-IsReserved realloc c v.allocated) in
      let new = bounded_entry section key value in
      let made : record d { entries = d.entries ++ new ∷ [] } ≡ c' =
        some_inj.0 (rw (add_entry, e) at h) in
      rw (← made) (record {
        allocated = omega (arith, length-append d.entries (new ∷ []), ap length same);
        entries = All-snoc d.entries new (rw same v.entries) (bounded_entry-Fits section key value);
      })
]

after_line :
    (realloc : ℕ → Bool) (line : Bytes) (lines : List Bytes) (current : Bytes) (c : Config)
    → ((s : Bytes) (d : Config) → IsValid d → IsValid (parse_lines realloc lines s d).1)
    → IsValid c
    → (l : Line) → parse_line line ≡ l
    → IsValid (parse_lines realloc (line ∷ lines) current c).1
unfolding parse_lines
after_line realloc line lines current c ih v skipped e = rw (parse_lines, e) (ih current c v)
after_line realloc line lines current c ih v (header name) e = rw (parse_lines, e) (ih name c v)
after_line realloc line lines current c ih v (pair key value) e =
    elim (Option-cases (add_entry realloc c current key value)) [
      | inl full ↦ rw (parse_lines, e, full) v
      | inr (d, added) ↦
          rw (parse_lines, e, added)
            (ih current d (add_entry-IsValid realloc c d current key value v added))
    ]

pub parse_lines-IsValid :
    (realloc : ℕ → Bool) (lines : List Bytes) (current : Bytes) (c : Config)
    → IsValid c
    → IsValid (parse_lines realloc lines current c).1
unfolding parse_lines
parse_lines-IsValid realloc [] current c v = v
parse_lines-IsValid realloc (line ∷ lines) current c v =
    after_line realloc line lines current c (parse_lines-IsValid realloc lines) v (parse_line line)
      refl

ya_config_parse-IsValid :
    (realloc : ℕ → Bool) (file : Option Bytes) (c : Config)
    → IsValid c
    → IsValid (ya_config_parse realloc file c).1
unfolding ya_config_parse
ya_config_parse-IsValid realloc none c v = v
ya_config_parse-IsValid realloc (some file) c v = parse_lines-IsValid realloc _ [] c v

update-Fits :
    (section key value : Bytes) (es : List Entry)
    → All Fits es
    → All Fits (update section key value es)
update-Fits section key value [] a = a
update-Fits section key value (e ∷ es) a = elim (Bool-cases (matches section key e)) [
  | inl same ↦ rw same (
    record {
      section = a.0.section;
      key = a.0.key;
      value = safe_strncpy-lt value 256 (omega arith);
    },
    a.1,
  )
  | inr other ↦ rw other (a.0, update-Fits section key value es a.1)
]

length-update :
    (section key value : Bytes) (es : List Entry) → length (update section key value es) ≡ length es
length-update section key value [] = refl
length-update section key value (e ∷ es) = ground (arith, length-update section key value es)

set_present-IsValid :
    (realloc : ℕ → Bool) (c : Config) (section key value : Bytes)
    → IsValid c
    → IsValid (set_present realloc c section key value).1
set_present-IsValid realloc c section key value v =
    elim (Option-cases (find section key c.entries)) [
      | inr (old, e) ↦
          rw (set_present, e)
            (record {
              allocated = omega (arith, length-update section key value c.entries, v.allocated);
              entries = update-Fits section key value c.entries v.entries;
            })
      | inl e ↦ elim (Option-cases (add_entry realloc c section key value)) [
        | inl full ↦ rw (set_present, e, full) v
        | inr (d, added) ↦
            rw (set_present, e, added) (add_entry-IsValid realloc c d section key value v added)
      ]
    ]

ya_config_set-IsValid :
    (realloc : ℕ → Bool) (c : Config) (section key value : Option Bytes)
    → IsValid c
    → IsValid (ya_config_set realloc c section key value).1
unfolding ya_config_set
ya_config_set-IsValid realloc c none key value v = v
ya_config_set-IsValid realloc c (some section) none value v = v
ya_config_set-IsValid realloc c (some section) (some key) none v = v
ya_config_set-IsValid realloc c (some section) (some key) (some value) v =
    set_present-IsValid realloc c section key value v

-- The calls that change a configuration, each with the memory that there is.
pub data Call : Type 0 where
  parses : (ℕ → Bool) → Option Bytes → Call
  sets : (ℕ → Bool) → Option Bytes → Option Bytes → Option Bytes → Call
  frees : Call

abbrev pub step : Call → Config → Config
step (parses realloc file) c = (ya_config_parse realloc file c).1
step (sets realloc section key value) c = (ya_config_set realloc c section key value).1
step frees c = ya_config_free c

abbrev pub run : List Call → Config → Config
run [] c = c
run (x ∷ xs) c = run xs (step x c)

pub step-IsValid : (x : Call) (c : Config) → IsValid c → IsValid (step x c)
unfolding ya_config_free
step-IsValid (parses realloc file) c v = ya_config_parse-IsValid realloc file c v
step-IsValid (sets realloc section key value) c v =
    ya_config_set-IsValid realloc c section key value v
step-IsValid frees c v = record { allocated = omega arith; entries = tt }

run_from : (calls : List Call) (c : Config) → IsValid c → IsValid (run calls c)
run_from [] c v = v
run_from (x ∷ xs) c v = run_from xs (step x c) (step-IsValid x c v)

-- After any calls of ya_config_parse, ya_config_set and ya_config_free on a configuration that
-- ya_config_init made, on any files and texts and wherever memory runs out, no entry stands behind
-- the allocated ones, and every section, key and value is shorter than its array.
pub run-IsValid : (calls : List Call) → IsValid (run calls ya_config_init)
run-IsValid calls = run_from calls ya_config_init (record { allocated = omega arith; entries = tt })
