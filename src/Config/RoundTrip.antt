-- ===== src/Config/RoundTrip.antt =====
-- What ya_config_save writes, ya_config_parse reads back.
use mathlib.Core.List.{append-nil, append_assoc}
use mouse_hero.Base.{
  ℕ, ◌+◌, ◌*◌, ◌<◌, ◌≡◌, refl, sym, ap, ◌∙◌, Bool, true, false, inl, inr, some, List, [], ◌∷◌, ◌++◌,
  length, length-append, take_all, if◌then◌else◌, arith, Bool-cases, equal, equal_eq, All, leb,
}
use mouse_hero.Base.Int.{ℤ, pos}
use mouse_hero.Config.Lines.{
  IsSection, IsKey, IsValue, parse_line_pair, parse_line_header, parse_line_blank, fgets_line,
}
use mouse_hero.Config.Text.{contains, contains-append}
use mouse_hero.Config.{
  Entry, Config, skipped, header, pair, fgets, parse_line, parse_lines, add_entry, reserve,
  bounded_entry, section_lines, save_entries, safe_strncpy, next_section, ya_config_parse,
  ya_config_save,
}
use mouse_hero.Wire.{Bytes}

-- An entry that the format can express, on one line of the buffer of ya_config_parse.
pub record IsWritable (e : Entry) : Type 0 where
  pub section : IsSection e.section
  pub key : IsKey e.key
  pub value : IsValue e.value
  pub fits : length e.key + length e.value + 2 < 256

-- The status 0, and these entries.
abbrev pub Succeeds : List Entry → ℤ × Config → Type 0
Succeeds es (status, config) = (status ≡ pos 0) × (config.entries ≡ es)

module _ (realloc : ℕ → Bool) where
  parse_skipped :
      (line : Bytes) (lines : List Bytes) (current : Bytes) (c : Config)
      → parse_line line ≡ skipped
      → parse_lines realloc (line ∷ lines) current c ≡ parse_lines realloc lines current c
  unfolding parse_lines
  parse_skipped line lines current c e = rw (parse_lines, e) refl

  parse_headed :
      (line : Bytes) (lines : List Bytes) (current name : Bytes) (c : Config)
      → parse_line line ≡ header name
      → parse_lines realloc (line ∷ lines) current c ≡ parse_lines realloc lines name c
  unfolding parse_lines
  parse_headed line lines current name c e = rw (parse_lines, e) refl

  parse_added :
      (line : Bytes) (lines : List Bytes) (current key value : Bytes) (c c' : Config)
      → parse_line line ≡ pair key value
      → add_entry realloc c current key value ≡ some c'
      → parse_lines realloc (line ∷ lines) current c ≡ parse_lines realloc lines current c'
  unfolding parse_lines
  parse_added line lines current key value c c' e added = rw (parse_lines, e, added) refl

  header_newline :
      (section : Bytes) → IsSection section → contains b'\n' (b'[' ∷ (section ++ b']' ∷ [])) ≡ false
  header_newline section s =
      ground (arith, contains-append b'\n' section (b']' ∷ []), s.line.no_newline)

  pair_newline :
      (key value : Bytes) → IsKey key → IsValue value → contains b'\n' (key ++ b'=' ∷ value) ≡ false
  pair_newline key value k v =
      ground (arith, contains-append b'\n' key (b'=' ∷ value), k.line.no_newline, v.line.no_newline)

  read_header :
      (section rest current : Bytes) (c : Config)
      → IsSection section
      → parse_lines realloc (fgets 255 (b'[' ∷ (section ++ (b']' ∷ b'\n' ∷ rest)))) current c
        ≡ parse_lines realloc (fgets 255 rest) section c
  read_header section rest current c s =
      ap (λ f. parse_lines realloc f current c)
        (ap (λ t. fgets 255 (b'[' ∷ t)) (sym (append_assoc section (b']' ∷ []) (b'\n' ∷ rest)))
          ∙ fgets_line 255 (b'[' ∷ (section ++ b']' ∷ [])) rest (header_newline section s)
              (omega (arith, length-append section (b']' ∷ []), s.fits)))
      ∙ parse_headed _ (fgets 255 rest) current section c (
          ap (λ t. parse_line (b'[' ∷ t)) (append_assoc section (b']' ∷ []) (b'\n' ∷ []))
          ∙ parse_line_header section s)

  read_changed :
      (last : Bytes) (first : Bool) (section rest : Bytes) (c : Config)
      → IsSection section
      → parse_lines realloc
          (fgets 255
            ((if first then [] else b'\n' ∷ []) ++ (b'[' ∷ (section ++ (b']' ∷ b'\n' ∷ rest)))))
          last
          c
        ≡ parse_lines realloc (fgets 255 rest) section c
  read_changed last true section rest c s = read_header section rest last c s
  read_changed last false section rest c s =
      parse_skipped (b'\n' ∷ []) _ last c parse_line_blank ∙ read_header section rest last c s

  read_section :
      (last : Bytes) (first : Bool) (section rest : Bytes) (c : Config)
      → IsSection section
      → parse_lines realloc (fgets 255 (section_lines last first section rest)) last c
        ≡ parse_lines realloc (fgets 255 rest) section c
  read_section last first section rest c s = elim (Bool-cases (equal last section)) [
    | inl same ↦
        rw same (ap (λ l. parse_lines realloc (fgets 255 rest) l c) (equal_eq last section same))
    | inr changed ↦ rw changed (read_changed last first section rest c s)
  ]

  read_entry :
      (key value rest current : Bytes) (c c' : Config)
      → IsKey key
      → IsValue value
      → length key + length value + 2 < 256
      → add_entry realloc c current key value ≡ some c'
      → parse_lines realloc (fgets 255 (key ++ (b'=' ∷ (value ++ (b'\n' ∷ rest))))) current c
        ≡ parse_lines realloc (fgets 255 rest) current c'
  read_entry key value rest current c c' k v fits added =
      ap (λ f. parse_lines realloc f current c)
        (ap (fgets 255) (sym (append_assoc key (b'=' ∷ value) (b'\n' ∷ rest)))
          ∙ fgets_line 255 (key ++ b'=' ∷ value) rest (pair_newline key value k v)
              (omega (arith, length-append key (b'=' ∷ value))))
      ∙ parse_added _ (fgets 255 rest) current key value c c'
          (ap parse_line (append_assoc key (b'=' ∷ value) (b'\n' ∷ []))
            ∙ parse_line_pair key value k v)
          added

  module _ (always : (n : ℕ) → realloc n ≡ true) where
    reserve_total :
        (c : Config) → (c' : Config) × (reserve realloc c ≡ some c') × (c'.entries ≡ c.entries)
    unfolding reserve
    reserve_total c = elim (Bool-cases (leb c.capacity (length c.entries))) [
      | inl full ↦ (
        record c { capacity = c.capacity * 2 + 8 },
        rw (full, always (c.capacity * 2 + 8)) refl,
        refl,
      )
      | inr room ↦ (c, rw room refl, refl)
    ]

    add_entry_total :
        (c : Config) (section key value : Bytes)
        → (c' : Config) × (add_entry realloc c section key value ≡ some c')
          × (c'.entries ≡ c.entries ++ bounded_entry section key value ∷ [])
    unfolding add_entry
    add_entry_total c section key value =
        let (c', e, kept) = reserve_total c in
        (
          record c' { entries = c'.entries ++ bounded_entry section key value ∷ [] },
          rw (add_entry, e) refl,
          ap (λ t. t ++ bounded_entry section key value ∷ []) kept,
        )

    bounded_entry-IsWritable :
        (e : Entry) → IsWritable e → bounded_entry e.section e.key e.value ≡ e
    unfolding safe_strncpy
    bounded_entry-IsWritable e w =
        rw
          (
            take_all 63 e.section (omega (arith, w.section.fits)),
            take_all 63 e.key (omega (arith, w.key.fits)),
            take_all 255 e.value (omega (arith, w.fits)),
          )
          refl

    next_section_lem :
        (last section : Bytes) → IsSection section → next_section last section ≡ section
    unfolding safe_strncpy
    next_section_lem last section s = elim (Bool-cases (equal last section)) [
      | inl same ↦ rw same (equal_eq last section same)
      | inr changed ↦ rw changed (take_all 63 section (omega (arith, s.fits)))
    ]

    read_first :
        (e : Entry) (es : List Entry) (last : Bytes) (first : Bool) (c c' : Config)
        → IsWritable e
        → add_entry realloc c e.section e.key e.value ≡ some c'
        → parse_lines realloc (fgets 255 (save_entries last first (e ∷ es))) last c
          ≡ parse_lines realloc (fgets 255 (save_entries e.section false es)) e.section c'
    read_first e es last first c c' w added =
        read_section last first e.section _ c w.section
        ∙ read_entry e.key e.value _ e.section c c' w.key w.value w.fits added
        ∙ ap (λ s. parse_lines realloc (fgets 255 (save_entries s false es)) e.section c')
            (next_section_lem last e.section w.section)

    read_back :
        (es : List Entry) (last : Bytes) (first : Bool) (c : Config)
        → All IsWritable es
        → Succeeds
            (c.entries ++ es)
            (parse_lines realloc (fgets 255 (save_entries last first es)) last c)
    unfolding parse_lines
    read_back [] last first c a = (refl, sym (append-nil c.entries))
    read_back (e ∷ es) last first c a =
        let (c', added, kept) = add_entry_total c e.section e.key e.value in
        let (done, same) = read_back es e.section false c' a.1 in
        let p = read_first e es last first c c' a.0 added in
        (
          ap (λ r. r.0) p ∙ done,
          ap (λ r. r.1.entries) p
              ∙ same
              ∙ ap (λ t. t ++ es)
                  (kept ∙ ap (λ x. c.entries ++ x ∷ []) (bounded_entry-IsWritable e a.0))
              ∙ append_assoc c.entries (e ∷ []) es,
        )

    -- Of a configuration whose entries are all writable (sections, keys and values trimmed, with no byte
    -- that the format gives a meaning to, each on one line of at most 254 bytes), ya_config_save writes
    -- a file that ya_config_parse reads, with 0, into exactly the same entries in the same order, behind
    -- those that the configuration it reads into has. There is memory for the array.
    pub parse-save :
        (saved config : Config)
        → All IsWritable saved.entries
        → ((ya_config_save true saved).0 ≡ pos 0)
          × Succeeds
              (config.entries ++ saved.entries)
              (ya_config_parse realloc (ya_config_save true saved).1 config)
    unfolding ya_config_save ya_config_parse
    parse-save saved config a = (refl, read_back saved.entries [] true config a)
