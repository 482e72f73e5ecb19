-- ===== src/Config/Lines.antt =====
-- What the lines that ya_config_save writes are read as, with their newlines.
use mouse_hero.Base.{
  ℕ, ◌-◌, ◌<◌, ◌≡◌, refl, ap, ◌∙◌, Bool, false, ◌||◌, [], ◌∷◌, ◌++◌, length, take_all, ◌==◌, arith,
}
use mouse_hero.Config.Text.{
  contains, strchr-some, cut_none, contains-append, trim_start-append, trim_end-append,
  trim_end-space, IsTrimmed, trim_whitespace-IsTrimmed, remove_inline_comment_none,
}
use mouse_hero.Config.{
  skipped, header, pair, trim_end, trim_whitespace, unquote, parse_trimmed, parse_pair,
  parse_header, parse_line, fgets, push, ends_line, safe_strncpy,
}
use mouse_hero.Wire.{Bytes}

-- A text that fits on one line of the file.
pub record IsOneLine (s : Bytes) : Type 0 where
  pub no_newline : contains b'\n' s ≡ false
  pub no_zero : contains 0 s ≡ false
  pub trimmed : IsTrimmed s

pub record IsSection (s : Bytes) : Type 0 where
  pub line : IsOneLine s
  pub no_bracket : contains b']' s ≡ false
  pub fits : length s < 64

abbrev pub starts_with : ℕ → Bytes → Bool
starts_with c [] = false
starts_with c (x ∷ xs) = x == c

pub record IsKey (s : Bytes) : Type 0 where
  pub line : IsOneLine s
  pub no_equals : contains b'=' s ≡ false
  pub no_comment : (starts_with b';' s || starts_with b'#' s || starts_with b'[' s) ≡ false
  pub fits : length s < 64

pub record IsValue (s : Bytes) : Type 0 where
  pub line : IsOneLine s
  pub no_semicolon : contains b';' s ≡ false
  pub no_hash : contains b'#' s ≡ false
  pub unquoted : unquote s ≡ s

parse_trimmed_pair :
    (key value : Bytes)
    → (starts_with b';' key || starts_with b'#' key || starts_with b'[' key) ≡ false
    → parse_trimmed (key ++ b'=' ∷ value) ≡ parse_pair (key ++ b'=' ∷ value)
parse_trimmed_pair [] value h = refl
parse_trimmed_pair (c ∷ cs) value h = ground (arith, h)

pub parse_pair_lem :
    (key value : Bytes)
    → IsKey key
    → IsValue value
    → parse_pair (key ++ b'=' ∷ value) ≡ pair key value
parse_pair_lem key value k v =
    rw
      (
        parse_pair,
        strchr-some b'=' key value k.no_equals,
        trim_whitespace-IsTrimmed key k.line.trimmed,
        trim_whitespace-IsTrimmed value v.line.trimmed,
        remove_inline_comment_none value v.no_semicolon v.no_hash v.line.trimmed,
      )
      (rw v.unquoted)

no_zero :
    (key value : Bytes)
    → contains 0 key ≡ false
    → contains 0 value ≡ false
    → contains 0 (key ++ b'=' ∷ (value ++ b'\n' ∷ [])) ≡ false
no_zero key value k v = ground (
  arith,
  contains-append 0 key (b'=' ∷ (value ++ b'\n' ∷ [])),
  contains-append 0 value (b'\n' ∷ []),
)

trim_pair :
    (key value : Bytes)
    → IsTrimmed key
    → IsTrimmed value
    → trim_whitespace (key ++ b'=' ∷ (value ++ b'\n' ∷ [])) ≡ key ++ b'=' ∷ value
unfolding trim_whitespace
trim_pair key value k v =
    ap trim_end (trim_start-append key b'=' (value ++ b'\n' ∷ []) refl k.in_front)
    ∙ trim_end-append key b'=' (value ++ b'\n' ∷ []) refl
    ∙ ap (λ t. key ++ b'=' ∷ t) (trim_end-space value b'\n' refl ∙ v.behind)

pub parse_line_pair :
    (key value : Bytes)
    → IsKey key
    → IsValue value
    → parse_line (key ++ b'=' ∷ (value ++ b'\n' ∷ [])) ≡ pair key value
unfolding parse_line
parse_line_pair key value k v =
    ap (λ l. parse_trimmed (trim_whitespace l))
      (cut_none 0 _ (no_zero key value k.line.no_zero v.line.no_zero))
    ∙ ap parse_trimmed (trim_pair key value k.line.trimmed v.line.trimmed)
    ∙ parse_trimmed_pair key value k.no_comment
    ∙ parse_pair_lem key value k v

parse_header_lem : (s : Bytes) → IsSection s → parse_header (s ++ b']' ∷ []) ≡ header s
unfolding safe_strncpy
parse_header_lem s h =
    rw
      (
        parse_header,
        strchr-some b']' s [] h.no_bracket,
        take_all 63 s (omega (arith, h.fits)),
        trim_whitespace-IsTrimmed s h.line.trimmed,
      )
      refl

trim_header :
    (s : Bytes) → trim_whitespace (b'[' ∷ (s ++ b']' ∷ b'\n' ∷ [])) ≡ b'[' ∷ (s ++ b']' ∷ [])
unfolding trim_whitespace
trim_header s = trim_end-append (b'[' ∷ s) b']' (b'\n' ∷ []) refl

pub parse_line_header :
    (section : Bytes)
    → IsSection section
    → parse_line (b'[' ∷ (section ++ b']' ∷ b'\n' ∷ [])) ≡ header section
unfolding parse_line
parse_line_header s h =
    ap (λ l. parse_trimmed (trim_whitespace l))
      (cut_none 0 _ (ground (arith, contains-append 0 s (b']' ∷ b'\n' ∷ []), h.line.no_zero)))
    ∙ ap parse_trimmed (trim_header s)
    ∙ parse_header_lem s h

pub parse_line_blank : parse_line (b'\n' ∷ []) ≡ skipped
unfolding parse_line trim_whitespace
parse_line_blank = refl

pub fgets_line :
    (room : ℕ) (l rest : Bytes)
    → contains b'\n' l ≡ false
    → length l < room
    → fgets room (l ++ b'\n' ∷ rest) ≡ (l ++ b'\n' ∷ []) ∷ fgets 255 rest
fgets_line room [] rest n h = refl
fgets_line room (c ∷ cs) rest n h =
    let goes_on : ends_line room c ≡ false = ground (arith, n, h) in
    rw goes_on (ap (push c) (fgets_line (room - 1) cs rest (ground (arith, n)) (omega arith)))
