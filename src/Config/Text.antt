-- ===== src/Config/Text.antt =====
-- Lemmas on the texts of a line: trimming, and the search for a byte.
use mouse_hero.Base.{
  ℕ, ◌≤◌, ◌≡◌, refl, ap, ◌∙◌, Bool, true, false, ◌||◌, inl, inr, none, some, [], ◌∷◌, ◌++◌, length,
  ◌==◌, arith, Bool-cases,
}
use mouse_hero.Config.{
  is_space, trim_start, trim_end, trim_whitespace, strchr, cut, keep, remove_inline_comment,
}
use mouse_hero.Wire.{Bytes}

abbrev pub contains : ℕ → Bytes → Bool
contains c [] = false
contains c (x ∷ xs) = x == c || contains c xs

pub strchr-none : (c : ℕ) (s : Bytes) → contains c s ≡ false → strchr c s ≡ none
strchr-none c [] h = refl
strchr-none c (x ∷ xs) h = ground (arith, strchr-none c xs)

pub strchr-some :
    (c : ℕ) (s behind : Bytes)
    → contains c s ≡ false
    → strchr c (s ++ c ∷ behind) ≡ some (s, behind)
strchr-some c [] behind h = ground arith
strchr-some c (x ∷ xs) behind h = ground (arith, strchr-some c xs behind)

pub cut_none : (c : ℕ) (s : Bytes) → contains c s ≡ false → cut c s ≡ s
cut_none c s h = rw (cut, strchr-none c s h)

pub contains-append : (c : ℕ) (s t : Bytes) → contains c (s ++ t) ≡ (contains c s || contains c t)
contains-append c [] t = refl
contains-append c (x ∷ xs) t = ground (arith, contains-append c xs t)

pub length-trim_start : (s : Bytes) → length (trim_start s) ≤ length s
length-trim_start [] = omega arith
length-trim_start (c ∷ cs) = ground (arith, length-trim_start cs)

-- A text with no space in front: the walk stops at once, also where more stands behind it.
pub trim_start-append :
    (s : Bytes) (c : ℕ) (t : Bytes)
    → is_space c ≡ false
    → trim_start s ≡ s
    → trim_start (s ++ c ∷ t) ≡ s ++ c ∷ t
trim_start-append [] c t h e = rw h
trim_start-append (x ∷ xs) c t h e = elim (Bool-cases (is_space x)) [
  | inl space ↦
      let short : trim_start xs ≡ x ∷ xs = rw space at e in
      absurd (omega (arith, length-trim_start xs, ap length short))
  | inr solid ↦ rw solid
]

keep_solid : (c : ℕ) (s : Bytes) → is_space c ≡ false → keep c s ≡ c ∷ s
keep_solid c [] h = rw h
keep_solid c (x ∷ xs) h = refl

keep-append : (x : ℕ) (s : Bytes) (c : ℕ) (t : Bytes) → keep x (s ++ c ∷ t) ≡ x ∷ (s ++ c ∷ t)
keep-append x [] c t = refl
keep-append x (y ∷ ys) c t = refl

pub trim_end-append :
    (s : Bytes) (c : ℕ) (t : Bytes)
    → is_space c ≡ false
    → trim_end (s ++ c ∷ t) ≡ s ++ c ∷ trim_end t
trim_end-append [] c t h = keep_solid c (trim_end t) h
trim_end-append (x ∷ xs) c t h =
    ap (keep x) (trim_end-append xs c t h) ∙ keep-append x xs c (trim_end t)

pub trim_end-space : (s : Bytes) (c : ℕ) → is_space c ≡ true → trim_end (s ++ c ∷ []) ≡ trim_end s
trim_end-space [] c h = rw h
trim_end-space (x ∷ xs) c h = ap (keep x) (trim_end-space xs c h)

-- A text with no space at either end.
pub record IsTrimmed (s : Bytes) : Type 0 where
  pub in_front : trim_start s ≡ s
  pub behind : trim_end s ≡ s

pub trim_whitespace-IsTrimmed : (s : Bytes) → IsTrimmed s → trim_whitespace s ≡ s
unfolding trim_whitespace
trim_whitespace-IsTrimmed s t = rw t.in_front t.behind

pub remove_inline_comment_none :
    (s : Bytes)
    → contains b';' s ≡ false
    → contains b'#' s ≡ false
    → IsTrimmed s
    → remove_inline_comment s ≡ s
unfolding remove_inline_comment
remove_inline_comment_none s semicolon hash t =
    rw (cut_none b';' s semicolon, cut_none b'#' s hash) (trim_whitespace-IsTrimmed s t)
