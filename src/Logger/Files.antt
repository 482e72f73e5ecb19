-- ===== src/Logger/Files.antt =====
-- What the renames of a rotation do to the files (server/src/ya_logger.c, check_and_rotate_log).
use mouse_hero.Base.{
  ℕ, zero, suc, ◌<◌, ◌≡◌, refl, sym, ap, ◌∙◌, Option, none, some, ◌==◌, Bool-cases, Option-cases,
  inl, inr, ◌⊎◌, arith,
}
use mouse_hero.Logger.{Files, store, move_file, rename, rotate}
use mouse_hero.Wire.{Bytes}

pub store-other :
    (n k : ℕ) (content : Option Bytes) (files : Files)
    → k < n ⊎ (n < k)
    → store n content files k ≡ files k
store-other n k content files (inl h) = ground (arith, h)
store-other n k content files (inr h) = ground (arith, h)

store-same : (n : ℕ) (content : Option Bytes) (files : Files) → store n content files n ≡ content
store-same n content files = ground arith

rename-below : (n k : ℕ) (files : Files) → k < n → rename n (suc n) files k ≡ files k
rename-below n k files h = elim (Option-cases (files n)) [
  | inl absent ↦ ap (λ c. move_file n (suc n) files c k) absent
  | inr (c, there) ↦
      ap (λ c. move_file n (suc n) files c k) there
      ∙ (store-other (suc n) k (some c) (store n none files) (inl (omega (arith, h)))
          ∙ store-other n k none files (inl h))
]

rename-above : (n k : ℕ) (files : Files) → suc n < k → rename n (suc n) files k ≡ files k
rename-above n k files h = elim (Option-cases (files n)) [
  | inl absent ↦ ap (λ c. move_file n (suc n) files c k) absent
  | inr (c, there) ↦
      ap (λ c. move_file n (suc n) files c k) there
      ∙ (store-other (suc n) k (some c) (store n none files) (inr h)
          ∙ store-other n k none files (inr (omega (arith, h))))
]

rename-old : (n : ℕ) (files : Files) → rename n (suc n) files n ≡ none
rename-old n files = elim (Option-cases (files n)) [
  | inl absent ↦ ap (λ c. move_file n (suc n) files c n) absent ∙ absent
  | inr (c, there) ↦
      ap (λ c. move_file n (suc n) files c n) there
      ∙ (store-other (suc n) n (some c) (store n none files) (inl (omega arith))
          ∙ store-same n none files)
]

-- With no gap behind `n` the new name gets what the old one had.
rename-new :
    (n : ℕ) (files : Files)
    → (files n ≡ none → files (suc n) ≡ none)
    → rename n (suc n) files (suc n) ≡ files n
rename-new n files gap = elim (Option-cases (files n)) [
  | inl absent ↦ ap (λ c. move_file n (suc n) files c (suc n)) absent ∙ (gap absent ∙ sym absent)
  | inr (c, there) ↦
      ap (λ c. move_file n (suc n) files c (suc n)) there
      ∙ (store-same (suc n) (some c) (store n none files) ∙ sym there)
]

pub rotate-above : (n k : ℕ) (files : Files) → n < k → rotate n files k ≡ files k
rotate-above zero k files h = refl
rotate-above (suc n) k files h =
    rotate-above n k (rename n (suc n) files) (omega (arith, h)) ∙ rename-above n k files h

-- Of the files below `n`, one that is not there has none behind it.
abbrev pub HasNoGap : ℕ → Files → Type 0
HasNoGap n files = (k : ℕ) → k < n → files k ≡ none → files (suc k) ≡ none

rename-HasNoGap :
    (n : ℕ) (files : Files) → HasNoGap (suc n) files → HasNoGap n (rename n (suc n) files)
rename-HasNoGap n files gap k h absent = elim (Bool-cases (suc k == n)) [
  | inl last ↦
      (let e : suc k ≡ n = ground (arith, last) in
        ap (rename n (suc n) files) e ∙ rename-old n files)
  | inr inner ↦
      rename-below n (suc k) files (ground (arith, h, inner))
      ∙ gap k (omega (arith, h)) (sym (rename-below n k files h) ∙ absent)
]

pub rotate_moves :
    (n k : ℕ) (files : Files) → HasNoGap n files → k < n → rotate n files (suc k) ≡ files k
rotate_moves (suc n) k files gap h = elim (Bool-cases (k == n)) [
  | inl last ↦
      (let e : k ≡ n = ground (arith, last) in
        ap (λ j. rotate n (rename n (suc n) files) (suc j)) e
        ∙ (rotate-above n (suc n) (rename n (suc n) files) (omega arith)
            ∙ (rename-new n files (gap n (omega arith)) ∙ ap files (sym e))))
  | inr inner ↦
      (let below : k < n = ground (arith, h, inner) in
        rotate_moves n k (rename n (suc n) files) (rename-HasNoGap n files gap) below
        ∙ rename-below n k files below)
]
rotate_moves zero k files gap h = absurd (omega (arith, h))

pub rotate-zero : (n : ℕ) (files : Files) → 0 < n → rotate n files 0 ≡ none
rotate-zero zero files h = absurd (omega (arith, h))
rotate-zero (suc zero) files h = rename-old 0 files
rotate-zero (suc (suc n)) files h =
    rotate-zero (suc n) (rename (suc n) (suc (suc n)) files) (omega arith)
