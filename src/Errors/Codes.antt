-- ===== src/Errors/Codes.antt =====
-- The messages that error codes have (server/src/ya_error.c).
use mouse_hero.Base.{
  ℕ, suc, ◌<◌, ◌≡◌, ◌⊎◌, inl, inr, Bool, true, List, [], ◌∷◌, ◌==◌, ◌&&◌, ltb, some, arith,
  Bool-cases, refl,
}
use mouse_hero.Base.Int.{ℤ, pos, negsuc}
use mouse_hero.Errors.{error_code_to_index, get_message, codes, lookup}

abbrev small : List (ℕ × ℕ) → Bool
small [] = true
small ((c, i) ∷ cases) = ltb i 25 && small cases

small-lookup :
    (cases : List (ℕ × ℕ)) (n : ℕ)
    → small cases ≡ true
    → (lookup cases n < 25) ⊎ (lookup cases n ≡ 30)
small-lookup [] n h = inr refl
small-lookup ((c, i) ∷ cases) n h = elim (Bool-cases (n == c)) [
  | inl t ↦ rw t (inl (ground (arith, h)))
  | inr f ↦ rw f (small-lookup cases n (ground (arith, h)))
]

-- A message that ya_error_get_message takes from its array is one of the 25 that the array is initialized
-- with: none of its five null pointers is ever returned.
pub get_message_bounds : (code : ℤ) (i : ℕ) → get_message code ≡ some i → i < 25
unfolding get_message error_code_to_index
get_message_bounds (pos n) i e = ground arith
get_message_bounds (negsuc n) i e = ground (arith, small-lookup codes (suc n) refl)
