-- ===== src/Filter/Steps.antt =====
-- What the filter of server/src/ya_mouse_filter.c writes to its caller's array of steps.
use mouse_hero.Base.{◌≤◌, ◌≡◌, inl, inr, refl, false, Bool-cases, [], ◌∷◌, length, All, arith}
use mouse_hero.Base.Int.{ℤ}
use mouse_hero.Filter.{Floats, Filter, is_still, steps_of, accelerate, process}

module _ (fl : Floats) where
  steps_of_bounds :
      (d : ℤ × ℤ) → (length (steps_of fl d) ≤ 1) × All (λ s. is_still s ≡ false) (steps_of fl d)
  steps_of_bounds d = elim (Bool-cases (is_still d)) [
    | inl t ↦ rw t (omega arith, tt)
    | inr f ↦ rw f (omega arith, (f, tt))
  ]

  -- One call writes at most one step, and no step without motion, for every float arithmetic and
  -- every state of the filter; with the algorithms off it changes no state and hands the input on.
  pub process_bounds :
      (in_dx in_dy : ℤ) (c : Filter fl.F)
      → let (c', steps) = process fl in_dx in_dy c in
        (length steps ≤ 1)
        × All (λ s. is_still s ≡ false) steps
        × (c.algorithms_enabled ≡ false
            → (c' ≡ c) × (is_still (in_dx, in_dy) ≡ false → steps ≡ (in_dx, in_dy) ∷ []))
  unfolding process accelerate
  process_bounds in_dx in_dy c =
      let (few, moving) = steps_of_bounds (accelerate fl in_dx in_dy c).1 in
      let (few', moving') = steps_of_bounds (in_dx, in_dy) in
      elim (Bool-cases c.algorithms_enabled) [
        | inl on ↦ rw on (few, moving, λ off. cc)
        | inr off ↦ rw off (few', moving', λ _. (refl, λ moves. rw moves refl))
      ]
