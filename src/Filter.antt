-- ===== src/Filter.antt =====
-- The mouse filter (server/src/ya_mouse_filter.h and ya_mouse_filter.c). C's float operations are an
-- interface, so what is stated holds of every rounding and of infinities and NaN.
pub mod Steps
use mouse_hero.Base.{ℕ, Bool, true, false, not, ◌&&◌, ◌||◌, List, [], ◌∷◌, if◌then◌else◌}
use mouse_hero.Base.Int.{ℤ, pos, is_zero}

-- Float arithmetic, as the compiler does it.
pub record Floats : Type 1 where
  pub F : Type 0
  pub decimal : ℕ → ℕ → F  -- the literal n / 10 ^ k
  pub of_int : ℤ → F  -- (float) of an int
  pub add : F → F → F
  pub sub : F → F → F
  pub mul : F → F → F
  pub sqrt : F → F  -- sqrtf
  pub pow : F → F → F  -- powf
  pub fmax : F → F → F  -- fmaxf
  pub fabs : F → F  -- fabsf
  pub lt : F → F → Bool  -- `<`
  pub le : F → F → Bool  -- `<=`
  pub floor : F → ℤ  -- (int) floorf
  pub ceil : F → ℤ  -- (int) ceilf
  pub add_hundredths : F → ℤ → F  -- `x += (double) r / 100.0`

-- ya_mouse_filter_t
pub record Filter (F : Type 0) : Type 0 where
  pub pointer_scale : F
  pub algorithms_enabled : Bool
  pub vex : F
  pub vey : F
  pub frac_x : F
  pub frac_y : F

abbrev pub is_still : ℤ × ℤ → Bool
is_still (dx, dy) = is_zero dx && is_zero dy

module _ (fl : Floats) where
  open fl use {F, decimal, of_int, add, sub, mul, sqrt, pow, fmax, fabs, lt, le, floor, ceil}

  abbrev pub float_zero : F
  float_zero = decimal 0 0

  abbrev pub float_one : F
  float_one = decimal 1 0

  unfoldable pub create : Filter F
  create = record {
    pointer_scale = float_one;
    algorithms_enabled = true;
    vex = float_zero;
    vey = float_zero;
    frac_x = float_zero;
    frac_y = float_zero;
  }

  unfoldable pub reset_state : Filter F → Filter F
  reset_state c = record c {
    vex = float_zero;
    vey = float_zero;
    frac_x = float_zero;
    frac_y = float_zero;
  }

  unfoldable pub set_pointer_scale : F → Filter F → Filter F
  set_pointer_scale sensitivity c = record c { pointer_scale = fmax (decimal 1 1) sensitivity }

  unfoldable pub set_algorithms_enabled : Bool → Filter F → Filter F
  set_algorithms_enabled enabled c = record c { algorithms_enabled = enabled }

  -- The whole pixels of an accumulated fraction, and what is left of it.
  unfoldable pub quantize : F → ℤ × F
  quantize frac =
      let q = if lt float_zero frac then floor frac else ceil frac in
      if le float_one (fabs frac) then (q, sub frac (of_int q)) else (pos 0, frac)

  -- The exponential mean of a speed, with the coefficient 0.3.
  abbrev smooth : F → F → F
  smooth f v = add (mul (decimal 3 1) f) (mul (sub float_one (decimal 3 1)) v)

  unfoldable pub gain : F → F → F
  gain vex vey =
      let speed = sqrt (add (mul vex vex) (mul vey vey)) in
      let above = sub speed (decimal 2 0) in
      let dv = if lt above float_zero then float_zero else above in
      let g = mul float_one (add float_one (mul (decimal 2 2) (pow dv float_one))) in
      if lt (decimal 3 0) g then decimal 3 0 else g

  abbrev pub steps_of : ℤ × ℤ → List (ℤ × ℤ)
  steps_of d = if is_still d then [] else d ∷ []

  -- The speed, the gain, and the whole pixels, with the algorithms on.
  unfoldable pub accelerate : ℤ → ℤ → Filter F → Filter F × (ℤ × ℤ)
  accelerate in_dx in_dy c =
      let vex = smooth (of_int in_dx) c.vex in
      let vey = smooth (of_int in_dy) c.vey in
      let scale = mul c.pointer_scale (gain vex vey) in
      let (qx, frac_x) = quantize (add c.frac_x (mul (of_int in_dx) scale)) in
      let (qy, frac_y) = quantize (add c.frac_y (mul (of_int in_dy) scale)) in
      (record c { vex = vex; vey = vey; frac_x = frac_x; frac_y = frac_y }, (qx, qy))

  -- ya_mouse_filter_process: the steps that it writes. Its pointers are good and `steps_cap` is 128.
  unfoldable pub process : ℤ → ℤ → Filter F → Filter F × List (ℤ × ℤ)
  process in_dx in_dy c =
      if not c.algorithms_enabled
      then (c, steps_of (in_dx, in_dy))
      else (let (c', q) = accelerate in_dx in_dy c in (c', steps_of q))
