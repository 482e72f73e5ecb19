-- ===== src/Throttle/Motion.antt =====
-- The throttle of server/src/ya_mouse_throttle.c neither loses nor makes up motion.
use mouse_hero.Base.{
  ℕ, ◌+◌, ◌≤◌, ◌<◌, ◌≡◌, refl, sym, ap, ◌∙◌, Bool, true, false, ◌&&◌, inl, inr, Bool-cases, Option,
  none, some, List, [], ◌∷◌, arith, if◌then◌else◌,
}
use mouse_hero.Base.Int.{ℤ, pos, abs_ℕ, ◌+ℤ◌, +ℤ_assoc, zero-+ℤ, +ℤ_zero}
use mouse_hero.Throttle.{
  Throttle, Timespec, Call, collects, flushes, collect, flush, step, run, emitted, Result, int_max,
  fits_int, distance, is_still, is_due, when_due, after_sum, stamp, emit, then_run, put_first,
}

abbrev pub total_x : List (ℤ × ℤ) → ℤ
total_x [] = pos 0
total_x ((x, y) ∷ ds) = x +ℤ total_x ds

abbrev pub total_y : List (ℤ × ℤ) → ℤ
total_y [] = pos 0
total_y ((x, y) ∷ ds) = y +ℤ total_y ds

-- The motion that the calls bring in.
abbrev pub moves : List Call → List (ℤ × ℤ)
moves [] = []
moves (collects dx dy force now ∷ cs) = (dx, dy) ∷ moves cs
moves (flushes now ∷ cs) = moves cs

abbrev out_x : Option (ℤ × ℤ) → ℤ
out_x none = pos 0
out_x (some d) = d.0

abbrev out_y : Option (ℤ × ℤ) → ℤ
out_y none = pos 0
out_y (some d) = d.1

abbrev in_x : Call → ℤ
in_x (collects dx dy force now) = dx
in_x (flushes now) = pos 0

abbrev in_y : Call → ℤ
in_y (collects dx dy force now) = dy
in_y (flushes now) = pos 0

-- The size of the motion that a call brings in.
abbrev pub size : Call → ℕ
size c = abs_ℕ (in_x c) + abs_ℕ (in_y c)

abbrev pub sizes : List Call → ℕ
sizes [] = 0
sizes (c ∷ cs) = size c + sizes cs

pub record Balances (s : Throttle) (c : Call) (t : Throttle) (d : Option (ℤ × ℤ)) : Type 0 where
  pub x : out_x d +ℤ t.accum_dx ≡ s.accum_dx +ℤ in_x c
  pub y : out_y d +ℤ t.accum_dy ≡ s.accum_dy +ℤ in_y c
  pub shrinks : distance t ≤ distance s + size c

-- A step is undefined only where the motion is above INT_MAX.
abbrev pub StepBalances : Throttle → Call → Result → Type 0
StepBalances s c none = int_max < distance s + size c
StepBalances s c (some (t, d)) = Balances s c t d

abs-+ℤ : (a b : ℤ) → abs_ℕ (a +ℤ b) ≤ abs_ℕ a + abs_ℕ b
unfolding ◌+ℤ◌
abs-+ℤ a b = ground arith

fits_int_abs : (a : ℤ) → fits_int a ≡ false → int_max < abs_ℕ a
fits_int_abs a h = ground (arith, h)

is_due-none :
    (t : Throttle) (force : Bool) (now : Timespec)
    → is_due t force now ≡ none
    → int_max < distance t
is_due-none t force now h = ground (arith, h)

flush-Balances :
    (s : Throttle) (now now' : Timespec)
    → Balances s (flushes now) (flush s true now').0 (flush s true now').1
unfolding flush
flush-Balances s now now' = record {
  x = ground (arith, zero-+ℤ s.accum_dx, +ℤ_zero s.accum_dx);
  y = ground (arith, zero-+ℤ s.accum_dy, +ℤ_zero s.accum_dy);
  shrinks = ground arith;
}

module _ (s : Throttle) (dx dy : ℤ) (force : Bool) (now : Timespec) where
  abbrev summed : Throttle
  summed = record s { accum_dx = s.accum_dx +ℤ dx; accum_dy = s.accum_dy +ℤ dy }

  abbrev call : Call
  call = collects dx dy force now

  distance-summed : distance summed ≤ distance s + size call
  distance-summed = omega (arith, abs-+ℤ s.accum_dx dx, abs-+ℤ s.accum_dy dy)

  due-Balances :
      (still : Bool)
      → is_still summed ≡ still
      → StepBalances s call (some (if still then (stamp summed now, none) else emit summed now))
  due-Balances true h = record {
    x = zero-+ℤ (s.accum_dx +ℤ dx);
    y = zero-+ℤ (s.accum_dy +ℤ dy);
    shrinks = distance-summed;
  }
  due-Balances false h = record {
    x = +ℤ_zero (s.accum_dx +ℤ dx);
    y = +ℤ_zero (s.accum_dy +ℤ dy);
    shrinks = omega arith;
  }

  when_due-Balances :
      (due : Option Bool)
      → is_due summed force now ≡ due
      → StepBalances s call (when_due summed now due)
  when_due-Balances none h = omega (arith, is_due-none summed force now h, distance-summed)
  when_due-Balances (some false) h = record {
    x = zero-+ℤ (s.accum_dx +ℤ dx);
    y = zero-+ℤ (s.accum_dy +ℤ dy);
    shrinks = distance-summed;
  }
  when_due-Balances (some true) h = due-Balances (is_still summed) refl

  sum-Balances :
      (fits : Bool)
      → (fits_int (s.accum_dx +ℤ dx) && fits_int (s.accum_dy +ℤ dy)) ≡ fits
      → StepBalances s call (after_sum force now (if fits then some summed else none))
  sum-Balances true h = when_due-Balances (is_due summed force now) refl
  sum-Balances false h = elim (Bool-cases (fits_int (s.accum_dx +ℤ dx))) [
    | inr x ↦ omega (arith, fits_int_abs (s.accum_dx +ℤ dx) x, distance-summed)
    | inl x ↦ omega (arith, fits_int_abs (s.accum_dy +ℤ dy) (rw x at h), distance-summed)
  ]

pub step-StepBalances : (s : Throttle) (c : Call) → StepBalances s c (step s c)
unfolding step collect
step-StepBalances s (collects dx dy force now) =
    sum-Balances s dx dy force now (fits_int (s.accum_dx +ℤ dx) && fits_int (s.accum_dy +ℤ dy)) refl
step-StepBalances s (flushes now) = flush-Balances s now now

emitted-total :
    (o : Option (ℤ × ℤ)) (ds : List (ℤ × ℤ))
    → (total_x (emitted o ds) ≡ out_x o +ℤ total_x ds)
      × (total_y (emitted o ds) ≡ out_y o +ℤ total_y ds)
emitted-total none ds = (sym (zero-+ℤ (total_x ds)), sym (zero-+ℤ (total_y ds)))
emitted-total (some d) ds = (refl, refl)

moves-total :
    (c : Call) (cs : List Call)
    → (total_x (moves (c ∷ cs)) ≡ in_x c +ℤ total_x (moves cs))
      × (total_y (moves (c ∷ cs)) ≡ in_y c +ℤ total_y (moves cs))
moves-total (collects dx dy force now) cs = (refl, refl)
moves-total (flushes now) cs =
    (sym (zero-+ℤ (total_x (moves cs))), sym (zero-+ℤ (total_y (moves cs))))

regroup :
    (o a i acc t m e : ℤ) → o +ℤ a ≡ acc +ℤ i → t +ℤ e ≡ a +ℤ m → o +ℤ t +ℤ e ≡ acc +ℤ (i +ℤ m)
regroup o a i acc t m e p q =
    +ℤ_assoc o t e
    ∙ ap (λ x. o +ℤ x) q
    ∙ sym (+ℤ_assoc o a m)
    ∙ ap (λ x. x +ℤ m) p
    ∙ +ℤ_assoc acc i m

-- What is claimed of a run: where it is undefined, more than INT_MAX of motion was there and came in.
abbrev pub RunBalances : Throttle → List Call → Option (Throttle × List (ℤ × ℤ)) → Type 0
RunBalances s cs none = int_max < distance s + sizes cs
RunBalances s cs (some (t, out)) =
    (total_x out +ℤ t.accum_dx ≡ s.accum_dx +ℤ total_x (moves cs))
    × (total_y out +ℤ t.accum_dy ≡ s.accum_dy +ℤ total_y (moves cs))

put_first-RunBalances :
    (s t : Throttle) (c : Call) (cs : List Call) (d : Option (ℤ × ℤ))
    (r : Option (Throttle × List (ℤ × ℤ)))
    → Balances s c t d
    → RunBalances t cs r
    → RunBalances s (c ∷ cs) (put_first d r)
put_first-RunBalances s t c cs d none b i = omega (arith, b.shrinks, i)
put_first-RunBalances s t c cs d (some (t', out)) b (ix, iy) =
    let (ex, ey) = emitted-total d out in
    let (mx, my) = moves-total c cs in
    (rw (ex, mx) (regroup _ _ _ _ _ _ _ b.x ix), rw (ey, my) (regroup _ _ _ _ _ _ _ b.y iy))

then_run-RunBalances :
    (s : Throttle) (c : Call) (cs : List Call) (r : Result)
    → ((t : Throttle) → RunBalances t cs (run cs t))
    → StepBalances s c r
    → RunBalances s (c ∷ cs) (then_run (run cs) r)
then_run-RunBalances s c cs none later b = omega (arith, b)
then_run-RunBalances s c cs (some (t, d)) later b =
    put_first-RunBalances s t c cs d (run cs t) b (later t)

-- Over any calls of `collect` and `flush`, at any times: where no `int` overflows, what was emitted and
-- what is still accumulated add up to what was accumulated at first and what came in, on each axis. An
-- overflow, which is undefined behaviour, takes more than 2^31 - 1 of motion, the distances of both
-- axes in what was accumulated and in what came in taken together.
pub run-balance : (cs : List Call) (s : Throttle) → RunBalances s cs (run cs s)
unfolding run
run-balance [] s =
    (zero-+ℤ s.accum_dx ∙ sym (+ℤ_zero s.accum_dx), zero-+ℤ s.accum_dy ∙ sym (+ℤ_zero s.accum_dy))
run-balance (c ∷ cs) s =
    then_run-RunBalances s c cs (step s c) (run-balance cs) (step-StepBalances s c)
