-- ===== src/Throttle/Pacing.antt =====
-- How often the throttle of server/src/ya_mouse_throttle.c lets motion through.
use mouse_hero.Base.{
  ℕ, ◌+◌, ◌≤◌, ◌<◌, ◌≡◌, refl, ap, ◌∙◌, ◌⊎◌, ◌&&◌, Bool, true, false, Option, none, some, List, [],
  ◌∷◌, arith, subst, if◌then◌else◌,
}
use mouse_hero.Base.Int.{ℤ, ◌+ℤ◌}
use mouse_hero.Throttle.{
  Throttle, Timespec, Call, collects, nanos, collect, step, interval_low_speed, interval_high_speed,
  low_speed_threshold, is_due, is_still, stamp, emit, Result, int_max, fits_int, distance,
  after_sum, when_due,
}
use mouse_hero.Throttle.Motion.{StepBalances, Balances, step-StepBalances, sizes}

-- One report of motion, as the move handler collects it: not forced, with good out pointers.
pub record Report : Type 0 where
  pub dx : ℤ
  pub dy : ℤ
  pub now : Timespec

abbrev pub report : Throttle → Report → Result
report s r = collect s r.dx r.dy false true r.now

abbrev pub calls_of : List Report → List Call
calls_of [] = []
calls_of (r ∷ rs) = collects r.dx r.dy false r.now ∷ calls_of rs

abbrev at_emission : Option (ℤ × ℤ) → ℕ → Option (List ℕ) → Option (List ℕ)
at_emission d t none = none
at_emission none t (some ts) = some ts
at_emission (some d) t (some ts) = some (t ∷ ts)

abbrev then_times : (Throttle → Option (List ℕ)) → ℕ → Result → Option (List ℕ)
then_times later now none = none
then_times later now (some (t, d)) = at_emission d now (later t)

-- The times of the reports that emitted.
unfoldable pub times : List Report → Throttle → Option (List ℕ)
times [] s = some []
times (r ∷ rs) s = then_times (times rs) (nanos r.now) (report s r)

-- Each time is at least the interval behind the one before it.
abbrev pub IsSpaced : ℕ → List ℕ → Type 0
IsSpaced earliest [] = Unit {0}
IsSpaced earliest (t ∷ ts) = (earliest ≤ t) × IsSpaced (t + interval_low_speed) ts

abbrev pub earliest : Throttle → ℕ
earliest s = if s.has_last_emit then nanos s.last_emit + interval_low_speed else 0

IsSpaced-mono : (a b : ℕ) (ts : List ℕ) → b ≤ a → IsSpaced a ts → IsSpaced b ts
IsSpaced-mono a b [] h p = tt
IsSpaced-mono a b (t ∷ ts) h p = (omega arith, p.1)

-- A report emits nothing and does not bring the next emission forward, or it is due and sets it.
abbrev Paces : Throttle → Report → Result → Type 0
Paces s r none = Unit
Paces s r (some (t, none)) = earliest s ≤ earliest t
Paces s r (some (t, some d)) =
    (earliest s ≤ nanos r.now) × (earliest t ≡ nanos r.now + interval_low_speed)

module _ (s : Throttle) (r : Report) where
  abbrev pub taken : Throttle
  taken = record s { accum_dx = s.accum_dx +ℤ r.dx; accum_dy = s.accum_dy +ℤ r.dy }

  due_lem : is_due taken false r.now ≡ some true → earliest s ≤ nanos r.now
  due_lem h = ground (arith, h)

  due-Paces :
      (still : Bool)
      → is_due taken false r.now ≡ some true
      → Paces s r (some (if still then (stamp taken r.now, none) else emit taken r.now))
  due-Paces true h = omega (arith, due_lem h)
  due-Paces false h = (due_lem h, refl)

  when_due-Paces :
      (due : Option Bool) → is_due taken false r.now ≡ due → Paces s r (when_due taken r.now due)
  when_due-Paces none h = tt
  when_due-Paces (some false) h = omega arith
  when_due-Paces (some true) h = due-Paces (is_still taken) h

  sum-Paces : (fits : Bool) → Paces s r (after_sum false r.now (if fits then some taken else none))
  sum-Paces true = when_due-Paces (is_due taken false r.now) refl
  sum-Paces false = tt

  report-Paces : Paces s r (report s r)
  unfolding collect
  report-Paces = sum-Paces (fits_int (s.accum_dx +ℤ r.dx) && fits_int (s.accum_dy +ℤ r.dy))

  report-StepBalances : StepBalances s (collects r.dx r.dy false r.now) (report s r)
  unfolding step
  report-StepBalances = step-StepBalances s (collects r.dx r.dy false r.now)

-- What is claimed of the times: where a report is undefined, more than INT_MAX of motion came in.
abbrev pub ArePaced : Throttle → List Report → Option (List ℕ) → Type 0
ArePaced s rs none = int_max < distance s + sizes (calls_of rs)
ArePaced s rs (some ts) = IsSpaced (earliest s) ts

at_emission-ArePaced :
    (s t : Throttle) (r : Report) (rs : List Report) (d : Option (ℤ × ℤ)) (later : Option (List ℕ))
    → Balances s (collects r.dx r.dy false r.now) t d
    → Paces s r (some (t, d))
    → ArePaced t rs later
    → ArePaced s (r ∷ rs) (at_emission d (nanos r.now) later)
at_emission-ArePaced s t r rs d none b p l = omega (arith, b.shrinks, l)
at_emission-ArePaced s t r rs none (some ts) b p l = IsSpaced-mono (earliest t) (earliest s) ts p l
at_emission-ArePaced s t r rs (some d) (some ts) b (due, set) l =
    (due, subst (λ n. IsSpaced n ts) set l)

then_times-ArePaced :
    (s : Throttle) (r : Report) (rs : List Report) (o : Result)
    → ((t : Throttle) → ArePaced t rs (times rs t))
    → StepBalances s (collects r.dx r.dy false r.now) o
    → Paces s r o
    → ArePaced s (r ∷ rs) (then_times (times rs) (nanos r.now) o)
then_times-ArePaced s r rs none later b p = omega (arith, b)
then_times-ArePaced s r rs (some (t, d)) later b p =
    at_emission-ArePaced s t r rs d (times rs t) b p (later t)

-- However often the client reports motion, unforced: where no `int` overflows, two emissions are at least
-- 4 ms apart, and the first is at least 4 ms behind the last one before, if there was one. An overflow,
-- which is undefined behaviour, takes more than 2^31 - 1 of motion, the distances of both axes in what
-- was accumulated and in what came in taken together.
pub report_paced : (rs : List Report) (s : Throttle) → ArePaced s rs (times rs s)
unfolding times
report_paced [] s = tt
report_paced (r ∷ rs) s =
    then_times-ArePaced s r rs (report s r) (report_paced rs) (report-StepBalances s r)
      (report-Paces s r)

report-taken :
    (s : Throttle) (r : Report)
    → distance (taken s r) ≤ int_max
    → report s r ≡ after_sum false r.now (some (taken s r))
unfolding collect
report-taken s r h =
    let fits : (fits_int (s.accum_dx +ℤ r.dx) && fits_int (s.accum_dy +ℤ r.dy)) ≡ true =
      ground (arith, h) in
    ap (λ b. after_sum false r.now (if b then some (taken s r) else none)) fits

-- While the accumulated motion, with that of the report, is three pixels or more and its distance fits in
-- an `int`, a report within 8 ms of the last emission is kept back: it emits nothing, and its motion is added.
pub report_waits :
    (s : Throttle) (r : Report)
    → s.has_last_emit ≡ true
    → low_speed_threshold ≤ distance (taken s r)
    → distance (taken s r) ≤ int_max
    → nanos r.now < nanos s.last_emit + interval_high_speed
    → report s r ≡ some (taken s r, none)
report_waits s r last far fits soon =
    let early : is_due (taken s r) false r.now ≡ some false =
      ground (arith, last, far, fits, soon) in
    report-taken s r fits ∙ ap (when_due (taken s r) r.now) early

-- The delay is bounded: a report that comes 8 ms or more behind the last emission, or with none
-- before it, emits all that has accumulated with its own motion, unless that is the null motion. The
-- distance of that motion fits in an `int`.
pub report_due :
    (s : Throttle) (r : Report)
    → ((s.has_last_emit ≡ false) ⊎ (nanos s.last_emit + interval_high_speed ≤ nanos r.now))
    → distance (taken s r) ≤ int_max
    → is_still (taken s r) ≡ false
    → (t : Throttle) × (report s r ≡ some (t, some (s.accum_dx +ℤ r.dx, s.accum_dy +ℤ r.dy)))
report_due s r late fits moved =
    let due : is_due (taken s r) false r.now ≡ some true = ground (arith, late, fits) in
    (
      (emit (taken s r) r.now).0,
      report-taken s r fits
          ∙ (ap (when_due (taken s r) r.now) due
              ∙ ap
                  (λ b.
                    some (if b then (stamp (taken s r) r.now, none) else emit (taken s r) r.now))
                  moved),
    )
