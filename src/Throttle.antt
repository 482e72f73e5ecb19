-- ===== src/Throttle.antt =====
-- The mouse throttle (server/src/ya_mouse_throttle.c): motion is accumulated and handed on at
-- intervals. The static state is a record, and what clock_gettime reads is an argument. Where an `int` of
-- the source overflows, which is undefined in C, the result is `none`. Times are exact: the file's doubles
-- hold them in milliseconds, with errors far below the nanosecond that a reading resolves.
pub mod Motion
pub mod Pacing
use mouse_hero.Base.{
  ℕ, ◌+◌, ◌*◌, Bool, true, false, not, ◌&&◌, ◌||◌, Option, none, some, List, [], ◌∷◌, leb, ltb,
  ◌==◌, if◌then◌else◌,
}
use mouse_hero.Base.Int.{ℤ, pos, pos_part, neg_part, ◌+ℤ◌, abs_ℕ, is_zero}

-- struct timespec, from CLOCK_MONOTONIC
pub record Timespec : Type 0 where
  pub tv_sec : ℕ
  pub tv_nsec : ℕ

abbrev pub nanos : Timespec → ℕ
nanos t = t.tv_sec * 1000000000 + t.tv_nsec

-- YAMouseThrottleState
pub record Throttle : Type 0 where
  pub last_emit : Timespec
  pub has_last_emit : Bool
  pub accum_dx : ℤ
  pub accum_dy : ℤ

unfoldable pub initial : Throttle
initial = record {
  last_emit = record { tv_sec = 0; tv_nsec = 0 };
  has_last_emit = false;
  accum_dx = pos 0;
  accum_dy = pos 0;
}

-- THROTTLE_INTERVAL_LOW_SPEED_MS and THROTTLE_INTERVAL_HIGH_SPEED_MS, in nanoseconds
abbrev pub interval_low_speed : ℕ
interval_low_speed = 4000000

abbrev pub interval_high_speed : ℕ
interval_high_speed = 8000000

abbrev pub low_speed_threshold : ℕ
low_speed_threshold = 3

abbrev pub int_max : ℕ
int_max = 0x7FFFFFFF

abbrev pub fits_int : ℤ → Bool
fits_int a = leb (pos_part a) int_max && leb (neg_part a) (int_max + 1)

-- |accum_dx| + |accum_dy|, of any size
abbrev pub distance : Throttle → ℕ
distance s = abs_ℕ s.accum_dx + abs_ℕ s.accum_dy

-- A negation or the sum overflows exactly where the distance is above INT_MAX.
abbrev pub accumulated_distance : Throttle → Option ℕ
accumulated_distance s = if leb (distance s) int_max then some (distance s) else none

abbrev pub threshold : ℕ → ℕ
threshold d = if ltb d low_speed_threshold then interval_low_speed else interval_high_speed

unfoldable pub reset : Throttle → Throttle
reset s = record s { accum_dx = pos 0; accum_dy = pos 0; has_last_emit = false }

abbrev pub stamp : Throttle → Timespec → Throttle
stamp s now = record s { last_emit = now; has_last_emit = true }

abbrev pub is_still : Throttle → Bool
is_still s = is_zero s.accum_dx && is_zero s.accum_dy

-- What `*out_dx` and `*out_dy` are set to, and the emptied state.
abbrev pub emit : Throttle → Timespec → Throttle × Option (ℤ × ℤ)
emit s now =
    (stamp (record s { accum_dx = pos 0; accum_dy = pos 0 }) now, some (s.accum_dx, s.accum_dy))

abbrev pub has_elapsed : Throttle → Timespec → Option ℕ → Option Bool
has_elapsed s now none = none
has_elapsed s now (some d) = some (leb (nanos s.last_emit + threshold d) (nanos now))

-- The distance is only computed where neither of the tests in front of it decides.
abbrev pub is_due : Throttle → Bool → Timespec → Option Bool
is_due s force now =
    if force || not s.has_last_emit then some true else has_elapsed s now (accumulated_distance s)

abbrev pub accumulate : Throttle → ℤ → ℤ → Option Throttle
accumulate s dx dy =
    if fits_int (s.accum_dx +ℤ dx) && fits_int (s.accum_dy +ℤ dy)
    then some (record s { accum_dx = s.accum_dx +ℤ dx; accum_dy = s.accum_dy +ℤ dy })
    else none

-- A state with the motion that is handed on, if any; `none` is undefined behaviour.
abbrev pub Result : Type 0
Result = Option (Throttle × Option (ℤ × ℤ))

abbrev pub when_due : Throttle → Timespec → Option Bool → Result
when_due t now none = none
when_due t now (some false) = some (t, none)
when_due t now (some true) = some (if is_still t then (stamp t now, none) else emit t now)

abbrev pub after_sum : Bool → Timespec → Option Throttle → Result
after_sum force now none = none
after_sum force now (some t) = when_due t now (is_due t force now)

-- `outs` says that both out pointers are given. `none` inside is the result false.
unfoldable pub collect : Throttle → ℤ → ℤ → Bool → Bool → Timespec → Result
collect s dx dy force outs now =
    if not outs then some (s, none) else after_sum force now (accumulate s dx dy)

unfoldable pub flush : Throttle → Bool → Timespec → Throttle × Option (ℤ × ℤ)
flush s outs now = if not outs then (s, none) else if is_still s then (s, none) else emit s now

-- The calls that the handlers make, with good out pointers.
pub data Call : Type 0 where
  collects : ℤ → ℤ → Bool → Timespec → Call
  flushes : Timespec → Call

unfoldable pub step : Throttle → Call → Result
step s (collects dx dy force now) = collect s dx dy force true now
step s (flushes now) = some (flush s true now)

abbrev pub emitted : Option (ℤ × ℤ) → List (ℤ × ℤ) → List (ℤ × ℤ)
emitted none out = out
emitted (some d) out = d ∷ out

-- The calls one after the other, with what they have handed on.
abbrev pub put_first :
    Option (ℤ × ℤ) → Option (Throttle × List (ℤ × ℤ)) → Option (Throttle × List (ℤ × ℤ))
put_first d none = none
put_first d (some (t, out)) = some (t, emitted d out)

abbrev pub then_run :
    (Throttle → Option (Throttle × List (ℤ × ℤ))) → Result → Option (Throttle × List (ℤ × ℤ))
then_run next none = none
then_run next (some (t, d)) = put_first d (next t)

unfoldable pub run : List Call → Throttle → Option (Throttle × List (ℤ × ℤ))
run [] s = some (s, [])
run (c ∷ cs) s = then_run (run cs) (step s c)
