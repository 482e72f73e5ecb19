-- ===== src/Tests/Motion.antt =====
-- The throttle and the filter on reports of motion (server/src/ya_mouse_throttle.c and
-- ya_mouse_filter.c).
use mouse_hero.Base.{ℕ, ◌≡◌, inr, refl, ◌*◌, arith, true, false, none, some, List, [], ◌∷◌}
use mouse_hero.Base.Int.{pos, negsuc, ◌+ℤ◌}
use mouse_hero.Filter.{Filter, create}
use mouse_hero.Throttle.{
  Throttle, Timespec, initial, Call, collects, flushes, run, flush, collect, step,
}
use mouse_hero.Throttle.Motion.{RunBalances, run-balance}
use mouse_hero.Throttle.Pacing.{
  Report, report, times, taken, ArePaced, report_paced, report_waits, report_due,
}
use mouse_hero.Tests.Instances.{test_floats}

abbrev at_ms : ℕ → Timespec
at_ms n = record { tv_sec = 1; tv_nsec = n * 1000000 }

abbrev calls : List Call
calls =
    collects (pos 5) (negsuc 1) false (at_ms 0)
    ∷ collects (pos 2) (pos 0) false (at_ms 1)
    ∷ flushes (at_ms 2)
    ∷ []

run-calls :
    run calls initial
    ≡ some (
      record { last_emit = at_ms 2; has_last_emit = true; accum_dx = pos 0; accum_dy = pos 0 },
      (pos 5, negsuc 1) ∷ (pos 2, pos 0) ∷ [],
    )
unfolding run step initial collect ◌+ℤ◌ flush
run-calls = refl

run-balance_example : RunBalances initial calls (run calls initial)
run-balance_example = run-balance calls initial

-- Five pixels are waiting, and the last emission was at 1 s.
abbrev waiting : Throttle
waiting = record { last_emit = at_ms 0; has_last_emit = true; accum_dx = pos 5; accum_dy = pos 0 }

abbrev early : Report
early = record { dx = pos 1; dy = pos 0; now = at_ms 5 }

abbrev late : Report
late = record { dx = pos 1; dy = pos 0; now = at_ms 8 }

report_paced_example : ArePaced waiting (early ∷ late ∷ []) (times (early ∷ late ∷ []) waiting)
report_paced_example = report_paced (early ∷ late ∷ []) waiting

report_waits_example : report waiting early ≡ some (taken waiting early, none)
report_waits_example =
    report_waits waiting early refl (unfold ◌+ℤ◌ in omega arith) (unfold ◌+ℤ◌ in omega arith)
      (omega arith)

report_due_example :
    (t : Throttle) × (report waiting late ≡ some (t, some (pos 5 +ℤ pos 1, pos 0 +ℤ pos 0)))
report_due_example =
    report_due waiting late (inr (omega arith)) (unfold ◌+ℤ◌ in omega arith) (unfold ◌+ℤ◌ in refl)

abbrev fresh : Filter ℕ
fresh = create test_floats
