-- ===== src/Scheduler/Tests.antt =====
-- Runs of the scheduler, and its theorems at concrete states.
use cdj2000_emulator.Prelude.{◌≡◌, refl, true, false, arith}
use cdj2000_emulator.Scheduler.{Scheduler, valid, reset, request, begin, end, quota}
use cdj2000_emulator.Scheduler.Validity.{operations-valid}
use cdj2000_emulator.Scheduler.Progress.{run, run-Drains}

-- An activation that has executed one slice and has a request waiting.
abbrev midway : Scheduler
midway = record reset' {
  activation_id = 7;
  slice_id = 1;
  remaining = 995904;
  pending = 1;
  rearm = 1;
}
  where
    reset' : Scheduler
    reset' = record {
      activation_id = 0;
      slice_id = 0;
      remaining = 0;
      slice_steps = 4096;
      pending = 0;
      rearm = 0;
      mode = 1;
      reserved = 0;
    }

midway-valid : valid midway ≡ true
unfolding valid
midway-valid = refl

reset-valid : valid reset ≡ true
unfolding valid reset
reset-valid = refl

first_slice : (begin (request reset).1).0 ≡ 4096
unfolding begin request reset valid quota
first_slice = refl

run-Drains_example :
    let (total, s') = run 490 midway in
    (total ≡ 1995904)
    × (s'.remaining ≡ 0)
    × (s'.pending ≡ 0)
    × (s'.rearm ≡ 0)
    × (s'.activation_id ≡ 8)
run-Drains_example =
    run-Drains 490 midway midway-valid refl (omega arith) (omega arith) (omega arith) (omega arith)

operations-valid_example :
    (valid (request midway).1 ≡ true)
    × (valid (begin midway).1 ≡ true)
    × (valid (end midway 4096 false false).1 ≡ true)
operations-valid_example = operations-valid midway 4096 false false midway-valid
