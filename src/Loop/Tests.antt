-- ===== src/Loop/Tests.antt =====
-- A two-stage loop loaded, run and drained, and the theorems at its states.
use cdj2000_emulator.Prelude.{
  ◌+◌, ◌*◌, ltb, if◌then◌else◌, true, false, ◌&&◌, none, some, [], ◌∷◌, ◌≡◌, refl, arith,
}
use mathlib.Core.Option
use cdj2000_emulator.Loop.{
  Loop, size, load, seal, issue_filtered, row, push, walk, live_iteration, tick, interrupt_drain,
}
use cdj2000_emulator.Loop.Walk.{due, buffered}
use cdj2000_emulator.Loop.Schedule.{IsFormed, load-IsFormed, issue_filtered_lem, drained_issue}
use cdj2000_emulator.Loop.Drain.{interrupt_drain-due}

-- The packets 7 and 9 at an interval of one cycle, for three iterations.
abbrev loading : Loop
loading = record {
  tags = λ i j. 7 + 2 * i;
  count = λ i. if ltb i 1 then 1 else 0;
  ii = 1;
  length = 1;
  iterations = 3;
  cycle = 1;
  post_cycle = 0;
  end_cycle = 0;
  sealed = false;
  predicate_loop = false;
  delayed_count = false;
}

abbrev full : Loop
full = record loading {
  count = λ i. if ltb i 2 then 1 else 0;
  length = 2;
  cycle = 2;
  sealed = true;
  post_cycle = 3;
  end_cycle = 4;
}

abbrev over : Loop
over = record full { cycle = 4 }

abbrev ending : Loop
ending = record full { cycle = 3 }

ending-IsFormed : IsFormed ending
ending-IsFormed = ground arith

loading-IsFormed : IsFormed loading
loading-IsFormed = ground arith

full-IsFormed : IsFormed full
full-IsFormed = ground arith

over-IsFormed : IsFormed over
over-IsFormed = ground arith

loads : Option.map (λ l. l.end_cycle) (load false loading (9 ∷ []) true 0) ≡ some 4
unfolding load seal
loads = refl

issues : Option.map (λ i. i.issued) (issue_filtered (λ t. true) full) ≡ some (7 ∷ 9 ∷ [])
unfolding issue_filtered walk row push
issues = refl

load-IsFormed_example : IsFormed (Option.get_or (load false loading (9 ∷ []) true 0) loading)
unfolding load seal
load-IsFormed_example = load-IsFormed false loading (9 ∷ []) true 0 loading-IsFormed refl

issue_filtered_lem_example :
    let tags = buffered (λ t. true) full 2 (live_iteration full) 2 0 in
    issue_filtered (λ t. true) full ≡ (
      if ltb 8 (size tags)
      then none
      else some (record { issued = tags; post_fetch = false; drained = false; loop = tick full }))
issue_filtered_lem_example = issue_filtered_lem (λ t. true) full full-IsFormed refl

drained_issue_example :
    issue_filtered (λ t. true) over
    ≡ some (record { issued = []; post_fetch = true; drained = true; loop = tick over })
drained_issue_example = drained_issue (λ t. true) over over-IsFormed refl (omega arith)

abbrev stopped : Loop
stopped = record full { iterations = 2; post_cycle = 3; end_cycle = 3 }

interrupt_drain-due_example :
    due (λ t. true) stopped 2 (live_iteration stopped) 0
    ≡ (due (λ t. true) full 2 (live_iteration full) 0 && ltb 2 2)
unfolding interrupt_drain
interrupt_drain-due_example =
    interrupt_drain-due (λ t. true) full 2 0 full-IsFormed (λ e. omega arith) refl
