-- ===== src/Scheduler/Progress.antt =====
-- A requested activation ends: how many slices it takes, and how many steps they execute.
use cdj2000_emulator.Prelude.{
  inl, inr, ◌||◌, min, ltb, ◌==◌, if◌then◌else◌, ℕ, zero, suc, ◌+◌, ◌-◌, ◌*◌, ◌≤◌, ◌<◌, ◌≡◌, refl,
  Bool, true, false, ◌⊎◌, ◌≢◌, arith,
}
use cdj2000_emulator.Scheduler.{
  Scheduler, mode_deferred_v1, activation_steps, max_slice_steps, u64_max, valid, request, begin,
  end, quota, consume,
}
use cdj2000_emulator.Scheduler.Validity.{IsRunning, IsRunning-valid, valid-IsRunning}

-- One slice as the connected caller runs it: begin, execute the whole quota, end.
pub slice : Scheduler → ℕ × Scheduler
slice s = let (steps, s') = begin s in (steps, (end s' steps false false).1)

pub run : ℕ → Scheduler → ℕ × Scheduler
run zero s = (0, s)
run (suc n) s = let (steps, s') = slice s in let (rest, s'') = run n s' in (steps + rest, s'')

quota-running : (s : Scheduler) → IsRunning s → quota s ≡ min s.remaining max_slice_steps
unfolding quota
quota-running s r = ground arith

begin-running :
    (s : Scheduler)
    → IsRunning s
    → s.slice_id < u64_max
    → begin s ≡ (min s.remaining max_slice_steps, record s { slice_id = s.slice_id + 1 })
unfolding begin
begin-running s r h = ground (arith, IsRunning-valid s r, quota-running s r)

-- The fields after a whole slice.
abbrev after : Scheduler → Scheduler
after s =
    if ltb max_slice_steps s.remaining
    then record s { remaining = s.remaining - max_slice_steps }
    else if s.rearm == 0
    then record s { remaining = 0; pending = 0 }
    else record s { activation_id = s.activation_id + 1; remaining = activation_steps; rearm = 0 }

after-valid : (s : Scheduler) → IsRunning s → s.slice_id ≢ 0 → valid (after s) ≡ true
unfolding valid
after-valid s r z = ground arith

consume-running :
    (s : Scheduler)
    → IsRunning s
    → s.activation_id < u64_max
    → consume s (min s.remaining max_slice_steps) ≡ (true, after s)
unfolding consume
consume-running s r a = ground arith

-- A slice that executes its whole quota is never refused while the activation counter has room.
pub end-running :
    (s : Scheduler)
    → IsRunning s
    → s.slice_id ≢ 0
    → s.activation_id < u64_max
    → end s (min s.remaining max_slice_steps) false false ≡ (true, after s)
unfolding end
end-running s r z a =
    ground (arith, IsRunning-valid s r, quota-running s r, consume-running s r a, after-valid s r z)

bumped-IsRunning :
    (s : Scheduler) → IsRunning s → IsRunning (record s { slice_id = s.slice_id + 1 })
bumped-IsRunning s r = ground arith

slice-running :
    (s : Scheduler)
    → IsRunning s
    → s.slice_id < u64_max
    → s.activation_id < u64_max
    → slice s ≡ (min s.remaining max_slice_steps, after (record s { slice_id = s.slice_id + 1 }))
unfolding slice
slice-running s r h a = rw (
  begin-running s r h,
  end-running (record s { slice_id = s.slice_id + 1 }) (bumped-IsRunning s r) (omega arith) a,
)

-- The slices that the work left takes, times the steps of a slice: the first slices of an
-- activation are whole, and the last one of its 245 has 576 steps.
abbrev budget : Scheduler → ℕ
budget s = s.remaining + 3520 + s.rearm * 1003520

abbrev Drains : Scheduler → ℕ × Scheduler → Type 0
Drains s (total, s') =
    (total ≡ s.remaining + s.rearm * activation_steps)
    × (s'.remaining ≡ 0)
    × (s'.pending ≡ 0)
    × (s'.rearm ≡ 0)
    × (s'.activation_id ≡ s.activation_id + s.rearm)

slice-stopped : (s : Scheduler) → s.pending ≡ 0 → slice s ≡ (0, s)
unfolding slice begin end
slice-stopped s p = ground arith

run-stopped : (n : ℕ) (s : Scheduler) → s.pending ≡ 0 → run n s ≡ (0, s)
unfolding run
run-stopped zero s p = refl
run-stopped (suc n) s p = rw (slice-stopped s p, run-stopped n s p)

-- The state after a slice that leaves work: more of this activation, or the next one.
module _ (s : Scheduler) (r : IsRunning s) where
  abbrev next : Scheduler
  next = after (record s { slice_id = s.slice_id + 1 })

  next-IsRunning : (max_slice_steps < s.remaining) ⊎ (s.rearm ≢ 0) → IsRunning next
  next-IsRunning h = ground arith

  next-budget :
      (max_slice_steps < s.remaining) ⊎ (s.rearm ≢ 0)
      → (budget next + max_slice_steps ≡ budget s)
        × (next.activation_id + next.rearm ≡ s.activation_id + s.rearm)
        × (min s.remaining max_slice_steps + next.remaining + next.rearm * activation_steps
            ≡ s.remaining + s.rearm * activation_steps)
        × (next.slice_id ≡ s.slice_id + 1)
  next-budget h = ground arith

  next_stops :
      s.remaining ≤ max_slice_steps
      → s.rearm ≡ 0
      → (next.pending ≡ 0)
        × (next.remaining ≡ 0)
        × (next.rearm ≡ 0)
        × (next.activation_id ≡ s.activation_id)
  next_stops h z = ground arith

  goes_on :
      ((max_slice_steps < s.remaining) ⊎ (s.rearm ≢ 0))
      ⊎ ((s.remaining ≤ max_slice_steps) × (s.rearm ≡ 0))
  goes_on = ground arith

drains :
    (n : ℕ) (s : Scheduler)
    → IsRunning s
    → s.slice_id + n ≤ u64_max
    → s.activation_id + s.rearm < u64_max
    → budget s ≤ n * max_slice_steps
    → Drains s (run n s)
unfolding run
drains zero s r i a b = absurd (omega arith)
drains (suc n) s r i a b = rw (slice-running s r (omega arith) (omega arith)) (elim (goes_on s r) [
  | inl more ↦
      let counts = next-budget s r more in
      let rest =
        drains n (next s r) (next-IsRunning s r more) (omega arith) (omega arith) (omega arith) in
      omega arith
  | inr (h, z) ↦
      let stops = next_stops s r h z in rw (run-stopped n (next s r) stops.0) (omega arith)
])

-- From any valid state of the deferred mode with work left, slices that execute their quota end the
-- activation: after enough of them for the work left (a pending re-arm costs 245 more) nothing is
-- pending, exactly the remaining steps have been executed, those of the re-armed activation
-- included, and the activation counter has moved by that activation alone. The slice and
-- activation counters must have room.
pub run-Drains :
    (n : ℕ) (s : Scheduler)
    → valid s ≡ true
    → s.mode ≡ mode_deferred_v1
    → s.pending ≢ 0
    → s.slice_id + n ≤ u64_max
    → s.activation_id + s.rearm < u64_max
    → budget s ≤ n * max_slice_steps
    → Drains s (run n s)
run-Drains n s v m p = drains n s (valid-IsRunning s v m p)

request-idle :
    (s : Scheduler)
    → valid s ≡ true
    → s.mode ≡ mode_deferred_v1
    → s.pending ≡ 0
    → s.activation_id + 1 < u64_max
    → ((request s).0 ≡ true)
      × IsRunning (request s).1
      × ((request s).1.remaining ≡ activation_steps)
      × ((request s).1.rearm ≡ 0)
      × ((request s).1.slice_id ≡ s.slice_id)
      × ((request s).1.activation_id ≡ s.activation_id + 1)
unfolding request valid
request-idle s v m p a = ground arith

-- A request to an idle valid scheduler of the deferred mode whose counters have room is accepted,
-- and the next 245 slices execute exactly one million steps, after which nothing is pending.
request_runs :
    (s : Scheduler)
    → valid s ≡ true
    → s.mode ≡ mode_deferred_v1
    → s.pending ≡ 0
    → s.slice_id + 245 ≤ u64_max
    → s.activation_id + 1 < u64_max
    → let (accepted, s') = request s in
      let (total, s'') = run 245 s' in
      (accepted ≡ true)
      × (total ≡ activation_steps)
      × (s''.pending ≡ 0)
      × (s''.activation_id ≡ s.activation_id + 1)
request_runs s v m p i a =
    let (accepted, r, all, once, slices, count) = request-idle s v m p a in
    let ran = drains 245 (request s).1 r (omega arith) (omega arith) (omega arith) in
    (accepted, omega arith, omega arith, omega arith)

-- While an activation of a valid scheduler of the deferred mode is pending, a request is accepted and
-- sets the re-arm flag alone, and a second one is accepted and changes nothing.
request_coalesces :
    (s : Scheduler)
    → valid s ≡ true
    → s.mode ≡ mode_deferred_v1
    → s.pending ≢ 0
    → let (accepted, s') = request s in
      (accepted ≡ true) × (s' ≡ record s { rearm = 1 }) × (request s' ≡ (true, s'))
unfolding request valid
request_coalesces s v m p = ground arith

-- Of a valid scheduler of the deferred mode with a slice under way, a hint or a fault ends the
-- activation at once and drops its re-arm, but for a slice that claims more than its quota, which is
-- refused and changes nothing.
pub end_stops :
    (s : Scheduler) (executed : ℕ) (hint fault : Bool)
    → valid s ≡ true
    → s.mode ≡ mode_deferred_v1
    → s.pending ≢ 0
    → s.slice_id ≢ 0
    → (hint || fault) ≡ true
    → end s executed hint fault ≡ (
        if ltb (quota s) executed
        then (false, s)
        else (true, record s { remaining = 0; pending = 0; rearm = 0 }))
unfolding end valid
end_stops s executed hint fault v m p z h = ground arith
