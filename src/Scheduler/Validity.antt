-- ===== src/Scheduler/Validity.antt =====
-- What `cdj_dsp_scheduler_valid` means for the operations, which all keep it.
use cdj2000_emulator.Prelude.{ℕ, ◌-◌, ◌%◌, ◌≤◌, ◌≡◌, refl, Bool, true, ◌≢◌, arith}
use cdj2000_emulator.Scheduler.{
  Scheduler, mode_deferred_v1, activation_steps, max_slice_steps, valid, request, begin, end, reset,
}

-- What `valid` says of a scheduler in the deferred mode that has work left.
pub record IsRunning (s : Scheduler) : Type 0 where
  pub mode_is : s.mode ≡ mode_deferred_v1
  pub steps_is : s.slice_steps ≡ max_slice_steps
  pub pending_is : s.pending ≡ 1
  pub left : s.remaining ≢ 0
  pub within : s.remaining ≤ activation_steps
  pub aligned : (activation_steps - s.remaining) % max_slice_steps ≡ 0
  pub rearm_flag : s.rearm ≤ 1
  pub unreserved : s.reserved ≡ 0
  pub activated : s.activation_id ≢ 0
  pub sliced : s.slice_id ≡ 0 → s.remaining ≡ activation_steps

pub IsRunning-valid : (s : Scheduler) → IsRunning s → valid s ≡ true
unfolding valid
IsRunning-valid s r = ground arith

pub valid-IsRunning :
    (s : Scheduler) → valid s ≡ true → s.mode ≡ mode_deferred_v1 → s.pending ≢ 0 → IsRunning s
unfolding valid
valid-IsRunning s v m p = ground arith

pub reset-valid : valid reset ≡ true
unfolding valid reset
reset-valid = refl

pub request-valid : (s : Scheduler) → valid s ≡ true → valid (request s).1 ≡ true
unfolding request valid
request-valid s v = ground arith

pub begin-valid : (s : Scheduler) → valid s ≡ true → valid (begin s).1 ≡ true
unfolding begin valid
begin-valid s v = ground arith

pub end-valid :
    (s : Scheduler) (executed : ℕ) (hint fault : Bool)
    → valid s ≡ true
    → valid (end s executed hint fault).1 ≡ true
unfolding end
end-valid s executed hint fault v = ground arith

-- Every operation keeps a valid scheduler valid, whatever its arguments and whether or not it is
-- refused.
pub operations-valid :
    (s : Scheduler) (executed : ℕ) (hint fault : Bool)
    → valid s ≡ true
    → (valid (request s).1 ≡ true)
      × (valid (begin s).1 ≡ true)
      × (valid (end s executed hint fault).1 ≡ true)
operations-valid s executed hint fault v =
    (request-valid s v, begin-valid s v, end-valid s executed hint fault v)
