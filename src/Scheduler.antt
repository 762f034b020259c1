-- ===== src/Scheduler.antt =====
-- emulator/qemu/cdj_dsp_scheduler.h and .c: the deferred scheduler that hands the DSP slices of a
-- bounded activation. A function that updates `*scheduler` returns the new record beside its
-- result; a pointer argument is the record itself, so the NULL check has no counterpart.
pub mod Validity
pub mod Progress
mod Tests
use cdj2000_emulator.Prelude.{
  ℕ, ◌+◌, ◌-◌, ◌%◌, ◌^◌, ◌==◌, ◌!=◌, ltb, if◌then◌else◌, Bool, true, false, not, ◌&&◌, ◌||◌,
}

-- `CdjDspScheduler`; the last four fields are `uint8_t`.
pub record Scheduler : Type 0 where
  pub activation_id : ℕ
  pub slice_id : ℕ
  pub remaining : ℕ
  pub slice_steps : ℕ
  pub pending : ℕ
  pub rearm : ℕ
  pub mode : ℕ
  pub reserved : ℕ

abbrev pub mode_legacy : ℕ
mode_legacy = 0

abbrev pub mode_deferred_v1 : ℕ
mode_deferred_v1 = 1

abbrev pub activation_steps : ℕ
activation_steps = 1000000

abbrev pub max_slice_steps : ℕ
max_slice_steps = 4096

abbrev pub u64_max : ℕ
u64_max = 2 ^ 64 - 1

-- `scheduler_idle`
pub idle : Scheduler → Bool
idle s =
    s.activation_id == 0
    && s.slice_id == 0
    && s.remaining == 0
    && s.slice_steps == 0
    && s.pending == 0
    && s.rearm == 0

pub reset : Scheduler
reset = record {
  activation_id = 0;
  slice_id = 0;
  remaining = 0;
  slice_steps = max_slice_steps;
  pending = 0;
  rearm = 0;
  mode = mode_deferred_v1;
  reserved = 0;
}

-- `!!n`
abbrev pub flag : ℕ → ℕ
flag n = if n == 0 then 0 else 1

pub valid : Scheduler → Bool
unfolding idle
valid s =
    if s.reserved != 0 || ltb 1 s.pending || ltb 1 s.rearm
    then false
    else if s.mode == mode_legacy
    then idle s
    else if s.mode != mode_deferred_v1
        || s.slice_steps != max_slice_steps
        || ltb activation_steps s.remaining
        || s.pending != flag s.remaining
        || (s.rearm != 0 && s.pending == 0)
    then false
    else if s.activation_id == 0
    then s.slice_id == 0 && s.remaining == 0 && s.pending == 0 && s.rearm == 0
    else if s.slice_id == 0 && s.remaining != activation_steps
    then false
    else not (s.remaining != 0 && (activation_steps - s.remaining) % s.slice_steps != 0)

pub request : Scheduler → Bool × Scheduler
request s =
    if not (valid s) || s.mode != mode_deferred_v1
    then (false, s)
    else if s.pending != 0
    then (true, record s { rearm = 1 })
    else if s.activation_id == u64_max
    then (false, s)
    else (
      true,
      record s { activation_id = s.activation_id + 1; remaining = activation_steps; pending = 1 },
    )

-- `remaining < slice_steps ? remaining : slice_steps`
pub quota : Scheduler → ℕ
quota s = if ltb s.remaining s.slice_steps then s.remaining else s.slice_steps

-- `cdj_dsp_scheduler_begin`: the steps that the slice may execute, 0 for a refusal.
pub begin : Scheduler → ℕ × Scheduler
begin s =
    if not (valid s) || s.mode != mode_deferred_v1 || s.pending == 0 || s.slice_id == u64_max
    then (0, s)
    else (quota s, record s { slice_id = s.slice_id + 1 })

-- The fields after a slice that ran its quota; `false` where the activation counter is spent.
pub consume : Scheduler → ℕ → Bool × Scheduler
consume s executed =
    let left = (s.remaining + 2 ^ 32 - executed) % 2 ^ 32 in
    if left != 0
    then (true, record s { remaining = left })
    else if s.rearm != 0
    then (
      s.activation_id != u64_max,
      record s {
        activation_id = (s.activation_id + 1) % 2 ^ 64;
        remaining = activation_steps;
        rearm = 0;
      },
    )
    else (true, record s { remaining = left; pending = 0 })

-- `cdj_dsp_scheduler_end`: `next` replaces the state only if every check passes.
pub end : Scheduler → ℕ → Bool → Bool → Bool × Scheduler
unfolding consume
end s executed hint fault =
    if not (valid s) || s.mode != mode_deferred_v1 || s.pending == 0
    then (false, s)
    else if ltb (quota s) executed || (not hint && not fault && executed != quota s)
    then (false, s)
    else let (counted, next) =
        if hint || fault
        then (true, record s { remaining = 0; pending = 0; rearm = 0 })
        else consume s executed in
      if counted && valid next then (true, next) else (false, s)
