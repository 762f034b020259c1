-- ===== src/Timer/Period.antt =====
-- When the 64-bit counter matches its period, in the continuous and in the one-time mode.
use Prim.Native.Nat.{bit_and, bit_or}
use cdj2000_emulator.Prelude.{
  ℕ, zero, suc, ◌+◌, ◌/◌, ◌%◌, ◌^◌, ◌≤◌, ◌<◌, ◌==◌, ◌!=◌, if◌then◌else◌, true, ◌&&◌, ◌≡◌, ◌⊎◌, Bool,
}
use cdj2000_emulator.Prelude.Word.{IsWord}
use cdj2000_emulator.Timer.{Timer, mode, enamode12, half_12, input_clock_known, pair, tick_timer}

abbrev pub counter : Timer → ℕ
counter s = pair s.tim34 s.tim12

abbrev pub period : Timer → ℕ
period s = pair s.prd34 s.prd12

-- A timer of the 64-bit mode that counts: out of reset, on a known clock, with a period, and a
-- counter that has not passed it.
pub record IsCounting (s : Timer) : Type 0 where
  pub mode_64 : mode s ≡ 0
  pub released : bit_and s.tgcr 3 ≡ 3
  pub clocked : input_clock_known s half_12 ≡ true
  pub enabled : (enamode12 s ≡ 1) ⊎ (enamode12 s ≡ 2)
  pub words : IsWord s.tim12 × IsWord s.tim34 × IsWord s.prd12 × IsWord s.prd34
  pub has_period : 0 < period s
  pub within : counter s ≤ period s

-- The counter one tick later.
abbrev following : Timer → ℕ
following s =
    if counter s == period s then (if enamode12 s == 1 then counter s else 0) else counter s + 1

-- Whether the next tick reaches the period.
abbrev reaching : Timer → Bool
reaching s = counter s != period s && counter s + 1 == period s

-- The timer after one tick: the counter goes on, and a period that is reached sets its status.
abbrev pub ticked : Timer → Timer
ticked s = record s {
  tim12 = following s % 2 ^ 32;
  tim34 = following s / 2 ^ 32 % 2 ^ 32;
  intctlstat = if reaching s then bit_or s.intctlstat 2 else s.intctlstat;
}

pub ticks : ℕ → Timer → Timer
ticks zero s = s
ticks (suc n) s = ticks n (tick_timer s).1
