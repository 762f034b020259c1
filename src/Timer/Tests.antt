-- ===== src/Timer/Tests.antt =====
-- A 64-bit timer near its period, and the theorems there.
use cdj2000_emulator.Prelude.{◌≡◌, refl, false}
use cdj2000_emulator.Timer.{Timer}
use cdj2000_emulator.Timer.Period.{ticks}
use cdj2000_emulator.Timer.Latch
use cdj2000_emulator.Timer.Latch.{read_atomic}
use cdj2000_emulator.Timer.Registers.{read_tim12, read_tim34}

-- Continuous counting up to 2 ^ 32 + 1, seven ticks before.
abbrev continuous : Timer
continuous = record {
  emumgt = 0;
  gpintgpen = 0;
  gpdatgpdir = 0;
  tim12 = 0xfffffffa;
  tim34 = 0;
  tim34_shadow = 0;
  prd12 = 1;
  prd34 = 1;
  tcr = 0x80;
  tgcr = 3;
  wdtcr = 0;
  rel12 = 0;
  rel34 = 0;
  cap12 = 0;
  cap34 = 0;
  intctlstat = 1;
  compare_at = λ n. 0;
  tim34_shadow_valid = false;
}

read_atomic_example :
    let (low, s') = read_tim12 continuous in
    let (high, s'') = read_tim34 (Latch.ticks 9 s') in
    (low ≡ continuous.tim12) × (high ≡ continuous.tim34) × (s''.tim34_shadow_valid ≡ false)
read_atomic_example = read_atomic 9 continuous refl
