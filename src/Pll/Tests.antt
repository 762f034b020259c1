-- ===== src/Pll/Tests.antt =====
-- The PLL after reset and in use, and the theorems there.
use cdj2000_emulator.Prelude.{
  ◌+◌, ◌==◌, ltb, leb, ◌&&◌, if◌then◌else◌, false, ◌*◌, ◌≤◌, ◌≡◌, refl, true, arith,
}
use cdj2000_emulator.Pll.{Pll, ratio, reset, lock_wait, tick}
use cdj2000_emulator.Pll.Wait.{lock_wait_lem}
use cdj2000_emulator.Pll.Phase.{IsDriving, divisor, ticks, time, phase_exact}
use cdj2000_emulator.Pll.Registers.{write}
use cdj2000_emulator.Pll.Registers.Lock.{IsSafe, reset-IsSafe, operations-IsSafe}

-- A driving PLL, with a multiplier of 23 and no division.
abbrev driving : Pll
driving = record {
  config = λ i. if i == 0 then 0x1d9 else if i == 2 then 22 else 0x8000;
  legacy_bit4_used = false;
  active_dividers = λ d. 0x8000;
  target_dividers = λ d. 0x8000;
  command = 0;
  go_remaining = 0;
  oscin_cycles = 100;
  reset_age = 17;
  lock_wait_remaining = 0;
  oscin_phase = 0;
  early_enable = false;
}

driving-IsDriving : IsDriving driving
driving-IsDriving = record {
  enabled = refl;
  field = omega arith;
  steady = refl;
  phase = omega arith;
}

phase_exact_example :
    (time (ticks 23 driving) ≡ time driving + 23 * divisor driving) × IsDriving (ticks 23 driving)
phase_exact_example = phase_exact 23 driving driving-IsDriving (omega arith)

lock_wait_lem_example :
    (4000000 * ratio (driving.config 3) * ratio (driving.config 3)
      ≤ lock_wait driving * lock_wait driving * (driving.config 2 + 1))
    × ((ltb 1 (lock_wait driving)
          && leb
              (4000000 * ratio (driving.config 3) * ratio (driving.config 3))
              (1 * 1 * (driving.config 2 + 1)))
        ≡ false)
lock_wait_lem_example = lock_wait_lem driving 1 (omega arith)

operations-IsSafe_example : IsSafe (write reset 0x01c11100 0xf2 4 true).1 × IsSafe (tick reset)
operations-IsSafe_example = operations-IsSafe reset 0x01c11100 0xf2 4 true reset-IsSafe
