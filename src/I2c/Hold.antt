-- ===== src/I2c/Hold.antt =====
-- A controller out of reset is in its GPIO mode, and stays there until it is reset.

use cdj2000_emulator.Prelude.{ℕ, ◌!=◌, Bool, false, ◌&&◌, ◌≡◌, arith}
use cdj2000_emulator.Prelude.Word.{has}
use cdj2000_emulator.Bus.{TwoPhase}
use cdj2000_emulator.I2c.{I2c, write_mask, store_at, write}

-- The reset bit of I2CMDR is set only in the GPIO mode.
abbrev pub Held : I2c → ℕ → Type 0
Held s b = (has (s.mode b) 0x20 && s.function b != 1) ≡ false

-- Every write, accepted or not, keeps each controller that is out of reset in the GPIO mode.
write-Held :
    (s : I2c) (address value size : ℕ) (commit : Bool) (b : ℕ)
    → Held s b
    → Held (write s address value size commit).1 b
unfolding write write_mask store_at
write-Held s address value size commit b h = ground arith

-- A store follows the two-phase protocol.
pub write-TwoPhase : (s : I2c) (address value size : ℕ) → TwoPhase write s address value size
unfolding write
write-TwoPhase s address value size = ground arith
