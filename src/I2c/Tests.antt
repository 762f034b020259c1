-- ===== src/I2c/Tests.antt =====
-- The controllers after reset, and the theorem there.
use cdj2000_emulator.Prelude.{refl}
use cdj2000_emulator.I2c.{reset}
use cdj2000_emulator.I2c.Hold.{Held}

reset-Held : Held reset 1
unfolding reset
reset-Held = refl
