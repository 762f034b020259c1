-- ===== src/Gpio/Tests.antt =====
-- Pins after reset, and the theorems there.

use cdj2000_emulator.Gpio.{Gpio}

-- Pins that drive the odd bits of every pair and listen on the even ones.
abbrev half_driven : Gpio
half_driven = record {
  dir = λ p. 0x55555555;
  output = λ p. 0xff00ff00;
  input = λ p. 0x0f0f0f0f;
  rising = λ p. 0;
  falling = λ p. 0;
  binten = 0;
}
