-- ===== src/Gpio/Pins.antt =====
-- What a pin reads as, whatever is driven and set.
use Prim.Native.Nat.{bit_and}
use cdj2000_emulator.Prelude.{
  ℕ, ◌+◌, ◌-◌, ◌*◌, ◌/◌, ◌%◌, ◌^◌, ◌<◌, ◌==◌, if◌then◌else◌, Bool, true, not, ◌&&◌, ◌||◌, some, ◌≡◌,
  arith,
}
use mathlib.Core.Option
use cdj2000_emulator.Prelude.Bits.{bit, bit-and, bit-or, bit-pow, bit_and-mask}
use cdj2000_emulator.Prelude.Word.{not32, IsWord, bit-not32, pow-IsWord}
use cdj2000_emulator.Bus.{TwoPhase}
use cdj2000_emulator.Gpio.{Gpio, pair0, locate, set_input, read, store_at, write}

aligned : (n : ℕ) → bit_and n 3 ≡ n % 4
aligned n = bit_and-mask 2 n

-- The address of a register of a pair.
abbrev pub register : ℕ → ℕ → ℕ
register p o = pair0 + 0x28 * p + o

locate-register : (p o : ℕ) → p < 4 → o < 0x28 → o % 4 ≡ 0 → locate (register p o) ≡ some (p, o)
unfolding locate
locate-register p o h k z = ground (arith, aligned (register p o), quotient, remainder)
  where
    quotient : (register p o - pair0) / 0x28 ≡ p
    quotient = omega arith

    remainder : (register p o - pair0) % 0x28 ≡ o
    remainder = omega arith

-- A pair's IN_DATA register reads, at each pin, the output latch where DIR is clear and the level
-- from outside where it is set.
read_levels :
    (s : Gpio) (p i : ℕ)
    → p < 4
    → i < 32
    → IsWord (s.dir p)
    → Option.map (λ n. bit n i) (read s (register p 16))
      ≡ some (if bit (s.dir p) i then bit (s.input p) i else bit (s.output p) i)
unfolding read
read_levels s p i h k w = ground (
  arith,
  locate-register p 16 h,
  bit-or i (bit_and (s.output p) (not32 (s.dir p))) (bit_and (s.input p) (s.dir p)),
  bit-and i (s.output p) (not32 (s.dir p)),
  bit-and i (s.input p) (s.dir p),
  bit-not32 i (s.dir p) w k,
)

-- Writes to SET_DATA and CLR_DATA touch the pins of their word alone: the latch read back through
-- OUT_DATA has those bits set, respectively clear, and the others as they were.
set_clear :
    (s : Gpio) (p value i : ℕ)
    → p < 4
    → i < 32
    → IsWord value
    → let (ok, set) = write s (register p 8) value 4 true in
      let (ok', cleared) = write s (register p 12) value 4 true in
      (ok ≡ true)
      × (ok' ≡ true)
      × (Option.map (λ n. bit n i) (read set (register p 4))
          ≡ some (bit (s.output p) i || bit value i))
      × (Option.map (λ n. bit n i) (read cleared (register p 4))
          ≡ some (bit (s.output p) i && not (bit value i)))
unfolding read write store_at
set_clear s p value i h k w = ground (
  arith,
  locate-register p 4 h,
  locate-register p 8 h,
  locate-register p 12 h,
  bit-or i (s.output p) value,
  bit-and i (s.output p) (not32 value),
  bit-not32 i value w k,
)

-- The board's level of a pin of a bank reaches exactly that pin's bit of its pair: the pin's new
-- level, and every other input bit as it was.
set_input_lem :
    (s : Gpio) (bank pin : ℕ) (high : Bool) (p i : ℕ)
    → bank < 8
    → pin < 16
    → i < 32
    → let (ok, s') = set_input s bank pin high in
      (ok ≡ true)
      × (bit (s'.input p) i ≡ (if p * 32 + i == bank * 16 + pin then high else bit (s.input p) i))
unfolding set_input
set_input_lem s bank pin high p i h k w = ground (
  arith,
  odd_bank,
  bit-or i (s.input (bank / 2)) (2 ^ place),
  bit-and i (s.input (bank / 2)) (not32 (2 ^ place)),
  bit-not32 i (2 ^ place) (pow-IsWord place (omega (arith, odd_bank))) w,
  bit-pow place i,
)
  where
    odd_bank : bit_and bank 1 ≡ bank % 2
    odd_bank = bit_and-mask 1 bank

    place : ℕ
    place = pin + bit_and bank 1 * 16

pub write-TwoPhase : (s : Gpio) (address value size : ℕ) → TwoPhase write s address value size
unfolding write
write-TwoPhase s address value size = ground arith
