-- ===== src/Gpio.antt =====
-- emulator/qemu/cdj_c6747_gpio.h and .c: eight 16-bit banks of pins, kept in four pairs.
pub mod Pins
mod Tests
use Prim.Native.Nat.{bit_and, bit_or}
use cdj2000_emulator.Prelude.{
  ℕ, ◌+◌, ◌-◌, ◌*◌, ◌/◌, ◌%◌, ◌^◌, ◌==◌, ◌!=◌, ltb, leb, if◌then◌else◌, Bool, true, false, not,
  ◌&&◌, ◌||◌, Option, none, some,
}
use cdj2000_emulator.Prelude.Arrays.{Array, update}
use cdj2000_emulator.Prelude.Word.{has, not32, u32_max}

-- `CdjC6747Gpio`
pub record Gpio : Type 0 where
  pub dir : Array ℕ
  pub output : Array ℕ
  pub input : Array ℕ
  pub rising : Array ℕ
  pub falling : Array ℕ
  pub binten : ℕ

abbrev pub binten_address : ℕ
binten_address = 0x01e26008

abbrev pub pair0 : ℕ
pair0 = 0x01e26010

-- `locate`: the pair and the offset in it.
pub locate : ℕ → Option (ℕ × ℕ)
locate address =
    if ltb address pair0 || leb 0x01e260b0 address || has address 3
    then none
    else some ((address - pair0) / 0x28, (address - pair0) % 0x28)

pub reset : Gpio
reset = record {
  dir = λ p. u32_max;
  output = λ p. 0;
  input = λ p. 0;
  rising = λ p. 0;
  falling = λ p. 0;
  binten = 0;
}

pub set_input : Gpio → ℕ → ℕ → Bool → Bool × Gpio
set_input s bank pin high =
    if leb 8 bank || leb 16 pin
    then (false, s)
    else let p = bank / 2 in
      let mask = 2 ^ (pin + bit_and bank 1 * 16) in
      (
        true,
        record s {
          input =
              update s.input p
                (if high then bit_or (s.input p) mask else bit_and (s.input p) (not32 mask));
        },
      )

-- The levels of a pair's pins: driven ones from the latch, the others from outside.
abbrev pub levels : Gpio → ℕ → ℕ
levels s p = bit_or (bit_and (s.output p) (not32 (s.dir p))) (bit_and (s.input p) (s.dir p))

pub read_at : Gpio → ℕ → ℕ → Option ℕ
read_at s p o =
    if o == 0
    then some (s.dir p)
    else if o == 4 || o == 8 || o == 12
    then some (s.output p)
    else if o == 16
    then some (levels s p)
    else if o == 20 || o == 24
    then some (s.rising p)
    else if o == 28 || o == 32
    then some (s.falling p)
    else none

pub read : Gpio → ℕ → Option ℕ
unfolding read_at
read s address =
    if address == binten_address
    then some s.binten
    else elim (locate address) [ none ↦ none | some (p, o) ↦ read_at s p o ]

-- The switch of a committed write.
pub store_at : Gpio → ℕ → ℕ → ℕ → Gpio
store_at s p o value =
    if o == 0
    then record s { dir = update s.dir p value }
    else if o == 4
    then record s { output = update s.output p value }
    else if o == 8
    then record s { output = update s.output p (bit_or (s.output p) value) }
    else if o == 12
    then record s { output = update s.output p (bit_and (s.output p) (not32 value)) }
    else if o == 20
    then record s { rising = update s.rising p (bit_or (s.rising p) value) }
    else if o == 24
    then record s { rising = update s.rising p (bit_and (s.rising p) (not32 value)) }
    else if o == 28
    then record s { falling = update s.falling p (bit_or (s.falling p) value) }
    else if o == 32
    then record s { falling = update s.falling p (bit_and (s.falling p) (not32 value)) }
    else s

unfoldable pub write : Gpio → ℕ → ℕ → ℕ → Bool → Bool × Gpio
write s address value size commit =
    if size != 4 || ltb u32_max value
    then (false, s)
    else if address == binten_address
    then (if has value (not32 255)
        then (false, s)
        else if commit
        then (true, record s { binten = value })
        else (true, s))
    else elim (locate address) [
      | none ↦ (false, s)
      | some (p, o) ↦
          if o == 16 || o == 36
          then (false, s)
          else if not commit
          then (true, s)
          else (true, store_at s p o value)
    ]
