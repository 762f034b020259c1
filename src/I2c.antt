-- ===== src/I2c.antt =====
-- emulator/qemu/cdj_c6747_i2c.h and .c: two I2C controllers in their GPIO mode.
pub mod Hold
mod Tests
use Prim.Native.Nat.{bit_and, bit_or}
use cdj2000_emulator.Prelude.{
  ℕ, ◌-◌, ◌*◌, ◌/◌, ◌^◌, ◌==◌, ◌!=◌, ltb, if◌then◌else◌, Bool, true, false, not, ◌&&◌, ◌||◌, Option,
  none, some,
}
use cdj2000_emulator.Prelude.Arrays.{Array, update}
use cdj2000_emulator.Prelude.Word.{has, not32, u32_max}

-- `CdjC6747I2c`
pub record I2c : Type 0 where
  pub mode : Array ℕ
  pub function : Array ℕ
  pub direction : Array ℕ
  pub output : Array ℕ

-- `locate`: the bank and the offset of an address.
pub locate : ℕ → Option (ℕ × ℕ)
locate address =
    let base = bit_and address (not32 0xfff) in
    if (base != 0x01c22000 && base != 0x01e28000) || has address 3
    then none
    else some (if base == 0x01e28000 then 1 else 0, address - base)

pub reset : I2c
reset = record { mode = λ b. 0; function = λ b. 0; direction = λ b. 0; output = λ b. 0 }

pub read : I2c → ℕ → Option ℕ
read s address = elim (locate address) [
  | none ↦ none
  | some (b, o) ↦
      if o == 0x24
      then some (s.mode b)
      else if o == 0x48
      then some (s.function b)
      else if o == 0x4c
      then some (s.direction b)
      else if o == 0x54
      then some (s.output b)
      else none
]

-- The first switch of a write: the bits that a register takes, if the value is not refused.
pub write_mask : I2c → ℕ → ℕ → ℕ → Option ℕ
write_mask s b o value =
    if o == 0x24
    then (if has value 0x20 && (s.function b != 1 || has value (not32 0x4020))
        then none
        else some 0xefff)
    else if o == 0x48
    then (if has (s.mode b) 0x20 && value != s.function b then none else some 1)
    else if o == 0x4c || o == 0x54 || o == 0x58 || o == 0x5c
    then some 3
    else none

-- The second switch, of a committed write.
pub store_at : I2c → ℕ → ℕ → ℕ → I2c
store_at s b o value =
    if o == 0x24
    then record s { mode = update s.mode b value }
    else if o == 0x48
    then record s { function = update s.function b value }
    else if o == 0x4c
    then record s { direction = update s.direction b value }
    else if o == 0x54
    then record s { output = update s.output b value }
    else if o == 0x58
    then record s { output = update s.output b (bit_or (s.output b) value) }
    else if o == 0x5c
    then record s { output = update s.output b (bit_and (s.output b) (not32 value)) }
    else s

unfoldable pub write : I2c → ℕ → ℕ → ℕ → Bool → Bool × I2c
write s address value size commit =
    if size != 4 || ltb u32_max value then (false, s) else elim (locate address) [
      | none ↦ (false, s)
      | some (b, o) ↦ elim (write_mask s b o value) [
        | none ↦ (false, s)
        | some mask ↦
            if has value (not32 mask)
            then (false, s)
            else if not commit
            then (true, s)
            else (true, store_at s b o value)
      ]
    ]
