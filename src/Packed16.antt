-- ===== src/Packed16.antt =====
-- emulator/qemu/cdj_c674x_packed16.h and .c: the instructions on two halfwords of a word.
pub mod Lanes
pub mod Shift
mod Tests
use Prim.Native.Nat.{bit_and, bit_or}
use cdj2000_emulator.Prelude.{
  ℕ, ◌+◌, ◌-◌, ◌*◌, ◌/◌, ◌%◌, ◌^◌, if◌then◌else◌, Bool, true, false, not,
}
use cdj2000_emulator.Prelude.Integers.{
  ℤ, pos, negsuc, ◌+ℤ◌, ◌-ℤ◌, negate, ltℤ, eqℤ, signed, to_word, times,
}
use cdj2000_emulator.Prelude.Word.{not32}

pub msb16 : ℕ → ℤ
msb16 word = signed 16 (word / 2 ^ 16 % 2 ^ 16)

pub lsb16 : ℕ → ℤ
lsb16 word = signed 16 (word % 2 ^ 16)

-- The same halves as unsigned numbers, which the C code writes as casts.
pub umsb16 : ℕ → ℕ
umsb16 word = word / 2 ^ 16 % 2 ^ 16

pub ulsb16 : ℕ → ℕ
ulsb16 word = word % 2 ^ 16

pub pack : ℕ → ℕ → ℕ
pack high low = bit_or (bit_and high 0xffff * 2 ^ 16) (bit_and low 0xffff)

pub asr : ℤ → ℕ → ℕ
asr value count =
    if ltℤ value (pos 0)
    then not32 (not32 (to_word 32 value) / 2 ^ count)
    else to_word 32 value / 2 ^ count

pub sat16 : ℤ → ℕ
sat16 value =
    bit_and
      (to_word 32 (
        if ltℤ (pos 32767) value
        then pos 32767
        else if ltℤ value (negsuc 32767)
        then negsuc 32767
        else value))
      0xffff

pub satu16 : ℤ → ℕ
satu16 value =
    bit_and
      (to_word 32
        (if ltℤ (pos 65535) value then pos 65535 else if ltℤ value (pos 0) then pos 0 else value))
      0xffff

pub abs16 : ℤ → ℕ
abs16 value =
    bit_and
      (to_word 32 (
        if eqℤ value (negsuc 32767)
        then pos 32767
        else if ltℤ value (pos 0)
        then negate value
        else value))
      0xffff

pub abs2 : ℕ → ℕ
abs2 src2 = pack (abs16 (msb16 src2)) (abs16 (lsb16 src2))

pub add2 : ℕ → ℕ → ℕ
add2 src1 src2 =
    pack (to_word 32 (msb16 src1 +ℤ msb16 src2)) (to_word 32 (lsb16 src1 +ℤ lsb16 src2))

pub sub2 : ℕ → ℕ → ℕ
sub2 src1 src2 =
    pack (to_word 32 (msb16 src1 -ℤ msb16 src2)) (to_word 32 (lsb16 src1 -ℤ lsb16 src2))

pub sadd2 : ℕ → ℕ → ℕ
sadd2 src1 src2 = pack (sat16 (msb16 src1 +ℤ msb16 src2)) (sat16 (lsb16 src1 +ℤ lsb16 src2))

pub ssub2 : ℕ → ℕ → ℕ
ssub2 src1 src2 = pack (sat16 (msb16 src1 -ℤ msb16 src2)) (sat16 (lsb16 src1 -ℤ lsb16 src2))

pub saddus2 : ℕ → ℕ → ℕ
saddus2 src1 src2 =
    pack (satu16 (pos (umsb16 src1) +ℤ msb16 src2)) (satu16 (pos (ulsb16 src1) +ℤ lsb16 src2))

pub max2 : ℕ → ℕ → ℕ
max2 src1 src2 =
    pack (to_word 32 (if not (ltℤ (msb16 src1) (msb16 src2)) then msb16 src1 else msb16 src2))
      (to_word 32 (if not (ltℤ (lsb16 src1) (lsb16 src2)) then lsb16 src1 else lsb16 src2))

pub min2 : ℕ → ℕ → ℕ
min2 src1 src2 =
    pack (to_word 32 (if not (ltℤ (msb16 src2) (msb16 src1)) then msb16 src1 else msb16 src2))
      (to_word 32 (if not (ltℤ (lsb16 src2) (lsb16 src1)) then lsb16 src1 else lsb16 src2))

pub avg2 : ℕ → ℕ → ℕ
avg2 src1 src2 =
    pack (asr (msb16 src1 +ℤ msb16 src2 +ℤ pos 1) 1) (asr (lsb16 src1 +ℤ lsb16 src2 +ℤ pos 1) 1)

pub shr2 : ℕ → ℕ → ℕ
shr2 src2 src1 =
    let count = bit_and src1 31 in pack (asr (msb16 src2) count) (asr (lsb16 src2) count)

pub shru2 : ℕ → ℕ → ℕ
shru2 src2 src1 =
    let count = bit_and src1 31 in pack (umsb16 src2 / 2 ^ count) (ulsb16 src2 / 2 ^ count)

-- A comparison as a number.
abbrev pub truth : Bool → ℕ
truth b = if b then 1 else 0

pub cmpeq2 : ℕ → ℕ → ℕ
cmpeq2 src1 src2 =
    bit_or (truth (eqℤ (msb16 src1) (msb16 src2)) * 2) (truth (eqℤ (lsb16 src1) (lsb16 src2)))

pub cmpgt2 : ℕ → ℕ → ℕ
cmpgt2 src1 src2 =
    bit_or (truth (ltℤ (msb16 src2) (msb16 src1)) * 2) (truth (ltℤ (lsb16 src2) (lsb16 src1)))

pub spack2 : ℕ → ℕ → ℕ
spack2 src1 src2 = pack (sat16 (signed 32 src1)) (sat16 (signed 32 src2))

-- `CdjC674xPacked16Sat`
pub record Packed16Sat : Type 0 where
  pub value : ℕ
  pub saturated : Bool

-- The shift of `sshv` by a count from -31 to 31; one to the left saturates.
pub shift_by : ℕ → ℤ → Packed16Sat
shift_by src2 (negsuc n) = record { value = asr (signed 32 src2) (n + 1); saturated = false }
shift_by src2 (pos count) =
    let shifted = times (signed 32 src2) (2 ^ count) in
    if ltℤ (pos 0x7fffffff) shifted
    then record { value = 0x7fffffff; saturated = true }
    else if ltℤ shifted (negsuc 0x7fffffff)
    then record { value = 0x80000000; saturated = true }
    else record { value = to_word 32 shifted; saturated = false }

pub sshv : ℕ → ℕ → Bool → Packed16Sat
sshv src2 src1 right =
    let count = if right then negate (signed 32 src1) else signed 32 src1 in
    let limited = if ltℤ (pos 31) count then pos 31 else count in
    shift_by src2 (if ltℤ limited (negsuc 30) then negsuc 30 else limited)
