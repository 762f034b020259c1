-- ===== src/Multiply.antt =====
-- emulator/qemu/cdj_c674x_mpy.c and cdj_c674x_mpy32.c: products, Galois field products, values of forty
-- bits.
pub mod Divide
pub mod Longs
mod Tests
use Prim.Native.Nat.{bit_and, bit_or, bit_xor}
use cdj2000_emulator.Prelude.{
  ℕ, zero, suc, ◌+◌, ◌-◌, ◌*◌, ◌/◌, ◌%◌, ◌^◌, ◌==◌, ◌!=◌, ltb, leb, if◌then◌else◌, Bool, true,
  false, not, ◌&&◌, ◌||◌,
}
use cdj2000_emulator.Prelude.Integers.{ℤ, pos, negsuc, ◌-ℤ◌, ◌*ℤ◌, ltℤ, signed, to_word}
use cdj2000_emulator.Prelude.Word.{has, u32, u64}

-- `CdjC674xMpyResult`
pub record MpyResult : Type 0 where
  pub value : ℕ
  pub saturated : Bool

pub smpy16 : ℕ → ℕ → Bool → Bool → MpyResult
smpy16 src1 src2 src1_high src2_high =
    let left = signed 16 ((if src1_high then src1 / 2 ^ 16 else src1) % 2 ^ 16) in
    let right = signed 16 ((if src2_high then src2 / 2 ^ 16 else src2) % 2 ^ 16) in
    let shifted = u32 (to_word 32 (left *ℤ right) * 2) in
    let saturated = shifted == 0x80000000 in
    record { value = if saturated then 0x7fffffff else shifted; saturated = saturated }

abbrev pub long40_mask : ℕ
long40_mask = 0xffffffffff

pub sx40 : ℕ → ℤ
sx40 raw = pos (bit_xor (bit_and raw long40_mask) (2 ^ 39)) -ℤ pos (2 ^ 39)

pub mpyi : ℕ → ℕ → ℕ
mpyi src1 src2 = to_word 64 (signed 32 src1 *ℤ signed 32 src2)

pub mpy2 : ℕ → ℕ → ℕ
mpy2 src1 src2 =
    let low = to_word 32 (signed 16 (src1 % 2 ^ 16) *ℤ signed 16 (src2 % 2 ^ 16)) in
    let high =
      to_word 32 (signed 16 (src1 / 2 ^ 16 % 2 ^ 16) *ℤ signed 16 (src2 / 2 ^ 16 % 2 ^ 16)) in
    bit_or (high * 2 ^ 32) low

-- The product without carries, from bit `i` of `b` on.
pub gmpy_add : ℕ → ℕ → ℕ → ℕ → ℕ → ℕ
gmpy_add a b zero i product = product
gmpy_add a b (suc rounds) i product =
    gmpy_add a b rounds (i + 1)
      (if bit_and (b / 2 ^ i) 1 != 0 then bit_xor product (u32 (a * 2 ^ i)) else product)

-- The reduction, from bit `i` down to bit `m`, while rounds are left: sixteen are enough.
pub gmpy_reduce : ℕ → ℕ → ℕ → ℕ → ℕ → ℕ
gmpy_reduce generator m zero i product = product
gmpy_reduce generator m (suc rounds) i product =
    let rest = gmpy_reduce generator m rounds (i - 1) (
      if bit_and (product / 2 ^ i) 1 != 0
      then bit_xor product (u32 (generator * 2 ^ (i - m)))
      else product) in
    if leb m i then rest else product

pub gmpy_byte : ℕ → ℕ → ℕ → ℕ → ℕ
gmpy_byte a b poly size =
    let m = size + 1 in
    let mask = 2 ^ m - 1 in
    let generator = bit_or (2 ^ m) (bit_and poly mask) in
    let product = gmpy_add (bit_and a mask) (bit_and b mask) 8 0 0 in
    bit_and (gmpy_reduce generator m 16 15 product) mask

pub gmpy4_from : ℕ → ℕ → ℕ → ℕ → ℕ → ℕ → ℕ → ℕ
gmpy4_from src1 src2 poly size zero n result = result
gmpy4_from src1 src2 poly size (suc rounds) n result =
    let shift = n * 8 in
    gmpy4_from src1 src2 poly size rounds (n + 1) (
      bit_or result (
        bit_and
          (gmpy_byte (bit_and (src1 / 2 ^ shift) 0xff) (bit_and (src2 / 2 ^ shift) 0xff) poly size)
          0xff
        * 2 ^ shift))

pub gmpy4 : ℕ → ℕ → ℕ → ℕ → ℕ
gmpy4 src1 src2 poly size = gmpy4_from src1 src2 poly size 4 0 0

pub gmpy_word_from : ℕ → ℕ → ℕ → ℕ → ℕ → ℕ
gmpy_word_from src1 src2 poly zero product = product
gmpy_word_from src1 src2 poly (suc bit) product =
    let added = if has src2 (2 ^ suc bit) then bit_xor product src1 else product in
    let doubled = u32 (added * 2) in
    gmpy_word_from src1 src2 poly bit
      (if has added 0x80000000 then bit_xor doubled poly else doubled)

pub gmpy_word : ℕ → ℕ → ℕ → ℕ
gmpy_word src1 src2 poly =
    let product = gmpy_word_from src1 src2 poly 8 0 in
    if has src2 1 then bit_xor product src1 else product

pub sat40 : ℕ → MpyResult
sat40 src2 =
    let value = sx40 src2 in
    record {
      value =
          if ltℤ (pos 0x7fffffff) value
          then 0x7fffffff
          else if ltℤ value (negsuc 0x7fffffff)
          then 0x80000000
          else to_word 32 value;
      saturated = ltℤ (pos 0x7fffffff) value || ltℤ value (negsuc 0x7fffffff);
    }

pub subc : ℕ → ℕ → ℕ
subc src1 src2 = if leb src2 src1 then u32 (u32 ((src1 - src2) * 2) + 1) else u32 (src1 * 2)

pub abs32 : ℕ → ℕ
abs32 src2 =
    if src2 == 0x80000000
    then 0x7fffffff
    else if has src2 0x80000000
    then to_word 32 (pos 0 -ℤ pos src2)
    else src2

pub abs40 : ℕ → ℕ
abs40 src2 =
    let value = bit_and src2 long40_mask in
    if value == 2 ^ 39
    then 2 ^ 39 - 1
    else if not (has value (2 ^ 39))
    then value
    else bit_and (to_word 64 (pos 0 -ℤ pos value)) long40_mask

abbrev pub shift40_left : ℕ
shift40_left = 0

abbrev pub shift40_logical : ℕ
shift40_logical = 2

pub shift40 : ℕ → ℕ → ℕ → ℕ
shift40 src2 count operation =
    let value = bit_and src2 long40_mask in
    let n = if ltb 39 (bit_and count 63) then 40 else bit_and count 63 in
    if operation == shift40_left
    then bit_and (u64 (value * 2 ^ n)) long40_mask
    else if operation == shift40_logical
    then value / 2 ^ n
    else let shifted = value / 2 ^ n in
      bit_and
        (if n != 0 && has value (2 ^ 39)
          then bit_or shifted (u64 (long40_mask * 2 ^ (40 - n)))
          else shifted)
        long40_mask
