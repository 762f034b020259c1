-- ===== src/Packed8.antt =====
-- emulator/qemu/cdj_c674x_packed8.c: the instructions on four bytes of a word.
pub mod Lanes
mod Tests
use Prim.Native.Nat.{bit_and, bit_or}
use cdj2000_emulator.Prelude.{
  ℕ, zero, suc, ◌+◌, ◌-◌, ◌*◌, ◌/◌, ◌%◌, ◌^◌, ◌==◌, ltb, leb, if◌then◌else◌, Bool, true, false,
}
use cdj2000_emulator.Prelude.Integers.{ℤ, pos, ◌-ℤ◌, ltℤ, eqℤ, signed, to_word, times}

pub ubyte : ℕ → ℕ → ℕ
ubyte word n = word / 2 ^ (n * 8) % 2 ^ 8

pub sbyte : ℕ → ℕ → ℤ
sbyte word n = signed 8 (ubyte word n)

pub pack_bytes : (ℕ → ℕ) → ℕ
pack_bytes bytes =
    bit_or (bit_or (bit_or (bytes 0) (bytes 1 * 2 ^ 8)) (bytes 2 * 2 ^ 16)) (bytes 3 * 2 ^ 24)

pub add4 : ℕ → ℕ → ℕ
add4 src1 src2 = pack_bytes (λ n. (ubyte src1 n + ubyte src2 n) % 2 ^ 8)

pub sub4 : ℕ → ℕ → ℕ
sub4 src1 src2 = pack_bytes (λ n. to_word 8 (pos (ubyte src1 n) -ℤ pos (ubyte src2 n)))

pub subabs4 : ℕ → ℕ → ℕ
subabs4 src1 src2 = pack_bytes λ n.
    let a = ubyte src1 n in
    let b = ubyte src2 n in if leb b a then (a - b) % 2 ^ 8 else (b - a) % 2 ^ 8

pub saddu4 : ℕ → ℕ → ℕ
saddu4 src1 src2 =
    pack_bytes
      λ n. let sum = ubyte src1 n + ubyte src2 n in (if ltb 255 sum then 255 else sum) % 2 ^ 8

pub avgu4 : ℕ → ℕ → ℕ
avgu4 src1 src2 = pack_bytes (λ n. (ubyte src1 n + ubyte src2 n + 1) / 2 % 2 ^ 8)

pub maxu4 : ℕ → ℕ → ℕ
maxu4 src1 src2 =
    pack_bytes λ n. let a = ubyte src1 n in let b = ubyte src2 n in if leb b a then a else b

pub minu4 : ℕ → ℕ → ℕ
minu4 src1 src2 =
    pack_bytes λ n. let a = ubyte src1 n in let b = ubyte src2 n in if leb a b then a else b

-- The loop of the comparisons: the flag of each byte that passes a test.
pub flags : (ℕ → Bool) → ℕ → ℕ → ℕ → ℕ
flags test zero n result = result
flags test (suc rounds) n result =
    flags test rounds (n + 1) (if test n then bit_or result (2 ^ n) else result)

pub cmpeq4 : ℕ → ℕ → ℕ
cmpeq4 src1 src2 = flags (λ n. eqℤ (sbyte src1 n) (sbyte src2 n)) 4 0 0

pub cmpgtu4 : ℕ → ℕ → ℕ
cmpgtu4 src1 src2 = flags (λ n. ltb (ubyte src2 n) (ubyte src1 n)) 4 0 0

-- The loop of the products: a field of sixteen bits for each byte.
pub products : (ℕ → ℕ) → ℕ → ℕ → ℕ → ℕ
products field zero n result = result
products field (suc rounds) n result =
    products field rounds (n + 1) (bit_or result (bit_and (field n) 0xffff * 2 ^ (n * 16)))

pub mpyu4 : ℕ → ℕ → ℕ
mpyu4 src1 src2 = products (λ n. ubyte src1 n * ubyte src2 n) 4 0 0

pub mpysu4 : ℕ → ℕ → ℕ
mpysu4 src1 src2 = products (λ n. to_word 32 (times (sbyte src1 n) (ubyte src2 n))) 4 0 0

pub spack_byte : ℕ → Bool → ℕ
spack_byte word high =
    let value = signed 16 ((if high then word / 2 ^ 16 else word) % 2 ^ 16) in
    to_word 8 (if ltℤ (pos 255) value then pos 255 else if ltℤ value (pos 0) then pos 0 else value)

pub spacku4 : ℕ → ℕ → ℕ
spacku4 src1 src2 = pack_bytes λ n.
    if n == 0
    then spack_byte src2 false
    else if n == 1
    then spack_byte src2 true
    else if n == 2
    then spack_byte src1 false
    else spack_byte src1 true
