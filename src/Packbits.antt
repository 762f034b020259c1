-- ===== src/Packbits.antt =====
-- emulator/qemu/cdj_c674x_packbits.c: packing, shuffling and counting bits. Its sums and differences in
-- pairs are in Packbits/Addsub.
pub mod Addsub
pub mod Search
pub mod Shuffle
mod Tests
use Prim.Native.Nat.{bit_and, bit_or}
use cdj2000_emulator.Prelude.{ℕ, zero, suc, ◌+◌, ◌-◌, ◌*◌, ◌/◌, ◌%◌, ◌^◌, ◌==◌, ◌!=◌, if◌then◌else◌}
use cdj2000_emulator.Prelude.Word.{has, u32}

pub unpkhu4 : ℕ → ℕ
unpkhu4 src2 = bit_or (bit_and (src2 / 2 ^ 24) 0xff * 2 ^ 16) (bit_and (src2 / 2 ^ 16) 0xff)

pub unpklu4 : ℕ → ℕ
unpklu4 src2 = bit_or (bit_and (src2 / 2 ^ 8) 0xff * 2 ^ 16) (bit_and src2 0xff)

pub swap4 : ℕ → ℕ
swap4 src2 =
    bit_or
      (bit_or
        (bit_or (bit_and (src2 / 2 ^ 16) 0xff * 2 ^ 24) (bit_and (src2 / 2 ^ 24) 0xff * 2 ^ 16))
        (bit_and src2 0xff * 2 ^ 8))
      (bit_and (src2 / 2 ^ 8) 0xff)

-- A bit of a word, and a destination with it put in a place.
pub bit_at : ℕ → ℕ → ℕ
bit_at word i = bit_and (word / 2 ^ i) 1

pub place : ℕ → ℕ → ℕ → ℕ → ℕ
place word from to dst = bit_or dst (bit_at word from * 2 ^ to)

pub bitr_from : ℕ → ℕ → ℕ → ℕ → ℕ
bitr_from src zero i dst = dst
bitr_from src (suc rounds) i dst = bitr_from src rounds (i + 1) (place src i (31 - i) dst)

pub bitr : ℕ → ℕ
bitr src2 = bitr_from src2 32 0 0

pub count_bits : ℕ → ℕ → ℕ → ℕ → ℕ
count_bits word zero i count = count
count_bits word (suc rounds) i count = count_bits word rounds (i + 1) (count + bit_at word i)

pub bitc4_from : ℕ → ℕ → ℕ → ℕ → ℕ
bitc4_from src zero byte dst = dst
bitc4_from src (suc rounds) byte dst =
    bitc4_from src rounds (byte + 1) (bit_or dst (count_bits src 8 (byte * 8) 0 * 2 ^ (byte * 8)))

pub bitc4 : ℕ → ℕ
bitc4 src2 = bitc4_from src2 4 0 0

pub deal_from : ℕ → ℕ → ℕ → ℕ → ℕ
deal_from src zero i dst = dst
deal_from src (suc rounds) i dst =
    deal_from src rounds (i + 1) (place src (2 * i + 1) (16 + i) (place src (2 * i) i dst))

pub deal : ℕ → ℕ
deal src2 = deal_from src2 16 0 0

pub shfl_from : ℕ → ℕ → ℕ → ℕ → ℕ
shfl_from src zero i dst = dst
shfl_from src (suc rounds) i dst =
    shfl_from src rounds (i + 1) (place src (16 + i) (2 * i + 1) (place src i (2 * i) dst))

pub shfl : ℕ → ℕ
shfl src2 = shfl_from src2 16 0 0

pub shfl3_from : ℕ → ℕ → ℕ → ℕ → ℕ → ℕ → ℕ
shfl3_from inp0 inp1 inp2 zero i result = result
shfl3_from inp0 inp1 inp2 (suc rounds) i result =
    shfl3_from inp0 inp1 inp2 rounds (i + 1)
      (place inp2 i (i * 3 + 2) (place inp1 i (i * 3 + 1) (place inp0 i (i * 3) result)))

pub shfl3 : ℕ → ℕ → ℕ
shfl3 src1 src2 =
    shfl3_from (bit_and src2 0xffff) (bit_and src1 0xffff) (bit_and (src1 / 2 ^ 16) 0xffff) 16 0 0

pub xpnd2 : ℕ → ℕ
xpnd2 src2 = bit_or (if has src2 2 then 0xffff0000 else 0) (if has src2 1 then 0xffff else 0)

pub xpnd4_from : ℕ → ℕ → ℕ → ℕ → ℕ
xpnd4_from src zero byte dst = dst
xpnd4_from src (suc rounds) byte dst =
    xpnd4_from src rounds (byte + 1)
      (if bit_at src byte != 0 then bit_or dst (0xff * 2 ^ (byte * 8)) else dst)

pub xpnd4 : ℕ → ℕ
xpnd4 src2 = xpnd4_from src2 4 0 0

pub rotl : ℕ → ℕ → ℕ
rotl src2 src1 =
    let n = bit_and src1 31 in
    if n != 0 then bit_or (u32 (src2 * 2 ^ n)) (src2 / 2 ^ (32 - n)) else src2

-- The search from bit `i - 1` down.
pub lmbd_from : ℕ → ℕ → ℕ → ℕ
lmbd_from wanted src zero = 32
lmbd_from wanted src (suc i) =
    let rest = lmbd_from wanted src i in if bit_at src i == wanted then 31 - i else rest

pub lmbd : ℕ → ℕ → ℕ
lmbd src1 src2 = lmbd_from (bit_and src1 1) src2 32

-- The number of bits equal to the sign from bit `i - 1` down.
pub norm_from : ℕ → ℕ → ℕ → ℕ → ℕ
norm_from sign src zero count = count
norm_from sign src (suc i) count =
    let rest = norm_from sign src i (count + 1) in if bit_at src i != sign then count else rest

pub norm32 : ℕ → ℕ
norm32 src2 = norm_from (bit_at src2 31) src2 31 0

pub norm40 : ℕ → ℕ
norm40 src2 = norm_from (bit_at src2 39) src2 39 0

pub shlmb : ℕ → ℕ → ℕ
shlmb src1 src2 = bit_or (u32 (src2 * 2 ^ 8)) (bit_and (src1 / 2 ^ 24) 0xff)

pub shrmb : ℕ → ℕ → ℕ
shrmb src1 src2 = bit_or (bit_and src1 0xff * 2 ^ 24) (src2 / 2 ^ 8)

pub dpack2 : ℕ → ℕ → ℕ
dpack2 src1 src2 =
    let even = bit_or (bit_and src1 0xffff * 2 ^ 16) (bit_and src2 0xffff) in
    let odd = bit_or (bit_and src1 0xffff0000) (src2 / 2 ^ 16) in bit_or (odd * 2 ^ 32) even

pub dpackx2 : ℕ → ℕ → ℕ
dpackx2 src1 src2 =
    let even = bit_or (bit_and src1 0xffff * 2 ^ 16) (src2 / 2 ^ 16) in
    let odd = bit_or (bit_and src2 0xffff * 2 ^ 16) (src1 / 2 ^ 16) in bit_or (odd * 2 ^ 32) even
