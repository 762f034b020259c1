-- ===== src/Dotp.antt =====
-- emulator/qemu/cdj_c674x_dotp.h and .c: the dot products of the multiplier, and the group of complex and
-- rounding multiplications that takes no condition.
pub mod Exact
pub mod Words
pub mod Complex
mod Tests
use Prim.Native.Nat.{bit_and, bit_or}
use cdj2000_emulator.Prelude.{
  ℕ, ◌+◌, ◌-◌, ◌*◌, ◌/◌, ◌%◌, ◌^◌, ◌==◌, ltb, if◌then◌else◌, Bool, true, false, not, ◌&&◌, ◌||◌,
}
use cdj2000_emulator.Prelude.Integers.{
  ℤ, pos, negsuc, ◌+ℤ◌, ◌-ℤ◌, ◌*ℤ◌, ltℤ, eqℤ, signed, to_word, shift_down,
}
use cdj2000_emulator.Prelude.Word.{u32}

-- `s16`, `u16`, `s8`, `u8`: a halfword or a byte of a word, with its sign or without.
pub s16 : ℕ → ℕ → ℤ
s16 word half = signed 16 (word / 2 ^ (16 * half) % 2 ^ 16)

pub u16 : ℕ → ℕ → ℤ
u16 word half = pos (word / 2 ^ (16 * half) % 2 ^ 16)

pub s8 : ℕ → ℕ → ℤ
s8 word byte = signed 8 (word / 2 ^ (8 * byte) % 2 ^ 8)

pub u8 : ℕ → ℕ → ℤ
u8 word byte = pos (word / 2 ^ (8 * byte) % 2 ^ 8)

pub shift_right_16 : ℤ → ℤ
shift_right_16 value =
    let shifted = to_word 32 value / 2 ^ 16 in
    signed 32 (if ltℤ value (pos 0) then bit_or shifted 0xffff0000 else shifted)

-- `CdjC674xDotpResult`
pub record DotpResult : Type 0 where
  pub value : ℕ
  pub undefined : Bool
  pub valid : Bool

abbrev dotp_value : ℕ → DotpResult
dotp_value n = record { value = n; undefined = false; valid = true }

pub rounded : ℤ → DotpResult
unfolding shift_right_16
rounded products =
    let intermediate = products +ℤ pos 0x8000 in
    if ltℤ (pos 0x7fffffff) intermediate || ltℤ intermediate (negsuc 0x7fffffff)
    then record { value = 0; undefined = true; valid = true }
    else dotp_value (to_word 64 (shift_right_16 intermediate))

abbrev pub dotpsu4_op : ℕ
dotpsu4_op = 0x02

abbrev pub dotpu4_op : ℕ
dotpu4_op = 0x06

abbrev pub dotpnrsu2_op : ℕ
dotpnrsu2_op = 0x07

abbrev pub dotpn2_op : ℕ
dotpn2_op = 0x09

abbrev pub dotp2l_op : ℕ
dotp2l_op = 0x0b

abbrev pub dotp2_op : ℕ
dotp2_op = 0x0c

abbrev pub dotprsu2_op : ℕ
dotprsu2_op = 0x0d

pub dotp : ℕ → ℕ → ℕ → DotpResult
unfolding s16 u16 s8 u8 rounded
dotp opfield a b =
    if opfield == dotp2_op || opfield == dotp2l_op
    then dotp_value (to_word 64 (s16 a 0 *ℤ s16 b 0 +ℤ s16 a 1 *ℤ s16 b 1))
    else if opfield == dotpn2_op
    then dotp_value (to_word 64 (s16 a 1 *ℤ s16 b 1 -ℤ s16 a 0 *ℤ s16 b 0))
    else if opfield == dotpnrsu2_op
    then rounded (s16 a 1 *ℤ u16 b 1 -ℤ s16 a 0 *ℤ u16 b 0)
    else if opfield == dotprsu2_op
    then rounded (s16 a 1 *ℤ u16 b 1 +ℤ s16 a 0 *ℤ u16 b 0)
    else if opfield == dotpsu4_op
    then dotp_value
        (to_word 64 (s8 a 0 *ℤ u8 b 0 +ℤ s8 a 1 *ℤ u8 b 1 +ℤ s8 a 2 *ℤ u8 b 2 +ℤ s8 a 3 *ℤ u8 b 3))
    else if opfield == dotpu4_op
    then dotp_value
        (to_word 32 (u8 a 0 *ℤ u8 b 0 +ℤ u8 a 1 *ℤ u8 b 1 +ℤ u8 a 2 *ℤ u8 b 2 +ℤ u8 a 3 *ℤ u8 b 3))
    else record { value = 0; undefined = false; valid = false }

-- `sat32`: the clamped value, and whether it was clamped.
pub sat32 : ℤ → ℤ × Bool
sat32 v =
    if ltℤ (pos 0x7fffffff) v
    then (pos 0x7fffffff, true)
    else if ltℤ v (negsuc 0x7fffffff)
    then (negsuc 0x7fffffff, true)
    else (v, false)

pub round_msb16 : ℤ → ℕ × Bool
unfolding sat32
round_msb16 value =
    let (v, saturated) = sat32 (value +ℤ pos 0x8000) in
    (bit_and (to_word 32 v / 2 ^ 16) 0xffff, saturated)

pub round_shift_msb16 : ℤ → ℕ × Bool
unfolding sat32
round_shift_msb16 value =
    let (v, saturated) = sat32 ((value +ℤ pos 0x4000) *ℤ pos 2) in
    (bit_and (to_word 32 v / 2 ^ 16) 0xffff, saturated)

-- `CdjC674xCmpyResult`
pub record CmpyResult : Type 0 where
  pub value : ℕ
  pub pair_dst : Bool
  pub pair_src1 : Bool
  pub saturated : Bool
  pub valid : Bool

-- Two words as a pair of registers, and two halves as a word.
pub register_pair : ℕ → ℕ → ℕ
register_pair odd even = bit_or (odd * 2 ^ 32) even

pub half_pair : ℕ × Bool → ℕ × Bool → ℕ × Bool
half_pair (high, a) (low, b) = (bit_or (high * 2 ^ 16) low, a || b)

abbrev pub cmpy_op : ℕ
cmpy_op = 0x0a

abbrev pub cmpyr_op : ℕ
cmpyr_op = 0x0b

abbrev pub cmpyr1_op : ℕ
cmpyr1_op = 0x0c

abbrev pub ddotpl2r_op : ℕ
ddotpl2r_op = 0x14

abbrev pub ddotph2r_op : ℕ
ddotph2r_op = 0x15

abbrev pub ddotpl2_op : ℕ
ddotpl2_op = 0x16

abbrev pub ddotph2_op : ℕ
ddotph2_op = 0x17

abbrev pub ddotp4_op : ℕ
ddotp4_op = 0x18

abbrev result : ℕ → Bool → Bool → Bool → CmpyResult
result n dst src1 clamped = record {
  value = n;
  pair_dst = dst;
  pair_src1 = src1;
  saturated = clamped;
  valid = true;
}

-- The results that pack two rounded halves, from the values and a flag raised before.
abbrev packed : Bool → Bool → ℕ × Bool → CmpyResult
packed src1 clamped (n, c) = result n false src1 (clamped || c)

-- The two sums that DDOTPH2 and DDOTPL2 saturate, as a pair of registers.
pub saturated_pair : ℤ → ℤ → CmpyResult
unfolding sat32 register_pair
saturated_pair o e =
    let (odd, a) = sat32 o in
    let (even, b) = sat32 e in
    result (register_pair (to_word 32 odd) (to_word 32 even)) true true (a || b)

pub cmpy : ℕ → ℕ → ℕ → ℕ → CmpyResult
unfolding s16 s8 sat32 round_msb16 round_shift_msb16 half_pair register_pair saturated_pair
cmpy opfield src1 src1_hi src2 =
    let s1h = s16 src1 1 in
    let s1l = s16 src1 0 in
    let s2h = s16 src2 1 in
    let s2l = s16 src2 0 in
    let o1h = s16 src1_hi 1 in
    let o1l = s16 src1_hi 0 in
    let cross = sat32 (s1l *ℤ s2h +ℤ s1h *ℤ s2l) in
    let real = s1h *ℤ s2h -ℤ s1l *ℤ s2l in
    let clamped = sat32 real in
    let high = o1h *ℤ s2h +ℤ o1l *ℤ s2l in
    let straddling = o1l *ℤ s2h +ℤ s1h *ℤ s2l in
    let low = s1h *ℤ s2h +ℤ s1l *ℤ s2l in
    if opfield == cmpy_op
    then result (register_pair (to_word 32 real) (to_word 32 cross.0)) true false cross.1
    else if opfield == cmpyr_op
    then packed false (cross.1 || clamped.1)
        (half_pair (round_msb16 clamped.0) (round_msb16 cross.0))
    else if opfield == cmpyr1_op
    then packed false (cross.1 || clamped.1)
        (half_pair (round_shift_msb16 clamped.0) (round_shift_msb16 cross.0))
    else if opfield == ddotp4_op
    then result
        (register_pair (to_word 32 (s1h *ℤ s8 src2 3 +ℤ s1l *ℤ s8 src2 2))
          (to_word 32 (s1h *ℤ s8 src2 1 +ℤ s1l *ℤ s8 src2 0)))
        true false false
    else if opfield == ddotph2_op
    then saturated_pair high straddling
    else if opfield == ddotpl2_op
    then saturated_pair straddling low
    else if opfield == ddotph2r_op
    then packed true false (half_pair (round_msb16 high) (round_msb16 straddling))
    else if opfield == ddotpl2r_op
    then packed true false (half_pair (round_msb16 straddling) (round_msb16 low))
    else record { value = 0; pair_dst = false; pair_src1 = false; saturated = false; valid = false }

abbrev pub smpy32_op : ℕ
smpy32_op = 0x19

abbrev pub mpy2ir_op : ℕ
mpy2ir_op = 0x0f

-- SMPY32: the upper word of the doubled product, and whether it was limited.
pub smpy32 : ℕ → ℕ → ℕ × Bool
smpy32 src1 src2 =
    let product = signed 32 src1 *ℤ signed 32 src2 in
    let over = not (ltℤ product (pos (2 ^ 62))) in
    let shifted = if over then pos (2 ^ 63 - 1) else product *ℤ pos 2 in
    (to_word 64 shifted / 2 ^ 32, over)

-- MPY2IR: one half of the first operand by the second, rounded, and whether it was limited.
pub mpy2ir : ℤ → ℕ → ℕ × Bool
mpy2ir half src2 =
    let over = eqℤ half (negsuc 0x7fff) && src2 == 0x80000000 in
    (
      if over
          then 0x7fffffff
          else to_word 32 (shift_down (half *ℤ signed 32 src2 +ℤ pos 0x4000) 15),
      over,
    )

pub mpy32_nonconditional : ℕ → ℕ → ℕ → CmpyResult
unfolding smpy32 mpy2ir register_pair s16
mpy32_nonconditional opfield src1 src2 =
    let (product, limited) = smpy32 src1 src2 in
    let (odd, a) = mpy2ir (s16 src1 1) src2 in
    let (even, b) = mpy2ir (s16 src1 0) src2 in
    if opfield == smpy32_op
    then result product false false limited
    else if opfield == mpy2ir_op
    then result (register_pair odd even) true false (a || b)
    else record { value = 0; pair_dst = false; pair_src1 = false; saturated = false; valid = false }
