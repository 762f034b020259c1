-- ===== src/Dotp/Tests.antt =====
-- The dot products at the operands of the manual's examples, and the theorems at operands.
use cdj2000_emulator.Prelude.{ℕ, ◌/◌, ◌%◌, ◌^◌, ◌≡◌, refl, arith, if◌then◌else◌}
use cdj2000_emulator.Prelude.Integers.{pos, negsuc, ◌+ℤ◌, ◌-ℤ◌, ◌*ℤ◌, signed}
use cdj2000_emulator.Dotp.{
  s16, u16, s8, u8, dotp, dotp2_op, dotp2l_op, dotpn2_op, dotpsu4_op, dotpu4_op, dotprsu2_op,
  dotpnrsu2_op, cmpy, cmpy_op, cmpyr1_op, mpy32_nonconditional, smpy32_op,
}
use cdj2000_emulator.Dotp.Exact.{Rounds, dotp_rounded}
use cdj2000_emulator.Dotp.Words.{dotp_exact}
use cdj2000_emulator.Dotp.Complex.{extreme, cmpy_lem}

-- CMPYR1 of 0800 0400h and 0900 0200h, the manual's first example.
cmpyr1_first : (cmpy cmpyr1_op 0x08000400 0 0x09000200).value ≡ 0x00800068
unfolding cmpy
cmpyr1_first = refl

-- SMPY32 of the least word by itself is limited.
smpy32_limit : (mpy32_nonconditional smpy32_op 0x80000000 0x80000000).value ≡ 0x7fffffff
unfolding mpy32_nonconditional
smpy32_limit = refl

-- DOTP2 where all four halves are the least.
dotp2_limit : (dotp dotp2l_op 0x80008000 0x80008000).value ≡ 0x80000000
unfolding dotp
dotp2_limit = refl

dotp_exact_example :
    let a : ℕ = 0x80008000 in
    let word = λ (op : ℕ). signed 32 ((dotp op a a).value % 2 ^ 32) in
    (signed 64 (dotp dotp2l_op a a).value ≡ s16 a 0 *ℤ s16 a 0 +ℤ s16 a 1 *ℤ s16 a 1)
    × (word dotp2_op
        ≡ (if extreme a a then negsuc 0x7fffffff else s16 a 0 *ℤ s16 a 0 +ℤ s16 a 1 *ℤ s16 a 1))
    × (word dotpn2_op ≡ s16 a 1 *ℤ s16 a 1 -ℤ s16 a 0 *ℤ s16 a 0)
    × (word dotpsu4_op
        ≡ s8 a 0 *ℤ u8 a 0 +ℤ s8 a 1 *ℤ u8 a 1 +ℤ s8 a 2 *ℤ u8 a 2 +ℤ s8 a 3 *ℤ u8 a 3)
    × (word dotpu4_op
        ≡ u8 a 0 *ℤ u8 a 0 +ℤ u8 a 1 *ℤ u8 a 1 +ℤ u8 a 2 *ℤ u8 a 2 +ℤ u8 a 3 *ℤ u8 a 3)
dotp_exact_example = dotp_exact 0x80008000 0x80008000 (omega arith) (omega arith)

dotp_rounded_example :
    let a : ℕ = 0x80018000 in
    let b : ℕ = 0xffff8000 in
    Rounds (dotp dotprsu2_op a b) (s16 a 1 *ℤ u16 b 1 +ℤ s16 a 0 *ℤ u16 b 0)
    × Rounds (dotp dotpnrsu2_op a b) (s16 a 1 *ℤ u16 b 1 -ℤ s16 a 0 *ℤ u16 b 0)
dotp_rounded_example = dotp_rounded 0x80018000 0xffff8000

cmpy_lem_example :
    let a : ℕ = 0x80008000 in
    let r = cmpy cmpy_op a 0 a in
    (signed 32 (r.value / 2 ^ 32) ≡ s16 a 1 *ℤ s16 a 1 -ℤ s16 a 0 *ℤ s16 a 0)
    × (signed 32 (r.value % 2 ^ 32)
        ≡ (if extreme a a then pos 0x7fffffff else s16 a 0 *ℤ s16 a 1 +ℤ s16 a 1 *ℤ s16 a 0))
    × (r.saturated ≡ extreme a a)
cmpy_lem_example = cmpy_lem 0x80008000 0 0x80008000 (omega arith) (omega arith)
