-- ===== src/Multiply/Tests.antt =====
-- Witnesses of the theorems on division and on values of forty bits.
use cdj2000_emulator.Prelude.{◌*◌, ◌/◌, ◌%◌, ◌^◌, ◌≡◌, ◌||◌, arith}
use cdj2000_emulator.Prelude.Integers.{pos, negsuc, ltℤ, signed, clamp}
use cdj2000_emulator.Multiply.{sat40, abs40, abs32}
use cdj2000_emulator.Multiply.Divide.{subc_steps, subc-divides}
use cdj2000_emulator.Multiply.Longs.{magnitude, longs_lem}

longs_lem_example :
    let long = signed 40 (0x8000000000 % 2 ^ 40) in
    (signed 32 (sat40 0x8000000000).value ≡ clamp (negsuc 0x7fffffff) (pos 0x7fffffff) long)
    × ((sat40 0x8000000000).saturated ≡ (ltℤ (pos 0x7fffffff) long || ltℤ long (negsuc 0x7fffffff)))
    × (signed 40 (abs40 0x8000000000) ≡ magnitude 40 long)
    × (signed 32 (abs32 0xfffffff0) ≡ magnitude 32 (signed 32 0xfffffff0))
longs_lem_example = longs_lem 0x8000000000 0xfffffff0 (omega arith)

-- 1000 divided by 7, in sixteen steps.
subc-divides_example :
    let result = subc_steps 16 (7 * 2 ^ 15) 1000 in
    (result % 2 ^ 16 ≡ 1000 / 7) × (result / 2 ^ 16 ≡ 1000 % 7)
subc-divides_example = subc-divides 15 7 1000 (omega arith) (omega arith)
