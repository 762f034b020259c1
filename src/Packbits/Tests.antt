-- ===== src/Packbits/Tests.antt =====
-- Witnesses of the theorems on packing and counting bits.
use cdj2000_emulator.Prelude.{false, ◌||◌, ◌^◌, ◌%◌, ◌/◌, ◌-◌, ◌+◌, ◌≡◌, arith}
use cdj2000_emulator.Prelude.Integers.{signed, ◌+ℤ◌, ◌-ℤ◌}
use cdj2000_emulator.Packbits.{deal, shfl, bitr}
use cdj2000_emulator.Packbits.Addsub.{
  addsub, addsub_op, saddsub_op, saturate, overflows, addsub_lem,
}
use cdj2000_emulator.Packbits.Shuffle.{shuffles_undone}

shuffles_undone_example :
    (shfl (deal 0x9e3779b9) ≡ 0x9e3779b9)
    × (deal (shfl 0x9e3779b9) ≡ 0x9e3779b9)
    × (bitr (bitr 0x9e3779b9) ≡ 0x9e3779b9)
shuffles_undone_example = shuffles_undone 0x9e3779b9 (omega arith)

addsub_lem_example :
    let exact = addsub saddsub_op 0x7fffffff 0x80000000 in
    let wrapped = addsub addsub_op 0x7fffffff 0x80000000 in
    (signed 32 (exact.value / 2 ^ 32) ≡ saturate (signed 32 0x7fffffff +ℤ signed 32 0x80000000))
    × (signed 32 (exact.value % 2 ^ 32) ≡ saturate (signed 32 0x7fffffff -ℤ signed 32 0x80000000))
    × (exact.saturated ≡ (
        overflows (signed 32 0x7fffffff -ℤ signed 32 0x80000000)
        || overflows (signed 32 0x7fffffff +ℤ signed 32 0x80000000)))
    × (wrapped.value / 2 ^ 32 ≡ (0x7fffffff + 0x80000000) % 2 ^ 32)
    × (wrapped.value % 2 ^ 32 ≡ (0x7fffffff + 2 ^ 32 - 0x80000000) % 2 ^ 32)
    × (wrapped.saturated ≡ false)
addsub_lem_example = addsub_lem 0x7fffffff 0x80000000 (omega arith) (omega arith)
