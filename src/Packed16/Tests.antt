-- ===== src/Packed16/Tests.antt =====
-- Runs of the instructions on two halfwords, and the witnesses of their theorems.
use cdj2000_emulator.Prelude.{if◌then◌else◌, false, ◌≡◌, arith}
use cdj2000_emulator.Prelude.Integers.{pos, negsuc, negate, signed, clamp}
use cdj2000_emulator.Packed16.{sshv}
use cdj2000_emulator.Packed16.Lanes.{SumsByHalves, sums_by_halves}
use cdj2000_emulator.Packed16.Shift.{exact, saturate_word, overflows, sshv_lem}

sums_by_halves_example : SumsByHalves 0x7fff8000 0x0001ffff
sums_by_halves_example = sums_by_halves 0x7fff8000 0x0001ffff

sshv_lem_example :
    let count = if false then negate (signed 32 4) else signed 32 4 in
    let shifted = exact (signed 32 0xf0000000) (clamp (negsuc 30) (pos 31) count) in
    (signed 32 (sshv 0xf0000000 4 false).value ≡ saturate_word shifted)
    × ((sshv 0xf0000000 4 false).saturated ≡ overflows shifted)
sshv_lem_example = sshv_lem 0xf0000000 4 false (omega arith)
