-- ===== src/Emifb/Tests.antt =====
-- SDRAM after its configuration, and the theorems there.
use cdj2000_emulator.Prelude.{ℕ, ◌+◌, ◌-◌, ◌%◌, ◌^◌, ◌≤◌, ◌<◌, ◌≡◌, refl, true, some}
use cdj2000_emulator.Emifb.{reset, valid_sdcfg, sdram_enabled, sdram_offset}
use cdj2000_emulator.Emifb.Sdram.{sdram_offset_sound}

reset_enabled : sdram_enabled reset ≡ true
unfolding sdram_enabled reset
reset_enabled = refl

translated : sdram_offset reset 0xc0000010 4 0x4000000 ≡ some 0x10
unfolding sdram_offset sdram_enabled reset
translated = refl

sdram_offset_sound_example :
    (0x10 ≡ (0xc0000010 - 0xc0000000) % 0x4000000)
    × (0x10 + 4 ≤ 0x4000000)
    × (0 < 4)
    × (0xc0000000 ≤ 0xc0000010)
    × (0xc0000010 + 4 ≤ 0xe0000000)
    × (sdram_enabled reset ≡ true)
    × (0x4000000 ≤ 0x20000000)
    × ((k : ℕ) × (0x4000000 ≡ 2 ^ k))
sdram_offset_sound_example = sdram_offset_sound reset 0xc0000010 4 0x4000000 translated

accepts : valid_sdcfg 0x00808622 ≡ true
unfolding valid_sdcfg
accepts = refl
