-- ===== src/Syscfg/Tests.antt =====
-- The keys after reset, and the theorems there.
use cdj2000_emulator.Prelude.{ℕ, ◌≡◌, ◌==◌, refl, true, false, if◌then◌else◌}
use cdj2000_emulator.Prelude.Word.{u32}
use cdj2000_emulator.Syscfg.{
  Syscfg, write, kick1, key0, key1, store_kick, pinmux_address, cfgchip_address,
}
use cdj2000_emulator.Syscfg.Keys.{unlock_needs_keys}

-- The first key is in.
abbrev half_open : Syscfg
half_open = record {
  kick = λ i. if i == 0 then key0 else 0;
  pinmux = λ i. 0;
  cfgchip = λ i. 0;
  amute_clear_pulses = 0;
  unlocked = false;
}

opens : (write half_open kick1 key1 4 true).1.unlocked ≡ true
unfolding write store_kick cfgchip_address pinmux_address
opens = refl

unlock_needs_keys_example :
    (kick1 ≡ kick1)
    × (u32 key1 ≡ key1)
    × (◌≡◌ {A = ℕ} 4 4)
    × (true ≡ true)
    × (half_open.kick 0 ≡ key0)
unlock_needs_keys_example = unlock_needs_keys half_open kick1 key1 4 true refl opens
