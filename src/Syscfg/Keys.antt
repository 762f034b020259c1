-- ===== src/Syscfg/Keys.antt =====
-- The KICK protection: what unlocks, and that nothing changes while it is locked.
use cdj2000_emulator.Prelude.{ℕ, ◌==◌, Bool, true, false, ◌≡◌, arith}
use cdj2000_emulator.Prelude.Word.{u32, IsWord}
use cdj2000_emulator.Syscfg.{
  Syscfg, kick0, kick1, key0, key1, pinmux_address, cfgchip_address, store_cfgchip, store_kick,
  write,
}

-- While the keys are not in, no write changes the pin multiplexing, the chip configuration or the
-- mute pulses, whatever its address, size and value, and whether or not it is accepted.
locked_protects :
    (s : Syscfg) (address value size : ℕ) (commit : Bool)
    → s.unlocked ≡ false
    → let s' = (write s address value size commit).1 in
      (s'.pinmux ≡ s.pinmux)
      × (s'.cfgchip ≡ s.cfgchip)
      × (s'.amute_clear_pulses ≡ s.amute_clear_pulses)
unfolding write store_kick
locked_protects s address value size commit l = ground arith

-- A locked configuration is unlocked by one write only: a committed word write of the second key to
-- KICK1 while KICK0 holds the first.
pub unlock_needs_keys :
    (s : Syscfg) (address value size : ℕ) (commit : Bool)
    → s.unlocked ≡ false
    → (write s address value size commit).1.unlocked ≡ true
    → (address ≡ kick1) × (u32 value ≡ key1) × (size ≡ 4) × (commit ≡ true) × (s.kick 0 ≡ key0)
unfolding write store_kick store_cfgchip cfgchip_address pinmux_address
unlock_needs_keys s address value size commit l u = ground arith

-- The two keys in order unlock from any state, and a word that is not the key of its register locks
-- again.
unlock_lock :
    (s : Syscfg) (v : ℕ)
    → IsWord v
    → let s' = (write (write s kick0 key0 4 true).1 kick1 key1 4 true).1 in
      (s'.unlocked ≡ true)
      × ((write s' kick0 v 4 true).1.unlocked ≡ (v == key0))
      × ((write s' kick1 v 4 true).1.unlocked ≡ (v == key1))
unfolding write store_kick store_cfgchip cfgchip_address pinmux_address
unlock_lock s v w = ground arith
