-- ===== src/Cache/Span.antt =====
-- Which spans of the level 1 data memory are addressable, and what a reconfiguration takes away.
use Prim.Native.Nat.{bit_and}
use cdj2000_emulator.Prelude.{ℕ, ◌+◌, ◌≤◌, ◌<◌, true, none, some, ◌≡◌, ◌⊎◌, arith}
use cdj2000_emulator.Prelude.Bits.{bit_and-mask}
use cdj2000_emulator.Cache.{Cache, cache_base, sram_bytes, l1d_sram_span, store_at, write}

-- A translated span is not empty and lies within the bytes that the configured mode leaves, which
-- are 32 KiB at most; it comes from the local or the global window, and the two windows alias.
l1d_sram_span_sound :
    (cache : Cache) (address size : ℕ) {offset : ℕ}
    → l1d_sram_span cache address size ≡ some offset
    → (offset + size ≤ sram_bytes (bit_and cache.l1dcfg 7))
      × (sram_bytes (bit_and cache.l1dcfg 7) ≤ 0x8000)
      × (0 < size)
      × ((address ≡ 0x00f00000 + offset) ⊎ (address ≡ 0x11f00000 + offset))
unfolding l1d_sram_span sram_bytes
l1d_sram_span_sound cache address size h = ground arith

-- Every span within the bytes that the mode leaves is translated in both windows, to the same place.
pub l1d_sram_span_complete :
    (cache : Cache) (offset size : ℕ)
    → 0 < size
    → offset + size ≤ sram_bytes (bit_and cache.l1dcfg 7)
    → (l1d_sram_span cache (0x00f00000 + offset) size ≡ some offset)
      × (l1d_sram_span cache (0x11f00000 + offset) size ≡ some offset)
unfolding l1d_sram_span sram_bytes
l1d_sram_span_complete cache offset size p h = ground arith

-- Writing a cache mode of four to seven to L1DCFG leaves no byte addressable.
pub l1dcfg_hides :
    (cache : Cache) (m address size : ℕ)
    → 4 ≤ m
    → m ≤ 7
    → let (ok, cache') = write cache (cache_base + 0x40) m 4 true in
      (ok ≡ true) × (l1d_sram_span cache' address size ≡ none)
unfolding write store_at l1d_sram_span sram_bytes
l1dcfg_hides cache m address size h k =
    ground (arith, bit_and-mask 3 m, bit_and-mask 3 (bit_and m 7))
