-- ===== src/Cache/Tests.antt =====
-- Spans after reset and with the cache off, and the theorems there.

use cdj2000_emulator.Prelude.{◌+◌, ◌≡◌, refl, true, arith, none, some}
use cdj2000_emulator.Cache.{Cache, cache_base, sram_bytes, l1d_sram_span, write}
use cdj2000_emulator.Cache.Span.{l1dcfg_hides}

-- A cache of the second mode, which leaves 24 KiB.
abbrev partial : Cache
partial = record {
  l2cfg = 0;
  l1pcfg = 7;
  l1pcc = 0;
  l1dcfg = 2;
  l1dcc = 0;
  block_base = λ i. 0;
  mar = λ i. 0;
}

spans : l1d_sram_span partial 0x11f00020 8 ≡ some 0x20
unfolding l1d_sram_span sram_bytes
spans = refl

l1dcfg_hides_example :
    let (ok, cache') = write partial (cache_base + 0x40) 7 4 true in
    (ok ≡ true) × (l1d_sram_span cache' 0x00f00020 8 ≡ none)
l1dcfg_hides_example = l1dcfg_hides partial 7 0x00f00020 8 (omega arith) (omega arith)
