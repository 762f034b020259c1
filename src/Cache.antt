-- ===== src/Cache.antt =====
-- emulator/qemu/cdj_c6747_cache.h and .c: the cache control registers, and the part of the level 1
-- data memory that is addressable under the configured cache size.
pub mod Span
pub mod Phases
mod Tests
use Prim.Native.Nat.{bit_and, bit_or}
use cdj2000_emulator.Prelude.{
  ℕ, ◌+◌, ◌-◌, ◌*◌, ◌/◌, ◌%◌, ◌^◌, ◌==◌, ◌!=◌, ltb, leb, if◌then◌else◌, Bool, true, false, not,
  ◌&&◌, ◌||◌, Option, none, some,
}
use cdj2000_emulator.Prelude.Arrays.{Array, update}
use cdj2000_emulator.Prelude.Word.{has, u32_max}

-- `CdjC6747Cache`
pub record Cache : Type 0 where
  pub l2cfg : ℕ
  pub l1pcfg : ℕ
  pub l1pcc : ℕ
  pub l1dcfg : ℕ
  pub l1dcc : ℕ
  pub block_base : Array ℕ
  pub mar : Array ℕ

abbrev pub cache_base : ℕ
cache_base = 0x01840000

pub mar_supported : ℕ → Bool
mar_supported index =
    (leb 64 index && leb index 103) || index == 128 || (leb 192 index && leb index 223)

-- The SRAM bytes that each L1D cache mode leaves.
pub sram_bytes : ℕ → ℕ
sram_bytes m =
    if m == 0
    then 0x8000
    else if m == 1
    then 0x7000
    else if m == 2
    then 0x6000
    else if m == 3
    then 0x4000
    else 0

-- `cdj_c6747_l1d_sram_span`
pub l1d_sram_span : Cache → ℕ → ℕ → Option ℕ
l1d_sram_span cache address size =
    if size == 0
    then none
    else let base : Option ℕ =
        if leb 0x00f00000 address && ltb address 0x00f08000
        then some 0x00f00000
        else if leb 0x11f00000 address && ltb address 0x11f08000
        then some 0x11f00000
        else none in
      elim base [
        | none ↦ none
        | some b ↦
            let at = address - b in
            let available = sram_bytes (bit_and cache.l1dcfg 7) in
            if ltb available at || ltb (available - at) size then none else some at
      ]

pub reset : Cache
reset = record {
  l2cfg = 0;
  l1pcfg = 7;
  l1pcc = 0;
  l1dcfg = 7;
  l1dcc = 0;
  block_base = λ i. 0;
  mar = λ i. 0;
}

pub block_base_index : ℕ → Option ℕ
block_base_index offset =
    if offset == 0x4000
    then some 0
    else if offset == 0x4010
    then some 1
    else if offset == 0x4018
    then some 2
    else if offset == 0x4020
    then some 3
    else if offset == 0x4030
    then some 4
    else if offset == 0x4040
    then some 5
    else if offset == 0x4048
    then some 6
    else none

pub word_count_offset : ℕ → Bool
word_count_offset o =
    o == 0x4004
    || o == 0x4014
    || o == 0x401c
    || o == 0x4024
    || o == 0x4034
    || o == 0x4044
    || o == 0x404c

pub global_operation_offset : ℕ → Bool
global_operation_offset o =
    o == 0x5000
    || o == 0x5004
    || o == 0x5008
    || o == 0x5028
    || o == 0x5040
    || o == 0x5044
    || o == 0x5048

-- The address checks that both accesses begin with.
abbrev pub unmapped : ℕ → Bool
unmapped address = ltb address cache_base || leb (cache_base + 0x10000) address || has address 3

pub read_at : Cache → ℕ → Option ℕ
read_at cache offset =
    if offset == 0x0000
    then some cache.l2cfg
    else if offset == 0x0020
    then some cache.l1pcfg
    else if offset == 0x0024
    then some cache.l1pcc
    else if offset == 0x0040
    then some cache.l1dcfg
    else if offset == 0x0044
    then some cache.l1dcc
    else if word_count_offset offset || global_operation_offset offset
    then some 0
    else if leb 0x8000 offset && leb offset 0x83fc
    then (let index = (offset - 0x8000) / 4 in
        if not (mar_supported index) then none else some (cache.mar index))
    else none

pub read : Cache → ℕ → Option ℕ
unfolding read_at
read cache address = if unmapped address then none else read_at cache (address - cache_base)

-- The new value of L1PCC and L1DCC: the old operation field moves up to the previous one.
abbrev pub shift_mode : ℕ → ℕ → ℕ
shift_mode old word = bit_or (bit_and old 1 * 2 ^ 16) (bit_and word 1)

-- The state after a store that is accepted; `none` for a refusal.
pub store_at : Cache → ℕ → ℕ → Bool → Option Cache
store_at cache offset word commit =
    if offset == 0x0000
    then some (if commit then record cache { l2cfg = bit_and word 0xf } else cache)
    else if offset == 0x0020
    then some (if commit then record cache { l1pcfg = bit_and word 7 } else cache)
    else if offset == 0x0024
    then some (if commit then record cache { l1pcc = shift_mode cache.l1pcc word } else cache)
    else if offset == 0x0040
    then some (if commit then record cache { l1dcfg = bit_and word 7 } else cache)
    else if offset == 0x0044
    then some (if commit then record cache { l1dcc = shift_mode cache.l1dcc word } else cache)
    else elim (block_base_index offset) [
      | some index ↦ some (
          if commit
          then record cache { block_base = update cache.block_base index word }
          else cache)
      | none ↦
          if word_count_offset offset || global_operation_offset offset
          then some cache
          else if leb 0x8000 offset && leb offset 0x83fc
          then (let index = (offset - 0x8000) / 4 in
              if not (mar_supported index)
              then none
              else some (
                  if commit
                  then record cache { mar = update cache.mar index (bit_and word 1) }
                  else cache))
          else none
    ]

unfoldable pub write : Cache → ℕ → ℕ → ℕ → Bool → Bool × Cache
write cache address value size commit =
    if size != 4 || ltb u32_max value || unmapped address
    then (false, cache)
    else elim (store_at cache (address - cache_base) value commit) [
      | none ↦ (false, cache)
      | some cache' ↦ (true, cache')
    ]
