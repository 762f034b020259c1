-- ===== src/Emifb.antt =====
-- emulator/qemu/cdj_c6747_emifb.h and .c: the SDRAM controller's configuration registers with their
-- write protection, and the translation of a transfer to populated SDRAM.
pub mod Sdram
pub mod Config
mod Tests
use Prim.Native.Nat.{bit_and, bit_or}
use cdj2000_emulator.Prelude.{
  ℕ, ◌+◌, ◌-◌, ◌*◌, ◌/◌, ◌%◌, ◌^◌, ◌==◌, ◌!=◌, ltb, leb, if◌then◌else◌, Bool, true, false, not,
  ◌&&◌, ◌||◌, Option, none, some,
}
use cdj2000_emulator.Prelude.Word.{has, not32, u32, u32_max}

-- `CdjC6747Emifb`
pub record Emifb : Type 0 where
  pub sdcfg : ℕ
  pub sdrfc : ℕ
  pub sdtim1 : ℕ
  pub sdtim2 : ℕ
  pub sdcfg2 : ℕ
  pub bprio : ℕ
  pub init_sequences : ℕ

abbrev pub emifb_base : ℕ
emifb_base = 0xb0000000

abbrev pub sdcfg_address : ℕ
sdcfg_address = emifb_base + 0x08

abbrev pub sdrfc_address : ℕ
sdrfc_address = emifb_base + 0x0c

abbrev pub sdtim1_address : ℕ
sdtim1_address = emifb_base + 0x10

abbrev pub sdtim2_address : ℕ
sdtim2_address = emifb_base + 0x14

abbrev pub sdcfg2_address : ℕ
sdcfg2_address = emifb_base + 0x1c

abbrev pub bprio_address : ℕ
bprio_address = emifb_base + 0x20

abbrev pub sdcfg_valid : ℕ
sdcfg_valid = 2 ^ 26 + 2 ^ 25 + 2 ^ 23 + 2 ^ 16 + 2 ^ 15 + 2 ^ 14 + 7 * 2 ^ 9 + 7 * 2 ^ 4 + 7

abbrev pub boot_unlock : ℕ
boot_unlock = 2 ^ 23

abbrev pub sdren : ℕ
sdren = 2 ^ 16

abbrev pub timunlock : ℕ
timunlock = 2 ^ 15

abbrev pub sdtim2_valid : ℕ
sdtim2_valid = 15 * 2 ^ 27 + 127 * 2 ^ 16 + 31

abbrev pub sdrfc_valid : ℕ
sdrfc_valid = 3 * 2 ^ 30 + 2 ^ 23 + 0xffff

pub reset : Emifb
reset = record {
  sdcfg = 0x00010620;
  sdrfc = 0x000004e2;
  sdtim1 = 0x14d93a90;
  sdtim2 = 0x700a0007;
  sdcfg2 = 0;
  bprio = 0xff;
  init_sequences = 0;
}

pub read : Emifb → ℕ → Option ℕ
read s address =
    if address == emifb_base
    then some 0x4033131f
    else if address == sdcfg_address
    then some s.sdcfg
    else if address == sdrfc_address
    then some s.sdrfc
    else if address == sdtim1_address
    then some s.sdtim1
    else if address == sdtim2_address
    then some s.sdtim2
    else if address == sdcfg2_address
    then some s.sdcfg2
    else if address == bprio_address
    then some s.bprio
    else none

pub valid_sdcfg : ℕ → Bool
valid_sdcfg v =
    let cl = bit_and (v / 2 ^ 9) 7 in
    let ibank = bit_and (v / 2 ^ 4) 7 in
    let page = bit_and v 7 in
    not (has v (not32 sdcfg_valid)) && leb 2 cl && leb cl 3 && leb ibank 2 && leb page 3

pub valid_sdcfg2 : ℕ → Bool
valid_sdcfg2 v =
    let pasr = bit_and (v / 2 ^ 16) 7 in
    let rows = bit_and v 7 in
    not (has v (not32 0x00070007)) && pasr != 3 && pasr != 4 && pasr != 7 && leb rows 5

-- The fields that BOOT_UNLOCK protects, and the CAS latency, which TIMUNLOCK protects.
abbrev pub protected : ℕ
protected = 2 ^ 26 + 2 ^ 25 + sdren

abbrev pub cas : ℕ
cas = 7 * 2 ^ 9

-- `(a & ~mask) | (b & mask)`
abbrev pub splice : ℕ → ℕ → ℕ → ℕ
splice mask a b = bit_or (bit_and a (not32 mask)) (bit_and b mask)

-- The value that a committed write leaves in SDCFG.
pub next_sdcfg : ℕ → ℕ → ℕ
next_sdcfg old v =
    let next = splice protected v old in
    let next = if has old boot_unlock then splice protected next v else next in
    if has v timunlock then next else splice cas next old

pub write : Emifb → ℕ → ℕ → ℕ → Bool → Bool × Emifb
write s address v size commit =
    if size != 4 || ltb u32_max v
    then (false, s)
    else if address == sdcfg_address
    then (if not (valid_sdcfg v) then (false, s) else if not commit then (true, s) else (
      true,
      record s { sdcfg = next_sdcfg s.sdcfg v; init_sequences = u32 (s.init_sequences + 1) },
    ))
    else if address == sdrfc_address
    then (if has v (not32 sdrfc_valid)
        then (false, s)
        else if commit
        then (let rate = bit_and v 0xffff in
            let rate = if ltb rate 0x100 then 2 * bit_and (s.sdtim1 / 2 ^ 25) 0x7f else rate in
            (true, record s { sdrfc = bit_or (bit_and v 0xffff0000) rate }))
        else (true, s))
    else if address == sdtim1_address
    then (if has v 7 || ltb (bit_and (v / 2 ^ 11) 0x1f) (bit_and (v / 2 ^ 19) 7)
        then (false, s)
        else if commit && has s.sdcfg timunlock
        then (true, record s { sdtim1 = v })
        else (true, s))
    else if address == sdtim2_address
    then (if has v (not32 sdtim2_valid)
        then (false, s)
        else if commit && has s.sdcfg timunlock
        then (true, record s { sdtim2 = v })
        else (true, s))
    else if address == sdcfg2_address
    then (if not (valid_sdcfg2 v)
        then (false, s)
        else if commit
        then (true, record s { sdcfg2 = v; init_sequences = u32 (s.init_sequences + 1) })
        else (true, s))
    else if address == bprio_address
    then (if has v (not32 0xff)
        then (false, s)
        else if commit
        then (true, record s { bprio = v })
        else (true, s))
    else (false, s)

pub sdram_enabled : Emifb → Bool
sdram_enabled s = has s.sdcfg sdren

-- `cdj_c6747_emifb_sdram_offset`; `size` and `populated_size` are `size_t`.
pub sdram_offset : Emifb → ℕ → ℕ → ℕ → Option ℕ
sdram_offset s address size populated_size =
    if not (sdram_enabled s)
      || size == 0
      || populated_size == 0
      || ltb 0x20000000 populated_size
      || bit_and populated_size (populated_size - 1) != 0
      || ltb address 0xc0000000
      || leb 0xe0000000 address
      || ltb (0xe0000000 - address) size
    then none
    else let physical = bit_and (address - 0xc0000000) (populated_size - 1) in
      if ltb (populated_size - physical) size then none else some physical
