-- ===== src/Mcasp.antt =====
-- emulator/qemu/cdj_c6747_mcasp.h and .c: the pins of the three audio ports, and the state of their
-- transmitters. The stores are in Mcasp/Stores, the slots and the clocks in Mcasp/Slots.
pub mod Stores
pub mod Slots
use Prim.Native.Nat.{bit_and, bit_or}
use cdj2000_emulator.Prelude.{
  ℕ, zero, suc, ◌+◌, ◌-◌, ◌*◌, ◌/◌, ◌%◌, ◌^◌, ◌==◌, ◌!=◌, ltb, leb, if◌then◌else◌, Bool, true,
  false, not, ◌&&◌, ◌||◌, Option, none, some,
}
use cdj2000_emulator.Prelude.Arrays.{Array, update}
use cdj2000_emulator.Prelude.Word.{has, not32, u32, u32_max, u64}

-- `CdjC6747Mcasp`
pub record Pins : Type 0 where
  pub pfunc : Array ℕ
  pub pdir : Array ℕ
  pub pdout : Array ℕ

-- One instance of `CdjC6747McaspControl`, whose arrays are indexed by the instance first.
pub record Port : Type 0 where
  pub undocumented04 : ℕ
  pub gblctl : ℕ
  pub amute : ℕ
  pub dlbctl : ℕ
  pub ditctl : ℕ
  pub xmask : ℕ
  pub xfmt : ℕ
  pub afsxctl : ℕ
  pub aclkxctl : ℕ
  pub ahclkxctl : ℕ
  pub xtdm : ℕ
  pub xintctl : ℕ
  pub xstat : ℕ
  pub xclkchk : ℕ
  pub dit : Array ℕ
  pub srctl : Array ℕ
  pub xrdy : ℕ
  pub xbuf : Array ℕ
  pub xdma_next : ℕ
  pub xbuf_sequence : Array ℕ
  pub xbuf_writes : ℕ
  pub axevt_generation : ℕ
  pub xrsr : Array ℕ
  pub xslot : ℕ
  pub xrsr_source_sequence : Array ℕ
  pub tx_slot_boundaries : ℕ

-- `CdjC6747McaspControl`
abbrev pub Control : Type 0
Control = Array Port

-- The tables `pin_mask` and `serializer_count`.
pub pin_mask : ℕ → ℕ
pin_mask b = if b == 0 then 0xfe00ffff else if b == 1 then 0xfe000fff else 0xfe00000f

pub serializer_count : ℕ → ℕ
serializer_count b = if b == 0 then 16 else if b == 1 then 12 else 4

-- `locate`, the bank and the offset.
pub locate : ℕ → Option (ℕ × ℕ)
locate address =
    if ltb address 0x01d00000 || leb 0x01d0c000 address || has address 3
    then none
    else some ((address - 0x01d00000) / 0x4000, (address - 0x01d00000) % 0x4000)

pub control_write_mapped : ℕ → ℕ → Bool
unfolding locate
control_write_mapped address size =
    if size == 4 then elim (locate address) [ none ↦ false | some place ↦ true ] else false

pub reset : Pins
reset = record { pfunc = λ b. 0; pdir = λ b. 0; pdout = λ b. 0 }

pub read_at : Pins → ℕ × ℕ → Option ℕ
read_at s (b, o) =
    if o == 0x10
    then some (s.pfunc b)
    else if o == 0x14
    then some (s.pdir b)
    else if o == 0x18
    then some (s.pdout b)
    else none

pub read : Pins → ℕ → Option ℕ
unfolding locate read_at
read s address = elim (locate address) [ none ↦ none | some place ↦ read_at s place ]

pub store_at : Pins → ℕ × ℕ → ℕ → Pins
store_at s (b, o) value =
    if o == 0x10
    then record s { pfunc = update s.pfunc b value }
    else if o == 0x14
    then record s { pdir = update s.pdir b value }
    else if o == 0x18
    then record s { pdout = update s.pdout b value }
    else if o == 0x1c
    then record s { pdout = update s.pdout b (bit_or (s.pdout b) value) }
    else if o == 0x20
    then record s { pdout = update s.pdout b (bit_and (s.pdout b) (not32 value)) }
    else s

pub write_at : Pins → ℕ × ℕ → ℕ → Bool → Bool × Pins
unfolding store_at pin_mask
write_at s (b, o) value commit =
    if ltb o 0x10 || ltb 0x20 o || has value (not32 (pin_mask b))
    then (false, s)
    else (true, if commit then store_at s (b, o) value else s)

pub write : Pins → ℕ → ℕ → ℕ → Bool → Bool × Pins
unfolding locate write_at
write s address value size commit =
    if size != 4 || ltb u32_max value
    then (false, s)
    else elim (locate address) [ none ↦ (false, s) | some place ↦ write_at s place value commit ]

pub control_reset : Control
unfolding serializer_count
control_reset b = record {
  undocumented04 = 0;
  gblctl = 0;
  amute = 0;
  dlbctl = 0;
  ditctl = 0;
  xmask = 0;
  xfmt = 0;
  afsxctl = 0;
  aclkxctl = 0x60;
  ahclkxctl = 0x8000;
  xtdm = 0;
  xintctl = 0;
  xstat = 0;
  xclkchk = 0;
  dit = λ n. 0;
  srctl = λ n. 0;
  xrdy = 0;
  xbuf = λ n. 0;
  xdma_next = serializer_count b;
  xbuf_sequence = λ n. 0;
  xbuf_writes = 0;
  axevt_generation = 0;
  xrsr = λ n. 0;
  xslot = 0x17f;
  xrsr_source_sequence = λ n. 0;
  tx_slot_boundaries = 0;
}

-- A serializer that transmits.
abbrev pub transmits : Port → ℕ → Bool
transmits p n = bit_and (p.srctl n) 3 == 1

-- The loop of `active_tx_mask`, over the first serializers.
pub active_from : ℕ → Port → ℕ
active_from zero p = 0
active_from (suc n) p =
    let mask = active_from n p in if transmits p n then bit_or mask (2 ^ n) else mask

pub active_tx_mask : Port → ℕ → ℕ
unfolding active_from serializer_count
active_tx_mask p b = active_from (serializer_count b) p

-- The loop of `next_tx_serializer`, with the serializers that are left.
pub next_from : ℕ → Port → ℕ → ℕ
next_from zero p n = n
next_from (suc rounds) p n =
    let rest = next_from rounds p (n + 1) in if transmits p n then n else rest

pub next_tx_serializer : Port → ℕ → ℕ → ℕ
unfolding next_from serializer_count
next_tx_serializer p b after =
    if leb (serializer_count b) after
    then serializer_count b
    else next_from (serializer_count b - after) p after

pub note_xbuf_write : Port → ℕ → ℕ → ℕ → Port
unfolding active_tx_mask
note_xbuf_write p b serializer value =
    let ready = bit_and p.xrdy (not32 (2 ^ serializer)) in
    record p {
      xbuf = update p.xbuf serializer value;
      xbuf_writes = u64 (p.xbuf_writes + 1);
      xbuf_sequence = update p.xbuf_sequence serializer (u64 (p.xbuf_writes + 1));
      xrdy = ready;
      xstat = if has ready (active_tx_mask p b) then p.xstat else bit_and p.xstat (not32 0x20);
    }

pub axevt_ready : Control → ℕ → Bool
axevt_ready s b = ltb b 3 && has (s b).xstat 0x20

pub xstat_read : Port → ℕ
xstat_read p =
    let value = bit_or (bit_and p.xstat 0xf7) ((if has p.xslot 1 then 0 else 1) * 2 ^ 3) in
    if has value 0x87 then bit_or value 0x100 else value

-- The registers of `control_read` that have a case.
pub read_named : Port → ℕ → Option ℕ
unfolding xstat_read
read_named p o =
    if o == 0x44 || o == 0x60 || o == 0xa0
    then some p.gblctl
    else if o == 0x48
    then some p.amute
    else if o == 0x4c
    then some p.dlbctl
    else if o == 0x50
    then some p.ditctl
    else if o == 0xa4
    then some p.xmask
    else if o == 0xa8
    then some p.xfmt
    else if o == 0xac
    then some p.afsxctl
    else if o == 0xb0
    then some p.aclkxctl
    else if o == 0xb4
    then some p.ahclkxctl
    else if o == 0xb8
    then some p.xtdm
    else if o == 0xbc
    then some p.xintctl
    else if o == 0xc0
    then some (xstat_read p)
    else if o == 0xc4
    then some p.xslot
    else if o == 0xc8
    then some p.xclkchk
    else if o == 0xcc
    then some 0
    else none

pub read_port : Port → ℕ → ℕ → Option ℕ
unfolding read_named serializer_count
read_port p b o = elim (read_named p o) [
  | some value ↦ some value
  | none ↦
      if leb 0x100 o && ltb o 0x160 && not (has o 3)
      then some (p.dit ((o - 0x100) / 4))
      else if leb 0x180 o && ltb o 0x1c0 && not (has o 3)
      then (if leb (serializer_count b) ((o - 0x180) / 4)
          then none
          else some (
              bit_or (p.srctl ((o - 0x180) / 4))
                (bit_and (p.xrdy / 2 ^ ((o - 0x180) / 4)) 1 * 2 ^ 4)))
      else none
]

pub control_read : Control → ℕ → Option ℕ
unfolding locate read_port
control_read s address = elim (locate address) [ none ↦ none | some (b, o) ↦ read_port (s b) b o ]
