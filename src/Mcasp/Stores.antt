-- ===== src/Mcasp/Stores.antt =====
-- emulator/qemu/cdj_c6747_mcasp.c: the stores to the audio ports' control registers and buffers, and the
-- states that a checkpoint may hold.
pub mod Phases
use Prim.Native.Nat.{bit_and, bit_or, bit_xor}
use cdj2000_emulator.Prelude.{
  ℕ, zero, suc, ◌+◌, ◌-◌, ◌*◌, ◌/◌, ◌%◌, ◌^◌, ◌==◌, ◌!=◌, ltb, leb, if◌then◌else◌, Bool, true,
  false, not, ◌&&◌, ◌||◌, Option, none, some,
}
use cdj2000_emulator.Prelude.Arrays.{Array, update}
use cdj2000_emulator.Prelude.Word.{has, not32, u32_max}
use cdj2000_emulator.Mcasp.{
  Port, Control, serializer_count, locate, transmits, active_tx_mask, next_tx_serializer,
  note_xbuf_write,
}

-- `UINT64_MAX`
abbrev pub u64_max : ℕ
u64_max = 2 ^ 64 - 1

pub legal_xfmt : ℕ → Bool
legal_xfmt value =
    let data_delay = value / 2 ^ 16 in
    let pad = bit_and (value / 2 ^ 13) 3 in
    let slot_size = bit_and (value / 2 ^ 4) 15 in
    not (has value (not32 0x3ffff))
    && data_delay != 3
    && pad != 3
    && leb 3 slot_size
    && has slot_size 1

pub legal_afsxctl : ℕ → Bool
legal_afsxctl value =
    let mode = value / 2 ^ 7 in
    not (has value (not32 0xff93)) && (mode == 0 || (leb 2 mode && leb mode 0x20) || mode == 0x180)

pub legal_dlbctl : ℕ → Bool
legal_dlbctl value =
    let mode = bit_and (value / 2 ^ 2) 3 in
    not (has value (not32 0x0f)) && (if has value 1 then mode == 1 else mode == 0)

pub legal_srctl : ℕ → Bool
legal_srctl value =
    let drive = bit_and (value / 2 ^ 2) 3 in
    not (has value (not32 0x0f)) && bit_and value 3 != 3 && drive != 1

-- A test of the first numbers.
unfoldable pub every : ℕ → (ℕ → Bool) → Bool
every zero test = true
every (suc n) test = let rest = every n test in rest && test n

-- The tests of `control_valid` on the registers of an instance.
pub registers_valid : Port → Bool
unfolding legal_dlbctl legal_xfmt legal_afsxctl
registers_valid p =
    leb p.undocumented04 1
    && not (has p.gblctl (not32 0x1f1f))
    && not (has p.amute (not32 0x1fef))
    && bit_and p.amute 3 != 3
    && legal_dlbctl p.dlbctl
    && not (has p.ditctl (not32 0x0d))
    && (p.xfmt == 0 || legal_xfmt p.xfmt)
    && legal_afsxctl p.afsxctl
    && not (has p.aclkxctl (not32 0xff))
    && not (has p.ahclkxctl (not32 0xcfff))
    && not (has p.xintctl (not32 0xbf))
    && not (has p.xstat (not32 0xf7))
    && not (has p.xclkchk (not32 0x00ffff0f))
    && leb (bit_and p.xclkchk 0xf) 8

-- Those on its transmitter.
pub transmitter_valid : Port → ℕ → Bool
unfolding active_tx_mask serializer_count
transmitter_valid p b =
    not (has p.xrdy (not32 (2 ^ serializer_count b - 1)))
    && leb p.xdma_next (serializer_count b)
    && not (has p.xstat 0x20 && not (has p.xrdy (active_tx_mask p b)))
    && leb p.xslot 0x17f

-- The sequence numbers of a serializer, and the word that it shifts.
pub sequence_valid : Port → ℕ → Bool
sequence_valid p n =
    leb (p.xbuf_sequence n) p.xbuf_writes
    && leb (p.xrsr_source_sequence n) (p.xbuf_sequence n)
    && (p.xrsr_source_sequence n != 0 || p.xrsr n == 0)

-- The serializers that an instance has, and those that it has not.
pub serializer_valid : Port → ℕ → ℕ → Bool
unfolding legal_srctl serializer_count
serializer_valid p b n =
    if leb (serializer_count b) n
    then p.srctl n == 0
      && p.xbuf n == 0
      && p.xbuf_sequence n == 0
      && p.xrsr n == 0
      && p.xrsr_source_sequence n == 0
    else legal_srctl (p.srctl n) && not (bit_and (p.xrdy / 2 ^ n) 1 != 0 && not (transmits p n))

pub port_valid : Port → ℕ → Bool
unfolding registers_valid transmitter_valid sequence_valid serializer_valid every serializer_count
port_valid p b =
    registers_valid p
    && transmitter_valid p b
    && every (serializer_count b) (sequence_valid p)
    && every 16 (serializer_valid p b)

-- `cdj_c6747_mcasp_control_valid`
pub control_valid : Control → Bool
unfolding port_valid every
control_valid s = every 3 (λ b. port_valid (s b) b)

pub gblctl_mask : ℕ → ℕ
gblctl_mask o = if o == 0x60 then 0x1f else if o == 0xa0 then 0x1f00 else 0x1f1f

-- The transmit serializers in reset, and leaving it.
pub clear_serializers : Port → ℕ → Port
unfolding serializer_count
clear_serializers p b = record p {
  xrdy = 0;
  xstat = bit_and p.xstat (not32 0x20);
  xdma_next = serializer_count b;
}

pub release_serializers : Port → ℕ → Port
unfolding active_tx_mask next_tx_serializer
release_serializers p b =
    let ready = active_tx_mask p b in
    record p {
      xrdy = ready;
      xdma_next = next_tx_serializer p b 0;
      xstat = if ready == 0 then p.xstat else bit_or p.xstat 0x20;
      axevt_generation =
          if ready == 0 || p.axevt_generation == u64_max
          then p.axevt_generation
          else p.axevt_generation + 1;
    }

pub write_gblctl : Port → ℕ → ℕ → ℕ → Port
unfolding gblctl_mask clear_serializers release_serializers
write_gblctl p b o value =
    let mask = gblctl_mask o in
    let next = bit_or (bit_and p.gblctl (not32 mask)) (bit_and value mask) in
    let rising = bit_and next (not32 p.gblctl) in
    let latched = record p { gblctl = next; xslot = if has next 0x1000 then p.xslot else 0x17f } in
    let armed =
      if not (has next 0x400)
      then clear_serializers latched b
      else if has rising 0x400
      then release_serializers latched b
      else latched in
    if has rising 0x800 && armed.xrdy != 0
    then record armed { xstat = bit_or armed.xstat 1 }
    else armed

-- A store to the DMA port.
pub write_dma : Port → ℕ → ℕ → Bool → Bool × Port
unfolding note_xbuf_write next_tx_serializer serializer_count
write_dma p b v commit =
    let serializer = p.xdma_next in
    let noted = note_xbuf_write p b serializer v in
    if has p.xfmt 8
    then (true, p)
    else if leb (serializer_count b) serializer
    then (true, if commit then record p { xstat = bit_or p.xstat 0x80 } else p)
    else if p.xbuf_writes == u64_max
    then (false, p)
    else (
      true,
      if commit
          then record noted { xdma_next = next_tx_serializer noted b (serializer + 1) }
          else p,
    )

-- A store to a serializer's own buffer.
pub write_xbuf : Port → ℕ → ℕ → ℕ → Bool → Bool × Port
unfolding note_xbuf_write serializer_count
write_xbuf p b serializer v commit =
    if leb (serializer_count b) serializer
    then (false, p)
    else if not (has p.xfmt 8)
    then (true, p)
    else if p.xbuf_writes == u64_max
    then (false, p)
    else (true, if commit then note_xbuf_write p b serializer v else p)

-- A store to a serializer's control.
pub store_srctl : Port → ℕ → ℕ → ℕ → Port
unfolding active_tx_mask next_tx_serializer
store_srctl p b serializer v =
    let stored = record p { srctl = update p.srctl serializer v } in
    let ready = bit_and p.xrdy (not32 (2 ^ serializer)) in
    if bit_and v 3 == 1 then stored else record stored {
      xrdy = ready;
      xdma_next =
          if p.xdma_next == serializer
          then next_tx_serializer stored b (serializer + 1)
          else p.xdma_next;
      xstat = if has ready (active_tx_mask stored b) then p.xstat else bit_and p.xstat (not32 0x20);
    }

-- The registers of the `switch`, and whether a word is legal there.
pub legal : Port → ℕ → ℕ → Bool
unfolding legal_dlbctl legal_xfmt legal_afsxctl
legal p o v =
    if o == 0x44 || o == 0x60 || o == 0xa0
    then not (has v (not32 0x1f1f))
    else if o == 0x48
    then not (has v (not32 0x1fef)) && bit_and v 3 != 3
    else if o == 0x4c
    then legal_dlbctl v
    else if o == 0x50
    then not (has v (not32 0x0d)) && (not (has (bit_xor v p.ditctl) 1) || not (has p.gblctl 0x800))
    else if o == 0xa8
    then legal_xfmt v
    else if o == 0xac
    then legal_afsxctl v
    else if o == 0xb0
    then not (has v (not32 0xff))
    else if o == 0xb4
    then not (has v (not32 0xcfff))
    else if o == 0xbc
    then not (has v (not32 0xbf))
    else if o == 0xc0
    then not (has v 0xffff0000)
    else if o == 0xc8
    then not (has v (not32 0x00ffff0f)) && leb (bit_and v 0xf) 8
    else if o == 0xcc
    then v == 0
    else o == 0xa4 || o == 0xb8

pub stored : Port → ℕ → ℕ → ℕ → Port
unfolding write_gblctl
stored p b o v =
    if o == 0x44 || o == 0x60 || o == 0xa0
    then write_gblctl p b o v
    else if o == 0x48
    then record p { amute = v }
    else if o == 0x4c
    then record p { dlbctl = v }
    else if o == 0x50
    then record p { ditctl = v }
    else if o == 0xa4
    then record p { xmask = v }
    else if o == 0xa8
    then record p { xfmt = v }
    else if o == 0xac
    then record p { afsxctl = v }
    else if o == 0xb0
    then record p { aclkxctl = v }
    else if o == 0xb4
    then record p { ahclkxctl = v }
    else if o == 0xb8
    then record p { xtdm = v }
    else if o == 0xbc
    then record p { xintctl = v }
    else if o == 0xc0
    then record p { xstat = bit_and p.xstat (not32 (bit_and v 0xf7)) }
    else if o == 0xc8
    then record p { xclkchk = v }
    else p

-- The window of an instance, by offset.
pub write_port : Port → ℕ → ℕ → ℕ → Bool → Bool × Port
unfolding write_dma write_xbuf store_srctl legal stored legal_srctl serializer_count
write_port p b o v commit =
    if o == 0x04
    then (v == 1, if v == 1 && commit then record p { undocumented04 = 1 } else p)
    else if o == 0x2000
    then write_dma p b v commit
    else if leb 0x200 o && ltb o 0x240
    then write_xbuf p b ((o - 0x200) / 4) v commit
    else if leb 0x100 o && ltb o 0x160
    then (true, if commit then record p { dit = update p.dit ((o - 0x100) / 4) v } else p)
    else if leb 0x180 o && ltb o 0x1c0
    then (if leb (serializer_count b) ((o - 0x180) / 4) || not (legal_srctl v)
        then (false, p)
        else (true, if commit then store_srctl p b ((o - 0x180) / 4) v else p))
    else if not (legal p o v)
    then (false, p)
    else (true, if commit then stored p b o v else p)

pub control_write_at : Control → ℕ × ℕ → ℕ → Bool → Bool × Control
unfolding write_port
control_write_at s (b, o) value commit =
    let (taken, p) = write_port (s b) b o value commit in (taken, update s b p)

-- `cdj_c6747_mcasp_control_write`
pub control_write : Control → ℕ → ℕ → ℕ → Bool → Bool × Control
unfolding locate control_write_at
control_write s address value size commit =
    if size != 4 || ltb u32_max value then (false, s) else elim (locate address) [
      | none ↦ (false, s)
      | some place ↦ control_write_at s place value commit
    ]
