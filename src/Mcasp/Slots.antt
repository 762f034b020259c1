-- ===== src/Mcasp/Slots.antt =====
-- emulator/qemu/cdj_c6747_mcasp.h and .c: the transmitter's slots, and the rates of its clocks.
pub mod Words
pub mod Frame
pub mod Round
mod Tests
use Prim.Native.Nat.{bit_and, bit_or}
use cdj2000_emulator.Prelude.{
  ℕ, zero, suc, ◌+◌, ◌*◌, ◌/◌, ◌%◌, ◌^◌, ◌==◌, ◌!=◌, ltb, leb, if◌then◌else◌, Bool, true, false,
  not, ◌&&◌, ◌||◌, Option, none, some,
}
use cdj2000_emulator.Prelude.Arrays.{Array, update}
use cdj2000_emulator.Prelude.Word.{has, u32, u32_max}
use cdj2000_emulator.Mcasp.{Port, Control, serializer_count, active_tx_mask, next_tx_serializer}
use cdj2000_emulator.Mcasp.Stores.{u64_max}

abbrev pub ahclkx : ℕ
ahclkx = 0

abbrev pub aclkx : ℕ
aclkx = 1

abbrev pub afsx : ℕ
afsx = 2

-- The factor by which AFSX divides ACLKX, if the registers fix one.
pub frame_divider : Port → Option ℕ
frame_divider p =
    let slots = p.afsxctl / 2 ^ 7 in
    let slot_size = bit_and (p.xfmt / 2 ^ 4) 15 in
    if has p.ditctl 1
      || not (has p.afsxctl 2)
      || ltb slots 2
      || ltb 0x20 slots
      || ltb slot_size 3
      || not (has slot_size 1)
    then none
    else some (slots * 2 * (slot_size + 1))

-- `cdj_c6747_mcasp_tx_clock_hz`, the numerator and the denominator.
pub tx_clock_hz : Control → ℕ → ℕ → ℕ → Option (ℕ × ℕ)
unfolding frame_divider
tx_clock_hz s b auxclk_hz tap =
    let p = s b in
    let high = bit_and p.ahclkxctl 0xfff + 1 in
    let bits = u32 (high * (bit_and p.aclkxctl 0x1f + 1)) in
    if leb 3 b || auxclk_hz == 0 || ltb afsx tap || not (has p.ahclkxctl 0x8000)
    then none
    else if tap == ahclkx
    then some (auxclk_hz, high)
    else if not (has p.aclkxctl 0x20)
    then none
    else if tap == aclkx
    then some (auxclk_hz, bits)
    else elim (frame_divider p) [ none ↦ none | some frame ↦ some (auxclk_hz, u32 (bits * frame)) ]

-- The slots of a frame: 384 subframes of DIT, or those of TDM; none for a frame that is not modelled.
pub frame_slots : Port → Option ℕ
frame_slots p =
    let mode = p.afsxctl / 2 ^ 7 in
    if has p.ditctl 1
    then (if mode != 0x180 || p.xtdm != u32_max then none else some 0x180)
    else if ltb mode 2 || ltb 32 mode
    then none
    else some mode

pub next_slot : ℕ → ℕ → ℕ
next_slot current slots = if current == 0x17f || current + 1 == slots then 0 else current + 1

-- A serializer takes the word of its buffer, if that is a new one.
pub shift_out : Port → ℕ → Port
shift_out p n = record p {
  xrsr = update p.xrsr n (p.xbuf n);
  xrsr_source_sequence = update p.xrsr_source_sequence n (p.xbuf_sequence n);
}

-- The loop of a slot over the first serializers: the port, and whether one had no new word.
pub shift_from : ℕ → ℕ → Port → Port × Bool
unfolding shift_out
shift_from zero active p = (p, false)
shift_from (suc n) active p =
    let (q, underrun) = shift_from n active p in
    if not (has active (2 ^ n))
    then (q, underrun)
    else if ltb (q.xrsr_source_sequence n) (q.xbuf_sequence n)
    then (shift_out q n, underrun)
    else (q, true)

-- A slot that transmits.
pub transmit : Port → ℕ → Port
unfolding shift_from active_tx_mask next_tx_serializer serializer_count
transmit p b =
    let active = active_tx_mask p b in
    let (q, underrun) = shift_from (serializer_count b) active p in
    record q {
      xrdy = active;
      xdma_next = next_tx_serializer q b 0;
      xstat = bit_or (if underrun then bit_or q.xstat 1 else q.xstat) 0x20;
      axevt_generation = q.axevt_generation + 1;
    }

-- The slot of a port whose frame has `slots`; `none` where the code returns false, else `axevt`.
pub slot_at : Port → ℕ → ℕ → Option (Bool × Port)
unfolding next_slot transmit
slot_at p b slots =
    let next = next_slot p.xslot slots in
    let active = has p.ditctl 1 || has p.xtdm (2 ^ next) in
    let moved = record p { xslot = next; tx_slot_boundaries = p.tx_slot_boundaries + 1 } in
    if p.xslot != 0x17f && leb slots p.xslot
    then none
    else if p.tx_slot_boundaries == u64_max || (active && p.axevt_generation == u64_max)
    then none
    else if not active
    then some (false, moved)
    else some (true, transmit moved b)

pub tx_slot_port : Port → ℕ → Option (Bool × Port)
unfolding frame_slots slot_at active_tx_mask
tx_slot_port p b =
    if bit_and p.gblctl 0x1f00 != 0x1f00 || active_tx_mask p b == 0
    then none
    else elim (frame_slots p) [ none ↦ none | some slots ↦ slot_at p b slots ]

-- `cdj_c6747_mcasp_tx_slot`
pub tx_slot : Control → ℕ → Option (Bool × Control)
unfolding tx_slot_port
tx_slot s b =
    if leb 3 b
    then none
    else elim (tx_slot_port (s b) b) [ none ↦ none | some (axevt, p) ↦ some (axevt, update s b p) ]
