-- ===== src/Edma/Registers.antt =====
-- The register window of the engine, its events and its interrupt pulses.
pub mod Check
use Prim.Native.Nat.{bit_and, bit_or}
use cdj2000_emulator.Prelude.{
  ℕ, zero, suc, ◌+◌, ◌-◌, ◌*◌, ◌/◌, ◌%◌, ◌^◌, ◌==◌, ◌!=◌, ltb, leb, if◌then◌else◌, Bool, true,
  false, not, ◌&&◌, ◌||◌, Option, none, some, List, [], ◌∷◌, ◌++◌,
}
use cdj2000_emulator.Prelude.Arrays.{Array, update}
use cdj2000_emulator.Prelude.Lists.{length}
use cdj2000_emulator.Prelude.Word.{has, not32, u32, u32_max}
use cdj2000_emulator.Edma.{
  Bus, Edma, event_dma, event_qdma, PendingEvent, locate, legal_opt, legal_queue_map, legal_qchmap,
  mapped_set,
}
use cdj2000_emulator.Edma.Transfer.{service, region_pending}

pub write_mapped : ℕ → ℕ → Bool
write_mapped address size =
    (size == 4 || size == 8) && elim (locate address) [ none ↦ false | some o ↦ true ]

-- `channel_view`: the local offset, the masks of the DMA and the QDMA channels, and the region, which
-- is `none` for the global view.
pub channel_view : Edma → ℕ → Option (ℕ × ℕ × ℕ × Option ℕ)
channel_view s offset =
    if leb 0x1000 offset && leb offset 0x1094
    then some (offset - 0x1000, u32_max, 0xff, none)
    else if leb 0x2000 offset && ltb offset 0x2800
    then (let r = (offset - 0x2000) / 0x200 in
        let within = (offset - 0x2000) % 0x200 in
        if leb 4 r || ltb 0x94 within
        then none
        else some (within, s.drae r, bit_and (s.qrae r) 0xff, some r))
    else none

pub read_channel : Edma → ℕ → ℕ → ℕ → Option ℕ
read_channel s local dmask qmask =
    if local == 0x00 || local == 0x08
    then some (bit_and s.er dmask)
    else if local == 0x10
    then some (bit_and s.esr dmask)
    else if local == 0x18
    then some (bit_and s.cer dmask)
    else if local == 0x20 || local == 0x28 || local == 0x30
    then some (bit_and s.eer dmask)
    else if local == 0x38 || local == 0x40
    then some (bit_and s.ser dmask)
    else if local == 0x50 || local == 0x58 || local == 0x60
    then some (bit_and s.ier dmask)
    else if local == 0x68
    then some (bit_and s.ipr dmask)
    else if local == 0x70
    then some 0
    else if local == 0x80
    then some (bit_and s.qer qmask)
    else if local == 0x84 || local == 0x88 || local == 0x8c
    then some (bit_and s.qeer qmask)
    else if local == 0x90 || local == 0x94
    then some (bit_and s.qser qmask)
    else none

pub read_at : Edma → ℕ → Option ℕ
read_at s o =
    if leb 0x4000 o && ltb o 0x5000
    then some (s.param ((o - 0x4000) / 32) ((o - 0x4000) % 32 / 4))
    else if o == 0x000
    then some 0x40015300
    else if o == 0x004
    then some 0x00213344
    else if leb 0x200 o && leb o 0x21c
    then some (s.qchmap ((o - 0x200) / 4))
    else if leb 0x240 o && leb o 0x24c
    then some (s.dmaqnum ((o - 0x240) / 4))
    else if o == 0x260
    then some s.qdmaqnum
    else if o == 0x300 || o == 0x308
    then some s.emr
    else if o == 0x310 || o == 0x314
    then some s.qemr
    else if o == 0x318 || o == 0x31c
    then some s.ccerr
    else if leb 0x340 o && leb o 0x358 && not (has (o - 0x340) 7)
    then some (s.drae ((o - 0x340) / 8))
    else if leb 0x380 o && leb o 0x38c
    then some (s.qrae ((o - 0x380) / 4))
    else if o == 0x600 || o == 0x604 || o == 0x640
    then some 0
    else if o == 0x620
    then some s.qwmthra
    else elim (channel_view s o) [
      | none ↦ none
      | some (local, dmask, qmask, region) ↦ read_channel s local dmask qmask
    ]

pub read : Edma → ℕ → Option ℕ
read s address = elim (locate address) [ none ↦ none | some o ↦ read_at s o ]

-- The DMA channels of a word, from `channel` on, as events.
pub channels : ℕ → ℕ → ℕ → List PendingEvent
channels word zero channel = []
channels word (suc rounds) channel =
    let rest = channels word rounds (channel + 1) in
    if has word (2 ^ channel) then (event_dma, channel) ∷ rest else rest

-- The words of a parameter set that a write of one or two takes.
pub legal_words : ℕ → List ℕ → Bool
legal_words word [] = true
legal_words word (v ∷ vs) =
    not (word == 0 && not (legal_opt v) || word == 7 && has v 0xffff0000)
    && legal_words (word + 1) vs

pub store_words : Array ℕ → ℕ → List ℕ → Array ℕ
store_words p word [] = p
store_words p word (v ∷ vs) = store_words (update p word v) (word + 1) vs

-- The enabled QDMA channels from `q` on that are mapped to a set and triggered by a word of a span.
pub triggered : Edma → ℕ → ℕ → ℕ → ℕ → ℕ → List ℕ
triggered s set word words zero q = []
triggered s set word words (suc rounds) q =
    let rest = triggered s set word words rounds (q + 1) in
    let trigger = bit_and (s.qchmap q / 2 ^ 2) 7 in
    if has s.qeer (2 ^ q)
      && mapped_set (s.qchmap q) == set
      && leb word trigger
      && ltb trigger (word + words)
    then q ∷ rest
    else rest

pub qdma_events : List ℕ → List PendingEvent
qdma_events [] = []
qdma_events (q ∷ qs) = (event_qdma, q) ∷ qdma_events qs

pub mark : ℕ → List ℕ → ℕ
mark bits [] = bits
mark bits (q ∷ qs) = mark (bit_or bits (2 ^ q)) qs

module _ {M : Type 0} (bus : Bus M) where
  -- A service is tried first on a copy of the registers, which `before` prepares, and takes place,
  -- if it is to be committed, on the registers that `prepared` has.
  pub attempt : Edma → M → List PendingEvent → Edma → Edma → Bool → Bool × Edma × M
  attempt s memory events preview prepared commit =
      let (ok, previewed, checked) = service bus false preview memory events in
      elim ok [
        | false ↦ (false, s, checked)
        | true ↦ if not commit then (true, s, checked) else service bus true prepared checked events
      ]

  -- Only events that there are are serviced.
  pub attempt_some : Edma → M → List PendingEvent → Edma → Edma → Bool → Bool × Edma × M
  attempt_some s memory [] preview prepared commit =
      (true, (if commit then prepared else s), memory)
  attempt_some s memory (event ∷ events) preview prepared commit =
      attempt s memory (event ∷ events) preview prepared commit

  -- `write_channel`
  pub write_channel : Edma → M → ℕ → ℕ → ℕ → Option ℕ → ℕ → Bool → Bool × Edma × M
  write_channel s memory local dmask qmask region value commit =
      let d = bit_and value dmask in
      let q = bit_and value qmask in
      let becomes : Edma → Bool × Edma × M = λ s'. (true, (if commit then s' else s), memory) in
      if local == 0x08
      then becomes (record s { er = bit_and s.er (not32 d) })
      else if local == 0x10
      then (let s' : Edma = record s { esr = bit_or s.esr d } in
          attempt s memory (channels d 32 0) s' s' commit)
      else if local == 0x28
      then becomes (record s { eer = bit_and s.eer (not32 d) })
      else if local == 0x30
      then (let s' : Edma = record s { eer = bit_or s.eer d } in
          attempt_some s memory (channels (bit_and d s.er) 32 0) s' s' commit)
      else if local == 0x40
      then becomes (record s { ser = bit_and s.ser (not32 d) })
      else if local == 0x58
      then becomes (record s { ier = bit_and s.ier (not32 d) })
      else if local == 0x60
      then becomes (record s { ier = bit_or s.ier d })
      else if local == 0x70
      then becomes (record s { ipr = bit_and s.ipr (not32 d) })
      else if local == 0x78
      then (if ltb 1 value then (false, s, memory) else elim region [
        | none ↦ (true, s, memory)
        | some r ↦
            if commit && value != 0 && region_pending s r
            then (true, record s { irq_notifications = bit_or s.irq_notifications (2 ^ r) }, memory)
            else (true, s, memory)
      ])
      else let ends : Edma → Bool × Edma × M =
          λ s'. (not (has value (not32 0xff)), (if commit then s' else s), memory) in
        if local == 0x88
        then ends (record s { qeer = bit_and s.qeer (not32 q) })
        else if local == 0x8c
        then ends (record s { qeer = bit_or s.qeer q })
        else if local == 0x94
        then ends (record s { qser = bit_and s.qser (not32 q) })
        else (false, s, memory)

  -- A write to the parameter sets: every word of it is checked first, and the QDMA channels whose
  -- trigger word is among them are serviced.
  pub write_param : Edma → M → ℕ → ℕ → List ℕ → Bool → Bool × Edma × M
  write_param s memory set word words commit =
      if not (legal_words word words)
      then (false, s, memory)
      else let stored : Edma = record s {
        param = update s.param set (store_words (s.param set) word words);
      } in
        let matches = triggered s set word (length words) 8 0 in
        attempt_some s memory (qdma_events matches) stored
          (record stored { qer = mark s.qer matches }) commit

  -- The registers between the parameter sets and the channels.
  pub write_at : Edma → M → ℕ → ℕ → Bool → Bool × Edma × M
  write_at s memory o v commit =
      let ends : Bool → Edma → Bool × Edma × M = λ legal s'.
        if not legal then (false, s, memory) else (true, (if commit then s' else s), memory) in
      if leb 0x200 o && leb o 0x21c
      then ends (legal_qchmap v) (record s { qchmap = update s.qchmap ((o - 0x200) / 4) v })
      else if leb 0x240 o && leb o 0x24c
      then ends (legal_queue_map v) (record s { dmaqnum = update s.dmaqnum ((o - 0x240) / 4) v })
      else if o == 0x260
      then ends (legal_queue_map v) (record s { qdmaqnum = v })
      else if o == 0x308
      then ends true (record s { emr = bit_and s.emr (not32 v) })
      else if o == 0x314
      then ends (not (has v (not32 0xff))) (record s { qemr = bit_and s.qemr (not32 v) })
      else if o == 0x31c
      then ends (not (has v (not32 0x00030003))) (record s { ccerr = bit_and s.ccerr (not32 v) })
      else if o == 0x320
      then (leb v 1, s, memory)
      else if leb 0x340 o && leb o 0x358 && not (has (o - 0x340) 7)
      then ends true (record s { drae = update s.drae ((o - 0x340) / 8) v })
      else if leb 0x380 o && leb o 0x38c
      then ends (not (has v (not32 0xff))) (record s { qrae = update s.qrae ((o - 0x380) / 4) v })
      else if o == 0x620
      then ends (not (has v (not32 0x1f1f))) (record s { qwmthra = v })
      else elim (channel_view s o) [
        | none ↦ (false, s, memory)
        | some (local, dmask, qmask, region) ↦
            write_channel s memory local dmask qmask region v commit
      ]

  -- A write at an offset in the window.
  pub write_located : Edma → M → ℕ → ℕ → ℕ → Bool → Bool × Edma × M
  write_located s memory o value size commit =
      if size != 4 && size != 8
        || size == 8 && (ltb o 0x4000 || leb 0x5000 o || ltb 24 (bit_and o 31))
        || size == 4 && ltb u32_max value
      then (false, s, memory)
      else if leb 0x4000 o && ltb o 0x5000
      then write_param s memory ((o - 0x4000) / 32) ((o - 0x4000) % 32 / 4)
          (if size == 4 then u32 value ∷ [] else u32 value ∷ u32 (value / 2 ^ 32) ∷ []) commit
      else write_at s memory o (u32 value) commit

  -- `cdj_c6747_edma_write`
  pub write : Edma → M → ℕ → ℕ → ℕ → Bool → Bool × Edma × M
  write s memory address value size commit = elim (locate address) [
    | none ↦ (false, s, memory)
    | some o ↦ write_located s memory o value size commit
  ]

  -- `cdj_c6747_edma_event`
  pub event : Edma → M → ℕ → Bool × Edma × M
  event s memory channel =
      let bit = 2 ^ channel in
      if leb 32 channel
      then (false, s, memory)
      else if not (has s.eer bit)
      then (true, record s { er = bit_or s.er bit }, memory)
      else let missed : Edma = if has s.er bit then record s { emr = bit_or s.emr bit } else s in
        let asserted : Edma = record missed { er = bit_or s.er bit } in
        attempt s memory ((event_dma, channel) ∷ []) asserted asserted true

pub irq_pending : Edma → ℕ → Bool
irq_pending s region = ltb region 4 && region_pending s region

pub take_irq_notification : Edma → ℕ → Bool × Edma
take_irq_notification s region =
    if leb 4 region || not (has s.irq_notifications (2 ^ region))
    then (false, s)
    else (true, record s { irq_notifications = bit_and s.irq_notifications (not32 (2 ^ region)) })
