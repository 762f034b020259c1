-- ===== src/Edma/Transfer.antt =====
-- `transfer_bytes`, `complete_one` and `service`: a request moves its bytes, updates its parameter
-- set, and may raise an interrupt and further requests.
pub mod Rounds
pub mod Kept
use Prim.Native.Nat.{bit_and, bit_or}
use cdj2000_emulator.Prelude.{
  ℕ, zero, suc, ◌+◌, ◌-◌, ◌*◌, ◌/◌, ◌%◌, ◌^◌, ◌==◌, ◌!=◌, ltb, leb, if◌then◌else◌, Bool, true,
  false, not, ◌&&◌, ◌||◌, Option, none, some, List, [], ◌∷◌, ◌++◌,
}
use cdj2000_emulator.Prelude.Arrays.{Array, update}
use cdj2000_emulator.Prelude.Word.{has, not32, u32, u64}
use cdj2000_emulator.Edma.{
  Bus, Edma, EventKind, event_dma, event_qdma, PendingEvent, PendingQueue, enqueue, service_limit,
  params, acnt, bcnt, ccnt, tcc, ab_sync, mapped_set, valid_param, opt_itcchen, opt_tcchen,
  opt_itcinten, opt_tcinten, opt_static,
}

-- `address + (int32_t)(int16_t)index`
pub add_index : ℕ → ℕ → ℕ
add_index address index =
    let low = index % 2 ^ 16 in
    u32 (address + (if ltb low (2 ^ 15) then low else low + (2 ^ 32 - 2 ^ 16)))

-- The end of a block: no frame follows.
pub final : Array ℕ → Bool
final p = (ab_sync p || bcnt p == 1) && ccnt p == 1

-- The parameter set after a request that is not the last of its block.
pub stepped : Array ℕ → Array ℕ
stepped p =
    if ab_sync p
    then moved 6 (update p 7 (ccnt p - 1))
    else if ltb 1 (bcnt p)
    then moved 4 (update p 2 (bit_or (acnt p) ((bcnt p - 1) * 2 ^ 16)))
    else moved 6 (update (update p 2 (bit_or (acnt p) (bit_and (p 5) 0xffff0000))) 7 (ccnt p - 1))
  where
    moved : ℕ → Array ℕ → Array ℕ
    moved i next = update (update next 1 (add_index (p 1) (p i))) 3 (add_index (p 3) (p i / 2 ^ 16))

-- The null set that a block without a link leaves.
pub null_set : Array ℕ
null_set i = if i == 5 then 0xffff else 0

-- The bits that a served request clears.
pub retire : Edma → EventKind → ℕ → Edma
retire s event_dma channel =
    let bit = not32 (2 ^ channel) in
    record s {
      er = bit_and s.er bit;
      esr = bit_and s.esr bit;
      cer = bit_and s.cer bit;
      ser = bit_and s.ser bit;
    }
retire s event_qdma channel =
    let bit = not32 (2 ^ channel) in record s { qer = bit_and s.qer bit; qser = bit_and s.qser bit }

-- The QDMA channels from `q` on that a write of a whole set triggers.
pub qmatches : Edma → ℕ → ℕ → ℕ → List ℕ
qmatches s set zero q = []
qmatches s set (suc rounds) q =
    let rest = qmatches s set rounds (q + 1) in
    if has s.qeer (2 ^ q) && mapped_set (s.qchmap q) == set then q ∷ rest else rest

-- A QDMA event that is pending already is missed.
pub trigger : Edma → ℕ → Edma
trigger s q =
    if has s.qer (2 ^ q)
    then record s { qemr = bit_or s.qemr (2 ^ q) }
    else record s { qer = bit_or s.qer (2 ^ q) }

pub trigger_all : Edma → PendingQueue → List ℕ → Bool × Edma × PendingQueue
trigger_all s queue [] = (true, s, queue)
trigger_all s queue (q ∷ qs) = elim (enqueue queue (event_qdma, q)) [
  | none ↦ (false, trigger s q, queue)
  | some queue' ↦ trigger_all (trigger s q) queue' qs
]

-- The link of the last request of a block, at a link address of the original set.
pub follow_link : Edma → PendingQueue → ℕ → ℕ → Bool × Edma × PendingQueue
follow_link s queue set link =
    if link == 0xffff
    then (true, record s { param = update s.param set null_set }, queue)
    else let s' : Edma = record s {
      param = update s.param set (s.param (bit_and link 0x3fff / 32));
    } in
      trigger_all s' queue (qmatches s' set 8 0)

-- Whether a completion is pending for a region.
pub region_pending : Edma → ℕ → Bool
region_pending s r = bit_and (bit_and s.ipr s.ier) (s.drae r) != 0

-- The regions from `r` on that have become pending.
pub notified : Edma → Edma → ℕ → ℕ → ℕ → ℕ
notified s s' zero r notes = notes
notified s s' (suc rounds) r notes =
    notified s s' rounds (r + 1)
      (if not (region_pending s r) && region_pending s' r then bit_or notes (2 ^ r) else notes)

pub raise : Edma → ℕ → Edma
raise s code =
    let s' : Edma = record s { ipr = bit_or s.ipr (2 ^ code) } in
    record s' { irq_notifications = notified s s' 4 0 s.irq_notifications }

-- A chained event that is pending already is missed.
pub chain : Edma → ℕ → Edma
chain s code =
    if has s.cer (2 ^ code)
    then record s { emr = bit_or s.emr (2 ^ code) }
    else record s { cer = bit_or s.cer (2 ^ code) }

pub count_request : Edma → Array ℕ → Edma
count_request s p = record s {
  transfer_requests = u64 (s.transfer_requests + 1);
  bytes_transferred = u64 (s.bytes_transferred + acnt p * (if ab_sync p then bcnt p else 1));
}

-- The update of the set, which STATIC suppresses.
pub update_set : Edma → PendingQueue → ℕ → Array ℕ → Bool × Edma × PendingQueue
update_set s queue set p =
    if has (p 0) opt_static
    then (true, s, queue)
    else if not (final p)
    then (true, record s { param = update s.param set (stepped p) }, queue)
    else follow_link s queue set (bit_and (p 5) 0xffff)

-- The completion interrupt, and the chained event after it.
pub interrupt : Edma → Array ℕ → Edma
interrupt s p =
    if has (p 0) (if final p then opt_tcinten else opt_itcinten) then raise s (tcc p) else s

pub chained : Edma → PendingQueue → Array ℕ → Bool × Edma × PendingQueue
chained s queue p =
    if has (p 0) (if final p then opt_tcchen else opt_itcchen)
    then elim (enqueue queue (event_dma, tcc p)) [
      | none ↦ (false, chain s (tcc p), queue)
      | some queue' ↦ (true, count_request (chain s (tcc p)) p, queue')
    ]
    else (true, count_request s p, queue)

pub signal : Edma → PendingQueue → Array ℕ → Bool × Edma × PendingQueue
signal s queue p = chained (interrupt s p) queue p

-- What `complete_one` does to the registers and the queue once the bytes are moved.
pub finish : Edma → PendingQueue → PendingEvent → ℕ → Bool × Edma × PendingQueue
finish s queue (kind, channel) set =
    let p = s.param set in
    let (ok, s', queue') = update_set (retire s kind channel) queue set p in
    if ok then signal s' queue' p else (false, s', queue')

-- The parameter set of an event.
pub set_of : Edma → PendingEvent → ℕ
set_of s (event_dma, channel) = channel
set_of s (event_qdma, channel) = mapped_set (s.qchmap channel)

abbrev pub empty : PendingQueue
empty = record { items = []; tail = 0 }

unfoldable pub enqueue_all : PendingQueue → List PendingEvent → Option PendingQueue
enqueue_all queue [] = some queue
enqueue_all queue (event ∷ events) = elim (enqueue queue event) [
  | none ↦ none
  | some queue' ↦ enqueue_all queue' events
]

-- The engine, its client's memory and the queue of a service.
pub record Machine (M : Type 0) : Type 0 where
  pub registers : Edma
  pub memory : M
  pub queue : PendingQueue

module _ {M : Type 0} (bus : Bus M) (commit : Bool) where
  -- The loop of `transfer_bytes` over the arrays.
  pub transfer_arrays : Array ℕ → ℕ → ℕ → ℕ → M → Bool × M
  transfer_arrays p zero src dst memory = (true, memory)
  transfer_arrays p (suc arrays) src dst memory = elim (bus.read memory src (acnt p)) [
    | none ↦ (false, memory)
    | some bytes ↦
        let (accepted, checked) = bus.write memory dst bytes false in
        elim accepted [
          | false ↦ (false, checked)
          | true ↦
              let (done, written) =
                if commit then bus.write checked dst bytes true else (true, checked) in
              elim done [
                | false ↦ (false, written)
                | true ↦
                    transfer_arrays p arrays (add_index src (p 4)) (add_index dst (p 4 / 2 ^ 16))
                      written
              ]
        ]
  ]

  pub transfer_bytes : Array ℕ → M → Bool × M
  transfer_bytes p memory =
      if not (valid_param p)
      then (false, memory)
      else transfer_arrays p (if ab_sync p then bcnt p else 1) (p 1) (p 3) memory

  pub complete_one : Machine M → PendingEvent → Bool × Machine M
  complete_one m event =
      let set = set_of m.registers event in
      if leb params set
      then (false, m)
      else let (moved, memory') = transfer_bytes (m.registers.param set) m.memory in
        if not moved
        then (false, record m { memory = memory' })
        else let (ok, registers', queue') = finish m.registers m.queue event set in
          (ok, record { registers = registers'; memory = memory'; queue = queue' })

  -- The loop of `service`; `none` when the rounds are spent.
  pub drain : ℕ → Machine M → Option (Bool × Machine M)
  drain zero m = elim m.queue.items [ [] ↦ some (true, m) | event ∷ rest ↦ none ]
  drain (suc rounds) m = elim m.queue.items [
    | [] ↦ some (true, m)
    | event ∷ rest ↦
        let (ok, m') =
          complete_one (record m { queue = record { items = rest; tail = m.queue.tail } }) event in
        elim ok [ false ↦ some (false, m') | true ↦ drain rounds m' ]
  ]

  -- `service`, with a round for each event that can be queued.
  pub service : Edma → M → List PendingEvent → Bool × Edma × M
  service s memory initial = elim (enqueue_all empty initial) [
    | none ↦ (false, s, memory)
    | some queue ↦
        elim (drain service_limit (record { registers = s; memory = memory; queue = queue })) [
          | none ↦ (false, s, memory)
          | some (ok, m) ↦ (ok, m.registers, m.memory)
        ]
  ]
