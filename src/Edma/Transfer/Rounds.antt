-- ===== src/Edma/Transfer/Rounds.antt =====
-- The rounds of the loop of `service`, and the events that its queue counts.

use cdj2000_emulator.Prelude.{
  ℕ, zero, suc, ◌+◌, ◌≤◌, ◌<◌, ◌==◌, leb, Bool, true, false, not, Option, some, List, [], ◌∷◌, ◌++◌,
  ◌≡◌, refl, arith, Bool-cases, inl, inr,
}
use mathlib.Core.Path.{subst}
use mathlib.Core.Option.{some-injective, none-ne-some}
use cdj2000_emulator.Prelude.Lists.{length, length-append}
use cdj2000_emulator.Prelude.Cases.{if_keeps}
use cdj2000_emulator.Edma.{
  tcc, Bus, Edma, event_qdma, event_dma, PendingEvent, PendingQueue, enqueue, service_limit,
}
use cdj2000_emulator.Prelude.Word.{has}
use cdj2000_emulator.Edma.{opt_static, params}
use cdj2000_emulator.Edma.Transfer.{
  set_of, transfer_bytes, Machine, trigger, trigger_all, follow_link, update_set, signal, chained,
  finish, complete_one, drain, retire, empty, enqueue_all, final,
}

-- What a step may do to the queue: each event that it adds is counted, up to the limit.
record Grows (q q' : PendingQueue) : Type 0 where
  counted : length q'.items + q.tail ≡ length q.items + q'.tail
  more : q.tail ≤ q'.tail
  below : q'.tail ≤ service_limit

-- The same of the result of a step.
record Grown (q : PendingQueue) (r : Bool × Edma × PendingQueue) : Type 0 where
  grows : Grows q r.2

-- The queue with one event more.
abbrev added : PendingQueue → PendingEvent → PendingQueue
added q event = record { items = q.items ++ (event ∷ []); tail = q.tail + 1 }

module _ (q : PendingQueue) (h : q.tail ≤ service_limit) where
  same : Grows q q
  same = omega arith

  same-Grown : (ok : Bool) (s : Edma) → Grown q (ok, s, q)
  same-Grown ok s = record { grows = same }

  added-Grows : (event : PendingEvent) → q.tail < service_limit → Grows q (added q event)
  added-Grows event k = record {
    counted = omega (arith, length-append q.items (event ∷ []));
    more = omega arith;
    below = omega arith;
  }

  further : (q' q'' : PendingQueue) → Grows q q' → Grows q' q'' → Grows q q''
  further q' q'' g g' = omega (arith, g.counted, g.more, g.below, g'.counted, g'.more, g'.below)

trigger_all-Grows :
    (s : Edma) (q : PendingQueue) (qs : List ℕ)
    → q.tail ≤ service_limit
    → Grows q (trigger_all s q qs).2
unfolding trigger_all enqueue
trigger_all-Grows s q [] h = ground arith
trigger_all-Grows s q (c ∷ cs) h = ground (
  arith,
  length-append q.items ((event_qdma, c) ∷ []),
  trigger_all-Grows (trigger s c) (added q (event_qdma, c)) cs,
)

follow_link-Grown :
    (s : Edma) (q : PendingQueue) (set link : ℕ)
    → q.tail ≤ service_limit
    → Grown q (follow_link s q set link)
unfolding follow_link
follow_link-Grown s q set link h =
    if_keeps (Grown q) (link == 0xffff) (λ _. same-Grown q h _ _)
      (λ _. record { grows = trigger_all-Grows _ q _ h })

update_set-Grown :
    (s : Edma) (q : PendingQueue) (set : ℕ) (p : ℕ → ℕ)
    → q.tail ≤ service_limit
    → Grown q (update_set s q set p)
unfolding update_set
update_set-Grown s q set p h =
    if_keeps (Grown q) (has (p 0) opt_static) (λ _. same-Grown q h _ _)
      (λ _.
        if_keeps (Grown q) (not (final p)) (λ _. same-Grown q h _ _)
          (λ _. follow_link-Grown s q set _ h))

signal-Grows :
    (s : Edma) (q : PendingQueue) (p : ℕ → ℕ) → q.tail ≤ service_limit → Grows q (signal s q p).2
unfolding signal chained enqueue
signal-Grows s q p h = ground (arith, length-append q.items ((event_dma, tcc p) ∷ []))

finish-Grown :
    (s : Edma) (q : PendingQueue) (event : PendingEvent) (set : ℕ)
    → q.tail ≤ service_limit
    → Grown q (finish s q event set)
unfolding finish
finish-Grown s q (kind, channel) set h =
    let first = (update_set-Grown (retire s kind channel) q set (s.param set) h).grows in
    if_keeps (Grown q) (update_set (retire s kind channel) q set (s.param set)).0
      (λ _. record { grows = further q h _ _ first (signal-Grows _ _ (s.param set) first.below) })
      (λ _. record { grows = first })

-- The same of a machine.
record GrownMachine {M : Type 0} (q : PendingQueue) (r : Bool × Machine M) : Type 0 where
  grows : Grows q r.1.queue

complete_one-Grows :
    {M : Type 0} (bus : Bus M) (commit : Bool) (m : Machine M) (event : PendingEvent)
    → m.queue.tail ≤ service_limit
    → GrownMachine m.queue (complete_one bus commit m event)
unfolding complete_one
complete_one-Grows bus commit m event h =
    if_keeps (GrownMachine m.queue) (leb params (set_of m.registers event))
      (λ _. record { grows = same m.queue h })
      (λ _.
        if_keeps (GrownMachine m.queue)
          (not
            (transfer_bytes bus commit (m.registers.param (set_of m.registers event)) m.memory).0)
          (λ _. record { grows = same m.queue h })
          (λ _. record { grows = (finish-Grown m.registers m.queue event _ h).grows }))

continues {ℓ} :
    {R : Type ℓ} (b : Bool) (x : R) (y : Option R)
    → (r : R) × (y ≡ some r)
    → (r : R) × ((elim b [ false ↦ some x | true ↦ y ]) ≡ some r)
continues true x y h = h
continues false x y h = (x, refl)

-- The loop of `service` ends by itself if the rounds are as many as the events that can still be
-- served: the limit, less those that were served already.
pub drain-ends :
    {M : Type 0} (bus : Bus M) (commit : Bool) (rounds : ℕ) (s : Edma) (memory : M)
    (items : List PendingEvent) (tail : ℕ)
    → tail ≤ service_limit
    → service_limit + length items ≤ rounds + tail
    → let start : Machine M = record {
      registers = s;
      memory = memory;
      queue = record { items = items; tail = tail };
    } in
      (r : Bool × Machine M) × (drain bus commit rounds start ≡ some r)
unfolding drain
drain-ends bus commit zero s memory [] tail h k = (_, refl)
drain-ends bus commit zero s memory (event ∷ rest) tail h k = absurd (omega arith)
drain-ends bus commit (suc rounds) s memory [] tail h k = (_, refl)
drain-ends {M} bus commit (suc rounds) s memory (event ∷ rest) tail h k =
    continues (complete_one bus commit taken event).0 _ _ (
      let next = (complete_one bus commit taken event).1 in
      let grows = (complete_one-Grows bus commit taken event h).grows in
      drain-ends bus commit rounds next.registers next.memory next.queue.items next.queue.tail
        grows.below (omega (arith, grows.counted)))
  where
    taken : Machine M
    taken = record { registers = s; memory = memory; queue = record { items = rest; tail = tail } }

-- A queue from which nothing was served yet.
record Fresh (q : PendingQueue) : Type 0 where
  whole : length q.items ≡ q.tail
  fits : q.tail ≤ service_limit

enqueue_all-Fresh :
    (events : List PendingEvent) (q q' : PendingQueue)
    → Fresh q
    → enqueue_all q events ≡ some q'
    → Fresh q'
unfolding enqueue_all enqueue
enqueue_all-Fresh [] q q' f e = subst Fresh (some-injective _ _ e) f
enqueue_all-Fresh (event ∷ events) q q' f e = elim (Bool-cases (leb service_limit q.tail)) [
  | inl full ↦ absurd (none-ne-some q' (rw (enqueue_all, enqueue, full) at e))
  | inr room ↦
      enqueue_all-Fresh events (added q event) q'
        (record {
          whole = omega (arith, f.whole, length-append q.items (event ∷ []));
          fits = ground (arith, f.fits);
        })
        (rw (enqueue_all, enqueue, room) at e)
]

-- As many rounds as the limit on the events are enough for the loop of a service to end by itself,
-- whatever events it starts with and however many requests they chain and link to.
pub service-ends :
    {M : Type 0} (bus : Bus M) (commit : Bool) (s : Edma) (memory : M) (events : List PendingEvent)
    (queue : PendingQueue)
    → enqueue_all empty events ≡ some queue
    → (r : Bool × Machine M) × (drain bus commit service_limit
          (record { registers = s; memory = memory; queue = queue })
        ≡ some r)
service-ends bus commit s memory events queue e =
    let f = enqueue_all-Fresh events empty queue (record { whole = refl; fits = omega arith }) e in
    drain-ends bus commit service_limit s memory queue.items queue.tail f.fits
      (omega (arith, f.whole))
