-- ===== src/Edma/Transfer/Kept.antt =====
-- A service that is not committed leaves the memory as it is.
use cdj2000_emulator.Prelude.{
  ℕ, zero, suc, leb, ◌/◌, ◌^◌, if◌then◌else◌, Bool, true, false, not, Option, none, some, List, [],
  ◌∷◌, ◌≡◌, refl, ◌∙◌,
}
use cdj2000_emulator.Prelude.Arrays.{Array}
use cdj2000_emulator.Edma.{
  Bus, Edma, PendingEvent, PendingQueue, acnt, valid_param, params, service_limit,
}
use cdj2000_emulator.Edma.Transfer.{
  Machine, add_index, transfer_arrays, transfer_bytes, complete_one, drain, service, empty,
  enqueue_all, set_of,
}

-- What `CdjC6747EdmaBus` asks of a write that is not committed: it checks the destination without
-- changing it.
pub record Contract {M : Type 0} (bus : Bus M) : Type 0 where
  pub checks : (m : M) (a : ℕ) (bytes : List ℕ) → (bus.write m a bytes false).1 ≡ m

-- The memory of a round's outcome.
abbrev Keeps : {M : Type 0} → M → Option (Bool × Machine M) → Type 0
Keeps memory none = Unit
Keeps memory (some (ok, m)) = m.memory ≡ memory

module _ {M : Type 0} (bus : Bus M) (law : Contract bus) where
  -- An array whose bytes were read, by whether its destination accepts them.
  array-kept :
      (memory : M) (w : Bool × M) (next : M → Bool × M)
      → w.1 ≡ memory
      → ((m : M) → m ≡ memory → (next m).1 ≡ memory)
      → let r : Bool × M = elim w.0 [ false ↦ (false, w.1) | true ↦ next w.1 ] in r.1 ≡ memory
  array-kept memory (false, m) next e h = e
  array-kept memory (true, m) next e h = h m e

  read-kept :
      (memory m : M) (dst : ℕ) (bytes : Option (List ℕ)) (next : M → Bool × M)
      → m ≡ memory
      → ((m' : M) → m' ≡ memory → (next m').1 ≡ memory)
      → let r : Bool × M = elim bytes [
        | none ↦ (false, m)
        | some bs ↦ elim (bus.write m dst bs false).0 [
          | false ↦ (false, (bus.write m dst bs false).1)
          | true ↦ next (bus.write m dst bs false).1
        ]
      ] in
        r.1 ≡ memory
  read-kept memory m dst none next e h = e
  read-kept memory m dst (some bs) next e h =
      array-kept memory (bus.write m dst bs false) next (law.checks m dst bs ∙ e) h

  transfer_arrays-kept :
      (p : Array ℕ) (arrays src dst : ℕ) (m memory : M)
      → m ≡ memory
      → (transfer_arrays bus false p arrays src dst m).1 ≡ memory
  unfolding transfer_arrays
  transfer_arrays-kept p zero src dst m memory e = e
  transfer_arrays-kept p (suc arrays) src dst m memory e =
      read-kept memory m dst (bus.read m src (acnt p))
        (transfer_arrays bus false p arrays (add_index src (p 4)) (add_index dst (p 4 / 2 ^ 16))) e
        (λ m' e'. transfer_arrays-kept p arrays _ _ m' memory e')

  if_kept :
      {A : Type 0} (f : A → M) (memory : M) (b : Bool) {x y : A}
      → f x ≡ memory
      → f y ≡ memory
      → f (if b then x else y) ≡ memory
  if_kept f memory true p q = p
  if_kept f memory false p q = q

  transfer_bytes-kept :
      (p : Array ℕ) (m memory : M) → m ≡ memory → (transfer_bytes bus false p m).1 ≡ memory
  unfolding transfer_bytes
  transfer_bytes-kept p m memory e =
      if_kept (λ (x : Bool × M). x.1) memory (not (valid_param p)) e
        (transfer_arrays-kept p _ (p 1) (p 3) m memory e)

  complete_one-kept :
      (m : Machine M) (event : PendingEvent) (memory : M)
      → m.memory ≡ memory
      → (complete_one bus false m event).1.memory ≡ memory
  unfolding complete_one
  complete_one-kept m event memory e =
      let moved =
        transfer_bytes-kept (m.registers.param (set_of m.registers event)) m.memory memory e in
      if_kept (λ (x : Bool × Machine M). x.1.memory) memory (leb params (set_of m.registers event))
        e
        (if_kept (λ (x : Bool × Machine M). x.1.memory) memory
          (not (transfer_bytes bus false (m.registers.param (set_of m.registers event)) m.memory).0)
          moved moved)

  -- A round's outcome, before the rounds that are left.
  continue-Keeps :
      (memory : M) (c : Bool × Machine M) (next : Machine M → Option (Bool × Machine M))
      → c.1.memory ≡ memory
      → ((m : Machine M) → m.memory ≡ memory → Keeps memory (next m))
      → Keeps memory (elim c.0 [ false ↦ some (false, c.1) | true ↦ next c.1 ])
  continue-Keeps memory (false, m) next e h = e
  continue-Keeps memory (true, m) next e h = h m e

  -- The rounds, by what is in the queue.
  spent-Keeps :
      (memory : M) (m : Machine M) (items : List PendingEvent)
      → m.memory ≡ memory
      → Keeps memory (elim items [ [] ↦ some (true, m) | event ∷ rest ↦ none ])
  spent-Keeps memory m [] e = e
  spent-Keeps memory m (event ∷ rest) e = tt

  round-Keeps :
      (memory : M) (rounds : ℕ) (m : Machine M) (items : List PendingEvent)
      → m.memory ≡ memory
      → ((m' : Machine M) → m'.memory ≡ memory → Keeps memory (drain bus false rounds m'))
      → Keeps memory (elim items [
        | [] ↦ some (true, m)
        | event ∷ rest ↦
            let r =
              complete_one bus false
                (record m { queue = record { items = rest; tail = m.queue.tail } })
                event in
            elim r.0 [ false ↦ some (false, r.1) | true ↦ drain bus false rounds r.1 ]
      ])
  round-Keeps memory rounds m [] e h = e
  round-Keeps memory rounds m (event ∷ rest) e h =
      continue-Keeps memory
        (complete_one bus false (record m { queue = record { items = rest; tail = m.queue.tail } })
          event)
        (drain bus false rounds)
        (complete_one-kept (record m { queue = record { items = rest; tail = m.queue.tail } }) event
          memory e)
        h

  drain-Keeps :
      (memory : M) (rounds : ℕ) (m : Machine M)
      → m.memory ≡ memory
      → Keeps memory (drain bus false rounds m)
  unfolding drain
  drain-Keeps memory zero m e = spent-Keeps memory m m.queue.items e
  drain-Keeps memory (suc rounds) m e =
      round-Keeps memory rounds m m.queue.items e (drain-Keeps memory rounds)

  drained-kept :
      (s : Edma) (memory : M) (o : Option (Bool × Machine M))
      → Keeps memory o
      → let r : Bool × Edma × M = elim o [
        | none ↦ (false, s, memory)
        | some (ok, m) ↦ (ok, m.registers, m.memory)
      ] in
        r.2 ≡ memory
  drained-kept s memory none e = refl
  drained-kept s memory (some (ok, m)) e = e

  queued-kept :
      (s : Edma) (memory : M) (o : Option PendingQueue)
      → let r : Bool × Edma × M = elim o [
        | none ↦ (false, s, memory)
        | some queue ↦
            elim (drain bus false service_limit
              (record { registers = s; memory = memory; queue = queue })) [
                | none ↦ (false, s, memory)
                | some (ok, m) ↦ (ok, m.registers, m.memory)
              ]
      ] in
        r.2 ≡ memory
  queued-kept s memory none = refl
  queued-kept s memory (some queue) = drained-kept s memory _ (
      drain-Keeps memory service_limit (record { registers = s; memory = memory; queue = queue })
        refl)

  -- The trial of a service, whatever it chains to, leaves the memory.
  pub service-kept :
      (s : Edma) (memory : M) (events : List PendingEvent)
      → (service bus false s memory events).2 ≡ memory
  unfolding service
  service-kept s memory events = queued-kept s memory (enqueue_all empty events)
