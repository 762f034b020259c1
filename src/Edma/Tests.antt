-- ===== src/Edma/Tests.antt =====
-- Runs of the DMA engine over a memory of a page, and the witnesses of its theorems.
use cdj2000_emulator.Prelude.{
  ℕ, zero, suc, ◌+◌, ◌*◌, ◌^◌, leb, if◌then◌else◌, Bool, true, false, none, some, List, [], ◌∷◌,
  ◌≡◌, ◌&&◌, refl, Bool-cases, inl, inr,
}
use cdj2000_emulator.Prelude.Arrays.{Array, update}
use cdj2000_emulator.Prelude.Lists.{length}
use cdj2000_emulator.Edma.{
  Bus, Edma, event_dma, PendingQueue, enqueue, reset, service_limit, edma_base,
}
use cdj2000_emulator.Edma.Transfer.{Machine, drain, empty, enqueue_all}
use cdj2000_emulator.Edma.Transfer.Rounds.{service-ends}
use cdj2000_emulator.Edma.Transfer.Kept.{Contract}
use cdj2000_emulator.Edma.Registers.{write}
use cdj2000_emulator.Edma.Registers.Check.{write-checked}

abbrev page : ℕ
page = 4096

abbrev Ram : Type 0
Ram = Array ℕ

load : Ram → ℕ → ℕ → List ℕ
load m a zero = []
load m a (suc n) = m a ∷ load m (a + 1) n

store : Ram → ℕ → List ℕ → Ram
store m a [] = m
store m a (b ∷ bs) = store (update m a b) (a + 1) bs

abbrev ram_bus : Bus Ram
ram_bus = record {
  read = λ m a n. if leb (a + n) page then some (load m a n) else none;
  write = λ m a bytes commit. (
    leb (a + length bytes) page,
    if leb (a + length bytes) page then (if commit then store m a bytes else m) else m,
  );
}

ram-Contract : Contract ram_bus
ram-Contract = record {
  checks = λ m a bytes. elim (Bool-cases (leb (a + length bytes) page)) [
    | inl fits ↦ rw fits refl
    | inr ends ↦ rw ends refl
  ];
}

-- One array of four bytes, from 0x100 to 0x200, with a completion interrupt of code 3.
abbrev copy_set : Array ℕ
copy_set =
    update
      (update
        (update (update (update (update (λ i. 0) 0 (2 ^ 20 + 3 * 2 ^ 12)) 1 0x100) 2 0x10004) 3
          0x200)
        5 0xffff)
      7 1

abbrev copying : Edma
copying = record reset {
  param = update (λ set word. 0) 0 copy_set;
  eer = 1;
  ier = 8;
  drae = λ r. 8;
}

abbrev filled : Ram
filled a = a

write-checked_example :
    let check = write ram_bus copying filled (edma_base + 0x1010) 1 4 false in
    let committed = write ram_bus copying filled (edma_base + 0x1010) 1 4 true in
    (check.1 ≡ copying)
    × (check.2 ≡ filled)
    × (committed.0 ≡ (check.0 && committed.0))
    × (committed.2 ≡ (if check.0 then committed.2 else filled))
write-checked_example = write-checked ram_bus ram-Contract copying filled (edma_base + 0x1010) 1 4

abbrev one_event : PendingQueue
one_event = record { items = (event_dma, 0) ∷ []; tail = 1 }

fresh : enqueue_all empty ((event_dma, 0) ∷ []) ≡ some one_event
unfolding enqueue_all enqueue
fresh = refl

service-ends_example :
    (r : Bool × Machine Ram) × (drain ram_bus true service_limit
        (record { registers = copying; memory = filled; queue = one_event })
      ≡ some r)
service-ends_example =
    service-ends ram_bus true copying filled ((event_dma, 0) ∷ []) one_event fresh
