-- ===== src/Edma/Registers/Check.antt =====
-- The check of each register write, and the trial run of a service that it makes.
use Prim.Native.Nat.{bit_or}
use cdj2000_emulator.Prelude.{
  ℕ, ◌-◌, ◌^◌, ◌==◌, ◌!=◌, ltb, leb, if◌then◌else◌, Bool, true, false, not, ◌&&◌, Option, none,
  some, List, [], ◌∷◌, ◌≡◌, refl,
}
use cdj2000_emulator.Prelude.Word.{has}
use cdj2000_emulator.Edma.{Bus, Edma, PendingEvent, locate}
use cdj2000_emulator.Edma.Transfer.{service, region_pending}
use cdj2000_emulator.Edma.Transfer.Kept.{Contract, service-kept}
use cdj2000_emulator.Edma.Registers.{
  attempt, attempt_some, write_channel, write_param, write_at, write_located, write, event,
  channel_view,
}

-- A check that changes nothing, and whose refusal its commit repeats, with nothing moved.
record Foretells {M : Type 0} (s : Edma) (memory : M) (c d : Bool × Edma × M) : Type 0 where
  registers : c.1 ≡ s
  unmoved : c.2 ≡ memory
  refusal : d.0 ≡ (c.0 && d.0)
  stopped : d.2 ≡ (if c.0 then d.2 else memory)

if_Foretells :
    {M : Type 0} {s : Edma} {memory : M} (b : Bool) {x y x' y' : Bool × Edma × M}
    → Foretells s memory x x'
    → Foretells s memory y y'
    → Foretells s memory (if b then x else y) (if b then x' else y')
if_Foretells true f g = f
if_Foretells false f g = g

module _ {M : Type 0} (s : Edma) (memory : M) where
  answers : (ok : Bool) (s' : Edma) → Foretells s memory (ok, s, memory) (ok, s', memory)
  answers true s' = record { registers = refl; unmoved = refl; refusal = refl; stopped = refl }
  answers false s' = record { registers = refl; unmoved = refl; refusal = refl; stopped = refl }

  -- A trial run that leaves the memory, and the run after it.
  tried-Foretells :
      (run : M → Bool × Edma × M) (trial : Bool × Edma × M)
      → trial.2 ≡ memory
      → Foretells s memory
          (elim trial.0 [ false ↦ (false, s, trial.2) | true ↦ (true, s, trial.2) ])
          (elim trial.0 [ false ↦ (false, s, trial.2) | true ↦ run trial.2 ])
  tried-Foretells run (false, e, x) f = record {
    registers = refl;
    unmoved = f;
    refusal = refl;
    stopped = f;
  }
  tried-Foretells run (true, e, x) f = record {
    registers = refl;
    unmoved = f;
    refusal = refl;
    stopped = refl;
  }

module _ {M : Type 0} (bus : Bus M) (law : Contract bus) (s : Edma) (memory : M) where
  attempt-Foretells :
      (events : List PendingEvent) (preview prepared : Edma)
      → Foretells s memory
          (attempt bus s memory events preview prepared false)
          (attempt bus s memory events preview prepared true)
  unfolding attempt
  attempt-Foretells events preview prepared =
      tried-Foretells s memory (λ x. service bus true prepared x events)
        (service bus false preview memory events) (service-kept bus law preview memory events)

  attempt_some-Foretells :
      (events : List PendingEvent) (preview prepared : Edma)
      → Foretells s memory
          (attempt_some bus s memory events preview prepared false)
          (attempt_some bus s memory events preview prepared true)
  unfolding attempt_some
  attempt_some-Foretells [] preview prepared = answers s memory true prepared
  attempt_some-Foretells (event ∷ events) preview prepared =
      attempt-Foretells (event ∷ events) preview prepared

  write_param-Foretells :
      (set word : ℕ) (words : List ℕ)
      → Foretells s memory
          (write_param bus s memory set word words false)
          (write_param bus s memory set word words true)
  unfolding write_param
  write_param-Foretells set word words =
      if_Foretells _ (answers s memory false s) (attempt_some-Foretells _ _ _)

  ieval-Foretells :
      (value : ℕ) (region : Option ℕ)
      → Foretells s memory
          (elim region [
            | none ↦ (true, s, memory)
            | some r ↦
                if false && value != 0 && region_pending s r
                then (
                  true,
                  record s { irq_notifications = bit_or s.irq_notifications (2 ^ r) },
                  memory,
                )
                else (true, s, memory)
          ])
          (elim region [
            | none ↦ (true, s, memory)
            | some r ↦
                if true && value != 0 && region_pending s r
                then (
                  true,
                  record s { irq_notifications = bit_or s.irq_notifications (2 ^ r) },
                  memory,
                )
                else (true, s, memory)
          ])
  ieval-Foretells value none = answers s memory true s
  ieval-Foretells value (some r) = pulse (value != 0 && region_pending s r) _
    where
      pulse :
          (b : Bool) (s' : Edma)
          → Foretells s memory
              (true, s, memory)
              (if b then (true, s', memory) else (true, s, memory))
      pulse true s' = answers s memory true s'
      pulse false s' = answers s memory true s

  write_channel-Foretells :
      (local dmask qmask : ℕ) (region : Option ℕ) (value : ℕ)
      → Foretells s memory
          (write_channel bus s memory local dmask qmask region value false)
          (write_channel bus s memory local dmask qmask region value true)
  unfolding write_channel
  write_channel-Foretells local dmask qmask region value =
      if_Foretells (local == 0x08) (answers s memory true _) (
        if_Foretells (local == 0x10) (attempt-Foretells _ _ _) (
          if_Foretells (local == 0x28) (answers s memory true _) (
            if_Foretells (local == 0x30) (attempt_some-Foretells _ _ _) (
              if_Foretells (local == 0x40) (answers s memory true _) (
                if_Foretells (local == 0x58) (answers s memory true _) (
                  if_Foretells (local == 0x60) (answers s memory true _) (
                    if_Foretells (local == 0x70) (answers s memory true _) (
                      if_Foretells (local == 0x78)
                        (if_Foretells (ltb 1 value) (answers s memory false s)
                          (ieval-Foretells value region))
                        (if_Foretells (local == 0x88) (answers s memory _ _) (
                          if_Foretells (local == 0x8c) (answers s memory _ _) (
                            if_Foretells (local == 0x94) (answers s memory _ _)
                              (answers s memory false s))))))))))))

  legal-Foretells :
      (b : Bool) (s' : Edma)
      → Foretells s memory
          (if not b then (false, s, memory) else (true, s, memory))
          (if not b then (false, s, memory) else (true, s', memory))
  legal-Foretells true s' = answers s memory true s'
  legal-Foretells false s' = answers s memory false s

  channel-Foretells :
      (view : Option (ℕ × ℕ × ℕ × Option ℕ)) (v : ℕ)
      → Foretells s memory
          (elim view [
            | none ↦ (false, s, memory)
            | some (local, dmask, qmask, region) ↦
                write_channel bus s memory local dmask qmask region v false
          ])
          (elim view [
            | none ↦ (false, s, memory)
            | some (local, dmask, qmask, region) ↦
                write_channel bus s memory local dmask qmask region v true
          ])
  channel-Foretells none v = answers s memory false s
  channel-Foretells (some (local, dmask, qmask, region)) v =
      write_channel-Foretells local dmask qmask region v

  write_at-Foretells :
      (o v : ℕ)
      → Foretells s memory (write_at bus s memory o v false) (write_at bus s memory o v true)
  unfolding write_at
  write_at-Foretells o v = if_Foretells (leb 0x200 o && leb o 0x21c) (legal-Foretells _ _) (
      if_Foretells (leb 0x240 o && leb o 0x24c) (legal-Foretells _ _) (
        if_Foretells (o == 0x260) (legal-Foretells _ _) (
          if_Foretells (o == 0x308) (answers s memory true _) (
            if_Foretells (o == 0x314) (legal-Foretells _ _) (
              if_Foretells (o == 0x31c) (legal-Foretells _ _) (
                if_Foretells (o == 0x320) (answers s memory _ s) (
                  if_Foretells (leb 0x340 o && leb o 0x358 && not (has (o - 0x340) 7))
                    (answers s memory true _)
                    (if_Foretells (leb 0x380 o && leb o 0x38c) (legal-Foretells _ _) (
                      if_Foretells (o == 0x620) (legal-Foretells _ _)
                        (channel-Foretells (channel_view s o) v))))))))))

  write_located-Foretells :
      (o value size : ℕ)
      → Foretells s memory
          (write_located bus s memory o value size false)
          (write_located bus s memory o value size true)
  unfolding write_located
  write_located-Foretells o value size = if_Foretells _ (answers s memory false s) (
      if_Foretells (leb 0x4000 o && ltb o 0x5000) (write_param-Foretells _ _ _)
        (write_at-Foretells o _))

  located-Foretells :
      (at : Option ℕ) (value size : ℕ)
      → Foretells s memory
          (elim at [
            | none ↦ (false, s, memory)
            | some o ↦ write_located bus s memory o value size false
          ])
          (elim at [
            | none ↦ (false, s, memory)
            | some o ↦ write_located bus s memory o value size true
          ])
  located-Foretells none value size = answers s memory false s
  located-Foretells (some o) value size = write_located-Foretells o value size

  -- On a bus whose checks change nothing, the check of a register write changes neither the registers
  -- nor the memory, whatever requests it tries; and where it refuses, the commit of the same write
  -- refuses too and leaves the memory as it was.
  pub write-checked :
      (address value size : ℕ)
      → let check = write bus s memory address value size false in
        let committed = write bus s memory address value size true in
        (check.1 ≡ s)
        × (check.2 ≡ memory)
        × (committed.0 ≡ (check.0 && committed.0))
        × (committed.2 ≡ (if check.0 then committed.2 else memory))
  unfolding write
  write-checked address value size =
      let f = located-Foretells (locate address) value size in
      (f.registers, f.unmoved, f.refusal, f.stopped)
