-- ===== src/Mcasp/Slots/Round.antt =====
-- The slots of a frame come round.
use cdj2000_emulator.Prelude.{
  ℕ, zero, suc, ◌+◌, ◌%◌, ◌≤◌, ◌<◌, ◌!=◌, leb, Bool, false, ◌&&◌, ◌≡◌, refl, ap, ◌∙◌, arith, sym,
  Option, some, none,
}
use native.Mathlib.Nat.{mod-eq_of_lt, mod-lt}
use cdj2000_emulator.Mcasp.{Port}
use cdj2000_emulator.Mcasp.Stores.{u64_max}
use cdj2000_emulator.Mcasp.Slots.{next_slot, tx_slot_port}
use cdj2000_emulator.Mcasp.Slots.Frame.{
  next_slot-mod, Runs, Passed, slot_at-Passes, tx_slot_port-frame,
}

-- `n` boundaries, if none of them is refused.
pub boundaries : ℕ → ℕ → Port → Option Port
boundaries zero b p = some p
boundaries (suc n) b p = elim (tx_slot_port p b) [
  | none ↦ none
  | some (axevt, q) ↦ boundaries n b q
]

after : ℕ → ℕ → Option (Bool × Port) → Option Port
after n b o = elim o [ none ↦ none | some (axevt, q) ↦ boundaries n b q ]

-- One boundary from a state in which the slot is 17Fh or one of the frame.
passes :
    (b slots : ℕ) (p : Port)
    → Runs b slots p
    → (p.xslot != 0x17f && leb slots p.xslot) ≡ false
    → p.tx_slot_boundaries < u64_max
    → p.axevt_generation < u64_max
    → (r : Bool × Port) × (tx_slot_port p b ≡ some r) × Passed b slots p r.1
passes b slots p r inside h k =
    let (q, e, f) = (slot_at-Passes b slots p r inside h k).result in
    (q, tx_slot_port-frame b slots p r ∙ e, f)

in_frame : (slots c : ℕ) (x : ℕ) → 2 ≤ slots → x ≡ c % slots → (x != 0x17f && leb slots x) ≡ false
in_frame slots c x h e =
    let low : c % slots < slots = mod-lt c (omega (arith, h)) in ground (arith, e, low)

-- From slot `c` of the frame on.
module _ (b slots : ℕ) (least : 2 ≤ slots) (most : slots ≤ 0x180) where
  from_slot :
      (n c : ℕ) (p : Port)
      → Runs b slots p
      → p.xslot ≡ c % slots
      → p.tx_slot_boundaries + n ≤ u64_max
      → p.axevt_generation + n ≤ u64_max
      → (q : Port) × (boundaries n b p ≡ some q)
        × (q.xslot ≡ (c + n) % slots)
        × (q.tx_slot_boundaries ≡ p.tx_slot_boundaries + n)
  unfolding boundaries after
  from_slot zero c p r e h k =
      (p, refl, e ∙ ap (λ m. m % slots) {x = c} {y = c + 0} (omega arith), omega arith)
  from_slot (suc n) c p r e h k =
      let (first, ran, f) =
        passes b slots p r (in_frame slots c p.xslot least e) (omega (arith, h))
          (omega (arith, k)) in
      let entered = f.next ∙ ap (λ x. next_slot x slots) e ∙ next_slot-mod slots c least most in
      let (q, rest, slot, count) =
        from_slot n (suc c) first.1 f.runs entered (omega (arith, f.passed, h))
          (omega (arith, f.events, k)) in
      (
        q,
        ap (after n b) ran ∙ rest,
        slot ∙ ap (λ m. m % slots) {x = suc c + n} {y = c + suc n} (omega arith),
        omega (arith, count, f.passed),
      )

-- A transmitter that runs in frames of two to 384 slots, in the slot in which its reset leaves it (17Fh)
-- and with room in its two counters, passes every boundary: the one numbered n, from 0, enters slot
-- n modulo the frame's length, and each counts.
pub tx_slot-round :
    (n b slots : ℕ) (p : Port)
    → 2 ≤ slots
    → slots ≤ 0x180
    → Runs b slots p
    → p.xslot ≡ 0x17f
    → p.tx_slot_boundaries + suc n ≤ u64_max
    → p.axevt_generation + suc n ≤ u64_max
    → (q : Port) × (boundaries (suc n) b p ≡ some q)
      × (q.xslot ≡ n % slots)
      × (q.tx_slot_boundaries ≡ p.tx_slot_boundaries + suc n)
unfolding boundaries after next_slot
tx_slot-round n b slots p least most r e h k =
    let (first, ran, f) =
      passes b slots p r (ground (arith, e)) (omega (arith, h)) (omega (arith, k)) in
    let zeroth : first.1.xslot ≡ 0 % slots =
      f.next ∙ ground (arith, e) ∙ sym (mod-eq_of_lt {n = 0} {m = slots} (omega arith)) in
    let (q, rest, slot, count) =
      from_slot b slots least most n 0 first.1 f.runs zeroth (omega (arith, f.passed, h))
        (omega (arith, f.events, k)) in
    (
      q,
      ap (after n b) ran ∙ rest,
      slot ∙ ap (λ m. m % slots) {x = 0 + n} {y = n} (omega arith),
      omega (arith, count, f.passed),
    )
