-- ===== src/Mcasp/Slots/Frame.antt =====
-- What a boundary leaves of a transmitter that runs.
use Prim.Native.Nat.{bit_and}
use cdj2000_emulator.Prelude.{
  ℕ, zero, suc, ◌+◌, ◌%◌, ◌^◌, ◌≤◌, ◌<◌, ◌==◌, ◌!=◌, ltb, leb, Bool, true, false, not, ◌&&◌, ◌||◌,
  ◌≡◌, refl, ap, ◌∙◌, arith, sym, eq-cases, inl, inr, Option, some,
}
use native.Mathlib.Nat.{mod-eq_of_lt, mod-lt, mod-add-mod, mod_self}
use cdj2000_emulator.Prelude.Cases.{if_keeps}
use cdj2000_emulator.Prelude.Word.{has}
use cdj2000_emulator.Mcasp.{Port, serializer_count, active_from, active_tx_mask}
use cdj2000_emulator.Mcasp.Stores.{u64_max}
use cdj2000_emulator.Mcasp.Slots.{
  next_slot, frame_slots, slot_at, shift_out, shift_from, transmit, tx_slot_port,
}
use cdj2000_emulator.Mcasp.Slots.Words.{moved}

pub next_slot-mod :
    (slots n : ℕ) → 2 ≤ slots → slots ≤ 0x180 → next_slot (n % slots) slots ≡ suc n % slots
unfolding next_slot
next_slot-mod slots n h k =
    let r = n % slots in
    let low : r < slots = mod-lt n (omega arith) in
    let stepped : suc n % slots ≡ (r + 1) % slots =
      ap (λ (m : ℕ). m % slots) {x = suc n} {y = n + 1} (omega arith)
      ∙ sym (mod-add-mod n slots 1) in
    elim (eq-cases (r + 1) slots) [
      | inl last ↦ ground (arith, stepped, ap (λ (m : ℕ). m % slots) last, mod_self slots)
      | inr more ↦
          ground (arith, stepped, mod-eq_of_lt {n = r + 1} {m = slots} (omega (arith, low)))
    ]

-- The registers that fix a frame, and the counts, which a slot's words do not change.
record Held (p q : Port) : Type 0 where
  gblctl : q.gblctl ≡ p.gblctl
  ditctl : q.ditctl ≡ p.ditctl
  afsxctl : q.afsxctl ≡ p.afsxctl
  xtdm : q.xtdm ≡ p.xtdm
  srctl : q.srctl ≡ p.srctl
  xslot : q.xslot ≡ p.xslot
  passed : q.tx_slot_boundaries ≡ p.tx_slot_boundaries
  events : q.axevt_generation ≡ p.axevt_generation

same_port : (p : Port) → Held p p
same_port p = record {
  gblctl = refl;
  ditctl = refl;
  afsxctl = refl;
  xtdm = refl;
  srctl = refl;
  xslot = refl;
  passed = refl;
  events = refl;
}

shift_out-Held : (p q : Port) (n : ℕ) → Held p q → Held p (shift_out q n)
unfolding shift_out
shift_out-Held p q n h = record {
  gblctl = h.gblctl;
  ditctl = h.ditctl;
  afsxctl = h.afsxctl;
  xtdm = h.xtdm;
  srctl = h.srctl;
  xslot = h.xslot;
  passed = h.passed;
  events = h.events;
}

shift_from-Held : (n active : ℕ) (p : Port) → Held p (shift_from n active p).0
unfolding shift_from
shift_from-Held zero active p = same_port p
shift_from-Held (suc n) active p =
    let q = (shift_from n active p).0 in
    let held = shift_from-Held n active p in
    if_keeps (λ (x : Port × Bool). Held p x.0) (not (has active (2 ^ n))) (λ _. held)
      (λ _.
        if_keeps (λ (x : Port × Bool). Held p x.0)
          (ltb (q.xrsr_source_sequence n) (q.xbuf_sequence n)) (λ _. shift_out-Held p q n held)
          (λ _. held))

-- A transmitter that runs, in frames of `slots` slots.
pub record Runs (b slots : ℕ) (p : Port) : Type 0 where
  pub released : bit_and p.gblctl 0x1f00 ≡ 0x1f00
  pub active : (active_tx_mask p b == 0) ≡ false
  pub frame : frame_slots p ≡ some slots

active_from-srctl : (n : ℕ) (p q : Port) → q.srctl ≡ p.srctl → active_from n q ≡ active_from n p
unfolding active_from
active_from-srctl zero p q e = refl
active_from-srctl (suc n) p q e = rw (active_from-srctl n p q e, e) refl

frame_slots-Held :
    (p q : Port)
    → q.ditctl ≡ p.ditctl
    → q.afsxctl ≡ p.afsxctl
    → q.xtdm ≡ p.xtdm
    → frame_slots q ≡ frame_slots p
unfolding frame_slots
frame_slots-Held p q d a x = rw (d, a, x) refl

-- A boundary: the slot that comes next, with the transmitter running on.
pub record Passed (b slots : ℕ) (p q : Port) : Type 0 where
  pub runs : Runs b slots q
  pub next : q.xslot ≡ next_slot p.xslot slots
  pub passed : q.tx_slot_boundaries ≡ p.tx_slot_boundaries + 1
  pub events : q.axevt_generation ≤ p.axevt_generation + 1

Held-Runs :
    (b slots : ℕ) (p q : Port)
    → Runs b slots p
    → q.gblctl ≡ p.gblctl
    → q.ditctl ≡ p.ditctl
    → q.afsxctl ≡ p.afsxctl
    → q.xtdm ≡ p.xtdm
    → q.srctl ≡ p.srctl
    → Runs b slots q
unfolding active_tx_mask
Held-Runs b slots p q r g d a x s = record {
  released = ap (λ n. bit_and n 0x1f00) g ∙ r.released;
  active = ap (λ n. n == 0) (active_from-srctl (serializer_count b) p q s) ∙ r.active;
  frame = frame_slots-Held p q d a x ∙ r.frame;
}

transmit-Passed :
    (b slots : ℕ) (p : Port) → Runs b slots p → Passed b slots p (transmit (moved p slots) b)
unfolding transmit active_tx_mask
transmit-Passed b slots p r =
    let n = serializer_count b in
    let h = shift_from-Held n (active_from n (moved p slots)) (moved p slots) in
    record {
      runs = Held-Runs b slots p _ r h.gblctl h.ditctl h.afsxctl h.xtdm h.srctl;
      next = h.xslot;
      passed = h.passed;
      events = omega (arith, h.events);
    }

-- What a boundary may leave: not a refusal.
pub record Passes (b slots : ℕ) (p : Port) (o : Option (Bool × Port)) : Type 0 where
  pub result : (r : Bool × Port) × (o ≡ some r) × Passed b slots p r.1

room :
    (x y : ℕ) (a : Bool) → x < u64_max → y < u64_max → (x == u64_max || (a && y == u64_max)) ≡ false
room x y a h k = ground arith

pub slot_at-Passes :
    (b slots : ℕ) (p : Port)
    → Runs b slots p
    → (p.xslot != 0x17f && leb slots p.xslot) ≡ false
    → p.tx_slot_boundaries < u64_max
    → p.axevt_generation < u64_max
    → Passes b slots p (slot_at p b slots)
unfolding slot_at
slot_at-Passes b slots p r inside h k =
    rw (inside, room p.tx_slot_boundaries p.axevt_generation active h k)
      (if_keeps (Passes b slots p) (not active)
        (λ _. record { result = ((false, moved p slots), refl, still) })
        (λ _. record {
          result = ((true, transmit (moved p slots) b), refl, transmit-Passed b slots p r);
        }))
  where
    active : Bool
    active = has p.ditctl 1 || has p.xtdm (2 ^ next_slot p.xslot slots)

    still : Passed b slots p (moved p slots)
    still = record {
      runs = Held-Runs b slots p _ r refl refl refl refl refl;
      next = refl;
      passed = refl;
      events = omega arith;
    }

pub tx_slot_port-frame :
    (b slots : ℕ) (p : Port) → Runs b slots p → tx_slot_port p b ≡ slot_at p b slots
unfolding tx_slot_port
tx_slot_port-frame b slots p r = rw (r.released, r.active, r.frame) refl
