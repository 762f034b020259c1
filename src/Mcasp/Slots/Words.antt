-- ===== src/Mcasp/Slots/Words.antt =====
-- Which words a slot shifts out.
use Prim.Native.Nat.{bit_and, bit_or}
use cdj2000_emulator.Prelude.{
  ℕ, zero, suc, ◌+◌, ◌^◌, ◌≤◌, ◌<◌, ◌==◌, ◌!=◌, ltb, leb, if◌then◌else◌, Bool, true, false, not,
  ◌&&◌, ◌||◌, ◌≡◌, refl, ap, ◌∙◌, arith, sym, lt→ltb, Option, some, none,
}
use mathlib.Core.Path.{ap₂, subst}
use cdj2000_emulator.Prelude.Cases.{if_keeps}
use cdj2000_emulator.Prelude.Word.{has}
use cdj2000_emulator.Prelude.Bits.{bit, bit-or, bit-pow, bit-zero, bit_and-pow}
use cdj2000_emulator.Mcasp.{Port, serializer_count, transmits, active_from, active_tx_mask}
use cdj2000_emulator.Mcasp.Stores.{every, u64_max}
use cdj2000_emulator.Mcasp.Slots.{
  next_slot, frame_slots, slot_at, shift_out, shift_from, transmit, tx_slot_port,
}

-- The bits of the mask are the serializers that transmit.
bit-active_from : (k i : ℕ) (p : Port) → bit (active_from k p) i ≡ (ltb i k && transmits p i)
unfolding active_from
bit-active_from zero i p = bit-zero i ∙ ground arith
bit-active_from (suc k) i p =
    ground (arith, bit-active_from k i p, bit-or i (active_from k p) (2 ^ k), bit-pow k i)

-- A serializer that has a word which it has not shifted yet.
abbrev pub fresh : Port → ℕ → Bool
fresh p i = ltb (p.xrsr_source_sequence i) (p.xbuf_sequence i)

-- What the first serializers' round makes of a port: the words and their sources, and the rest as it was.
record Shifted (k active : ℕ) (p q : Port) : Type 0 where
  word :
      (i : ℕ) → q.xrsr i ≡ (if (ltb i k && bit active i) && fresh p i then p.xbuf i else p.xrsr i)
  source :
      (i : ℕ)
      → q.xrsr_source_sequence i ≡ (
          if (ltb i k && bit active i) && fresh p i
          then p.xbuf_sequence i
          else p.xrsr_source_sequence i)
  kept :
      (q.xbuf ≡ p.xbuf)
      × (q.xbuf_sequence ≡ p.xbuf_sequence)
      × (q.srctl ≡ p.srctl)
      × (q.xstat ≡ p.xstat)

shift_out-Shifted :
    (k active : ℕ) (p q : Port)
    → Shifted k active p q
    → bit active k ≡ true
    → fresh p k ≡ true
    → Shifted (suc k) active p (shift_out q k)
unfolding shift_out
shift_out-Shifted k active p q s a f = record {
  word = λ i. ground (arith, s.word i, ap (λ (x : ℕ → ℕ). x i) s.kept.0);
  source = λ i. ground (arith, s.source i, ap (λ (x : ℕ → ℕ). x i) s.kept.1);
  kept = s.kept;
}

same-Shifted :
    (k active : ℕ) (p q : Port)
    → Shifted k active p q
    → (bit active k && fresh p k) ≡ false
    → Shifted (suc k) active p q
same-Shifted k active p q s a = record {
  word = λ i. ground (arith, s.word i);
  source = λ i. ground (arith, s.source i);
  kept = s.kept;
}

-- Its own words do not change what is fresh for the serializers that follow.
fresh-Shifted :
    (k active : ℕ) (p q : Port)
    → Shifted k active p q
    → ltb (q.xrsr_source_sequence k) (q.xbuf_sequence k) ≡ fresh p k
fresh-Shifted k active p q s = ground (arith, s.source k, ap (λ (x : ℕ → ℕ). x k) s.kept.1)

shift_from-Shifted : (k active : ℕ) (p : Port) → Shifted k active p (shift_from k active p).0
unfolding shift_from
shift_from-Shifted zero active p = record {
  word = λ i. ground arith;
  source = λ i. ground arith;
  kept = (refl, refl, refl, refl);
}
shift_from-Shifted (suc k) active p =
    let ih = shift_from-Shifted k active p in
    let q = (shift_from k active p).0 in
    if_keeps (λ (x : Port × Bool). Shifted (suc k) active p x.0) (not (has active (2 ^ k)))
      (λ off. same-Shifted k active p q ih (ground (arith, off, bit_and-pow k active)))
      (λ on.
        if_keeps (λ (x : Port × Bool). Shifted (suc k) active p x.0)
          (ltb (q.xrsr_source_sequence k) (q.xbuf_sequence k))
          (λ new.
            shift_out-Shifted k active p q ih (ground (arith, on, bit_and-pow k active))
              (sym (fresh-Shifted k active p q ih) ∙ new))
          (λ old.
            same-Shifted k active p q ih (ground (arith, old, fresh-Shifted k active p q ih))))

-- A serializer that transmits has nothing new to shift.
abbrev pub starved : Port → ℕ → Bool
starved p n = not (every n (λ i. not (transmits p i) || fresh p i))

-- The round reports an underrun if one of the active serializers had nothing new.
underrun_lem : (k n : ℕ) (p : Port) → k ≤ n → (shift_from k (active_from n p) p).1 ≡ starved p k
unfolding shift_from every
underrun_lem zero n p h = refl
underrun_lem (suc k) n p h =
    let active = active_from n p in
    let s = shift_from-Shifted k active p in
    ground (
      arith,
      underrun_lem k n p (omega arith),
      bit_and-pow k active,
      bit-active_from n k p,
      fresh-Shifted k active p (shift_from k active p).0 s,
    )

-- The port at a boundary, before its words move.
abbrev pub moved : Port → ℕ → Port
moved p slots = record p {
  xslot = next_slot p.xslot slots;
  tx_slot_boundaries = p.tx_slot_boundaries + 1;
}

slot_at-transmits :
    (p q : Port) (b slots : ℕ) → slot_at p b slots ≡ some (true, q) → q ≡ transmit (moved p slots) b
unfolding slot_at
slot_at-transmits p q b slots h =
    if_keeps P (p.xslot != 0x17f && leb slots p.xslot) (λ _ e. ground (arith, e))
      (λ _.
        if_keeps P (p.tx_slot_boundaries == u64_max || (active && p.axevt_generation == u64_max))
          (λ _ e. ground (arith, e))
          (λ _. if_keeps P (not active) (λ _ e. ground (arith, e)) (λ _ e. sym (some_port e))))
      h
  where
    active : Bool
    active = has p.ditctl 1 || has p.xtdm (2 ^ next_slot p.xslot slots)

    P : Option (Bool × Port) → Type 0
    P r = r ≡ some (true, q) → q ≡ transmit (moved p slots) b

    some_port :
        {x y : Port} → ◌≡◌ {A = Option (Bool × Port)} (some (true, x)) (some (true, y)) → x ≡ y
    some_port e = cc

port-transmits :
    (p q : Port) (b : ℕ)
    → tx_slot_port p b ≡ some (true, q)
    → (slots : ℕ) × (q ≡ transmit (moved p slots) b)
unfolding tx_slot_port
port-transmits p q b h =
    if_keeps P (bit_and p.gblctl 0x1f00 != 0x1f00 || active_tx_mask p b == 0)
      (λ _ e. absurd (ground (arith, e))) (λ _ e. framed (frame_slots p) e) h
  where
    P : Option (Bool × Port) → Type 0
    P r = r ≡ some (true, q) → (slots : ℕ) × (q ≡ transmit (moved p slots) b)

    framed :
        (r : Option ℕ)
        → (elim r [ none ↦ none | some slots ↦ slot_at p b slots ]) ≡ some (true, q)
        → (slots : ℕ) × (q ≡ transmit (moved p slots) b)
    framed none e = absurd (ground (arith, e))
    framed (some slots) e = (slots, slot_at-transmits p q b slots e)

settled :
    (n active i : ℕ) (p q : Port)
    → Shifted n active p q
    → i < n
    → bit active i ≡ true
    → fresh q i ≡ false
settled n active i p q s h a =
    rw (s.source i, ap (λ (x : ℕ → ℕ). x i) s.kept.1, a, lt→ltb i n h)
      (no_more (p.xrsr_source_sequence i) (p.xbuf_sequence i))
  where
    no_more : (x y : ℕ) → ltb (if true && ltb x y then y else x) y ≡ false
    no_more x y = ground arith

-- What a slot that transmits leaves, at a serializer that transmits.
pub record Sent (p q : Port) (b i : ℕ) : Type 0 where
  pub word : q.xrsr i ≡ (if fresh p i then p.xbuf i else p.xrsr i)
  pub source : fresh q i ≡ false
  pub underrun : has q.xstat 1 ≡ (has p.xstat 1 || starved p (serializer_count b))
  pub ready : q.xrdy ≡ active_tx_mask p b
  pub event : has q.xstat 0x20 ≡ true

-- The two status bits of a slot.
status :
    (x : ℕ) (u : Bool)
    → let y = bit_or (if u then bit_or x 1 else x) 0x20 in
      (has y 1 ≡ (has x 1 || u)) × (has y 0x20 ≡ true)
status x u =
    let held = if u then bit_or x 1 else x in
    (
      bit_and-pow 0 (bit_or held 0x20)
          ∙ bit-or 0 held 0x20
          ∙ first u
          ∙ ap (λ (b : Bool). b || u) (sym (bit_and-pow 0 x)),
      bit_and-pow 5 (bit_or held 0x20) ∙ bit-or 5 held 0x20 ∙ or_true (bit held 5),
    )
  where
    first : (u : Bool) → (bit (if u then bit_or x 1 else x) 0 || false) ≡ (bit x 0 || u)
    first true = ground (arith, bit-or 0 x 1)
    first false = refl

    or_true : (b : Bool) → (b || true) ≡ true
    or_true b = ground arith

pub transmit-Sent :
    (p : Port) (b i : ℕ) → i < serializer_count b → transmits p i ≡ true → Sent p (transmit p b) b i
unfolding transmit active_tx_mask
transmit-Sent p b i h t =
    let n = serializer_count b in
    let active = active_from n p in
    let s = shift_from-Shifted n active p in
    let q = (shift_from n active p).0 in
    let u = underrun_lem n n p (omega arith) in
    record {
      word = ground (arith, s.word i, bit-active_from n i p);
      source = settled n active i p q s h (bit-active_from n i p ∙ rw t (ground (arith, h)));
      underrun =
          (status q.xstat (shift_from n active p).1).0
          ∙ ap₂ (λ (x : ℕ) (c : Bool). has x 1 || c) s.kept.3 u;
      ready = refl;
      event = (status q.xstat (shift_from n active p).1).1;
    }

moved-active : (n : ℕ) (p : Port) (slots : ℕ) → active_from n (moved p slots) ≡ active_from n p
unfolding active_from
moved-active zero p slots = refl
moved-active (suc n) p slots =
    ap (λ (m : ℕ). if transmits p n then bit_or m (2 ^ n) else m) (moved-active n p slots)

-- A slot that a call of the transmitter reports as an event: a serializer that transmits has the word of
-- its buffer, if that is one it has not shifted, and else keeps its own; nothing is left that it has
-- not shifted. An underrun is reported if it was before, or if one of the serializers that transmit
-- had nothing new. All buffers of those ask for new words, and the event is raised.
pub slot_sends :
    (p q : Port) (b i : ℕ)
    → tx_slot_port p b ≡ some (true, q)
    → i < serializer_count b
    → transmits p i ≡ true
    → Sent p q b i
unfolding active_tx_mask
slot_sends p q b i h k t =
    let run = port-transmits p q b h in
    subst (λ (x : Port). Sent p x b i) (sym run.1)
      (again run.0 (transmit-Sent (moved p run.0) b i k t))
  where
    again : (slots : ℕ) {x : Port} → Sent (moved p slots) x b i → Sent p x b i
    again slots s = record {
      word = s.word;
      source = s.source;
      underrun = s.underrun;
      ready = s.ready ∙ moved-active (serializer_count b) p slots;
      event = s.event;
    }
