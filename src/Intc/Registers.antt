-- ===== src/Intc/Registers.antt =====
-- What every store keeps true of the registers, and what reads return after stores.
use Prim.Native.Nat.{bit_and}
use cdj2000_emulator.Prelude.{
  ℕ, zero, suc, ◌+◌, ◌*◌, ◌/◌, ◌%◌, ◌^◌, ◌<◌, ltb, leb, if◌then◌else◌, Bool, true, false, not, ◌&&◌,
  ◌||◌, Option, none, some, ◌≡◌, refl, arith, Bool-cases, inl, inr, ◌!=◌, ap, ◌∙◌,
}
use mathlib.Core.Option
use mathlib.Core.Path.{ap₂}
use cdj2000_emulator.Prelude.Arrays.{update_self}
use cdj2000_emulator.Intc.Select.{banked-some}
use cdj2000_emulator.Prelude.Bits.{bit, bit-zero, bit-or, bit-and, bit-pow}
use cdj2000_emulator.Prelude.Word.{
  IsWord, not32, u32_max, bit-not32, and-IsWord, or-IsWord, pow-IsWord,
}
use cdj2000_emulator.Bus.{TwoPhase}
use cdj2000_emulator.Intc.{
  Intc, Delivery, store, evtset0, expmask0, evtflag0, evtclr0, evtmask0, mevtflag0, banked, event,
  deliver_event, reset, set_events, clear_events, mask_events, mask_exceptions, select_interrupts,
  write_delivery, write, read, muxed,
}

-- Events 0 to 3 are the combiner's own outputs: their flags stay clear and their masks set. The
-- registers are 32-bit words.
pub record IsFormed (s : Intc) : Type 0 where
  pub outputs_clear : (i : ℕ) → i < 4 → bit (s.event_flag 0) i ≡ false
  pub outputs_masked : (i : ℕ) → i < 4 → bit (s.event_mask 0) i ≡ true
  pub flag_word : (b : ℕ) → IsWord (s.event_flag b)
  pub mask_word : (b : ℕ) → IsWord (s.event_mask b)

nibble_clear : (i : ℕ) → i < 4 → bit (not32 0xf) i ≡ false
nibble_clear zero h = refl
nibble_clear (suc zero) h = refl
nibble_clear (suc (suc zero)) h = refl
nibble_clear (suc (suc (suc zero))) h = refl
nibble_clear (suc (suc (suc (suc i)))) h = absurd (omega arith)

nibble_set : (i : ℕ) → i < 4 → bit 0xf i ≡ true
nibble_set zero h = refl
nibble_set (suc zero) h = refl
nibble_set (suc (suc zero)) h = refl
nibble_set (suc (suc (suc zero))) h = refl
nibble_set (suc (suc (suc (suc i)))) h = absurd (omega arith)

pub reset-IsFormed : IsFormed reset
unfolding reset
reset-IsFormed = record {
  outputs_clear = λ i h. bit-zero i;
  outputs_masked = nibble_set;
  flag_word = λ b. omega arith;
  mask_word = λ b. ground arith;
}

module _ (s : Intc) (v : IsFormed s) where
  event-IsFormed : (number : ℕ) → IsFormed (event s number).1
  unfolding event
  event-IsFormed number = record {
    outputs_clear = λ i h. ground (
      arith,
      v.outputs_clear i h,
      bit-or i (s.event_flag 0) (2 ^ (number % 32)),
      bit-pow (number % 32) i,
    );
    outputs_masked = λ i h. ground (arith, v.outputs_masked i h);
    flag_word = λ b. ground (
      arith,
      v.flag_word b,
      or-IsWord (s.event_flag (number / 32)) (2 ^ (number % 32)) (v.flag_word (number / 32))
          (pow-IsWord (number % 32) (omega arith)),
    );
    mask_word = λ b. ground (arith, v.mask_word b);
  }

  set-IsFormed :
      (delivery : Delivery) (bank value : ℕ)
      → IsWord value
      → IsFormed (set_events s delivery bank value).0
  unfolding set_events
  set-IsFormed delivery bank value w = record {
    outputs_clear = λ i h. ground (
      arith,
      v.outputs_clear i h,
      bit-or i (s.event_flag 0) (bit_and value (not32 0xf)),
      bit-and i value (not32 0xf),
      nibble_clear i h,
    );
    outputs_masked = v.outputs_masked;
    flag_word = λ b. ground (
      arith,
      v.flag_word b,
      or-IsWord (s.event_flag bank) (bit_and value u32_max) (v.flag_word bank)
          (and-IsWord value _ w),
      or-IsWord (s.event_flag bank) (bit_and value (not32 0xf)) (v.flag_word bank)
          (and-IsWord value _ w),
    );
    mask_word = v.mask_word;
  }

  clear-IsFormed : (bank value : ℕ) → IsFormed (clear_events s bank value)
  unfolding clear_events
  clear-IsFormed bank value = record {
    outputs_clear =
        λ i h. ground (arith, v.outputs_clear i h, bit-and i (s.event_flag 0) (not32 value));
    outputs_masked = v.outputs_masked;
    flag_word = λ b.
        ground
          (arith, v.flag_word b, and-IsWord (s.event_flag bank) (not32 value) (v.flag_word bank));
    mask_word = v.mask_word;
  }

  mask-IsFormed :
      (delivery : Delivery) (bank value : ℕ)
      → IsWord value
      → IsFormed (mask_events s delivery bank value).0
  unfolding mask_events
  mask-IsFormed delivery bank value w = record {
    outputs_clear = v.outputs_clear;
    outputs_masked =
        λ i h. ground (arith, v.outputs_masked i h, bit-or i value 0xf, nibble_set i h);
    flag_word = v.flag_word;
    mask_word = λ b. ground (arith, v.mask_word b, or-IsWord value 0xf w, or-IsWord value 0 w);
  }

  either-IsFormed :
      (commit : Bool) (delivery : Delivery) (next : Intc × Delivery)
      → IsFormed next.0
      → let kept : Bool × Intc × Delivery = (true, s, delivery) in
        let changed : Bool × Intc × Delivery = (true, next.0, next.1) in
        IsFormed (if commit then changed else kept).1
  either-IsFormed true delivery next w = w
  either-IsFormed false delivery next w = v

  store-IsFormed :
      (delivery : Delivery) (value : ℕ) (commit : Bool) (a b c d e : Option ℕ)
      → IsWord value
      → IsFormed (store s delivery value commit a b c d e).1
  unfolding store
  store-IsFormed delivery value commit (some bank) _ _ _ _ w =
      either-IsFormed commit delivery _ (set-IsFormed delivery bank value w)
  store-IsFormed delivery value commit none (some bank) _ _ _ w =
      either-IsFormed commit delivery _ (clear-IsFormed bank value)
  store-IsFormed delivery value commit none none (some bank) _ _ w =
      either-IsFormed commit delivery _ (mask-IsFormed delivery bank value w)
  store-IsFormed delivery value commit none none none (some bank) _ w =
      either-IsFormed commit delivery _ (unfold mask_exceptions in carried)
    where
      carried : IsFormed (mask_exceptions s bank value)
      carried =
          unfold mask_exceptions in
          record {
            outputs_clear = v.outputs_clear;
            outputs_masked = v.outputs_masked;
            flag_word = v.flag_word;
            mask_word = v.mask_word;
          }
  store-IsFormed delivery value commit none none none none (some i) w =
      either-IsFormed commit delivery _ (
        unfold select_interrupts in
        record {
          outputs_clear = v.outputs_clear;
          outputs_masked = v.outputs_masked;
          flag_word = v.flag_word;
          mask_word = v.mask_word;
        })
  store-IsFormed delivery value commit none none none none none w = v

-- Every store, accepted or not, keeps `IsFormed`: the combiner's outputs stay out of the flags and
-- masked, and the flag and mask registers stay words.
write_delivery-IsFormed :
    (s : Intc) (delivery : Delivery) (address value size : ℕ) (commit : Bool)
    → IsFormed s
    → IsFormed (write_delivery s delivery address value size commit).1
unfolding write_delivery
write_delivery-IsFormed s delivery address value size commit v =
    elim (Bool-cases (size != 4 || ltb u32_max value)) [
      | inl refused ↦ rw (refused, write_delivery) v
      | inr fits ↦
          rw (fits, write_delivery)
            (store-IsFormed s v delivery value commit _ _ _ _ _ (ground arith))
    ]

-- A delivered event keeps them too.
deliver_event-IsFormed :
    (s : Intc) (delivery : Delivery) (number : ℕ)
    → IsFormed s
    → IsFormed (deliver_event s delivery number).1
unfolding deliver_event
deliver_event-IsFormed s delivery number v = elim (Bool-cases (ltb number 4 || leb 128 number)) [
  | inl refused ↦ rw (refused, deliver_event) v
  | inr fits ↦ rw (fits, deliver_event) (event-IsFormed s v number)
]

store-TwoPhase :
    (s : Intc) (value : ℕ) (a b c d e : Option ℕ)
    → let (accepted, s', delivery) = store s none value true a b c d e in
      ((store s none value false a b c d e).0 ≡ accepted)
      × ((store s none value false a b c d e).1 ≡ s)
      × (s' ≡ (if accepted then s' else s))
unfolding store
store-TwoPhase s value a b c d e = ground arith

-- A store without delivery follows the two-phase protocol.
pub write-TwoPhase : (s : Intc) (address value size : ℕ) → TwoPhase write s address value size
unfolding write write_delivery
write-TwoPhase s address value size = ground (
  arith,
  store-TwoPhase s value (banked address evtset0) (banked address evtclr0) (banked address evtmask0)
      (banked address expmask0) (muxed address),
)

module _ (bank : ℕ) (h : bank < 4) where
  not_set : banked (evtclr0 + 4 * bank) evtset0 ≡ none
  unfolding banked
  not_set = ground arith

  not_flag : banked (mevtflag0 + 4 * bank) evtflag0 ≡ none
  unfolding banked
  not_flag = ground arith

  not_mask : banked (mevtflag0 + 4 * bank) evtmask0 ≡ none
  unfolding banked
  not_mask = ground arith

  write-clear :
      (s : Intc) (value : ℕ)
      → IsWord value
      → write s (evtclr0 + 4 * bank) value 4 true ≡ (true, clear_events s bank value)
  unfolding write write_delivery store
  write-clear s value w = ground (arith, not_set, banked-some evtclr0 bank h)

  read-flag : (s : Intc) → read s (evtflag0 + 4 * bank) ≡ some (s.event_flag bank)
  unfolding read
  read-flag s = ground (arith, banked-some evtflag0 bank h)

  read-masked :
      (s : Intc)
      → read s (mevtflag0 + 4 * bank)
        ≡ some (bit_and (s.event_flag bank) (not32 (s.event_mask bank)))
  unfolding read
  read-masked s = ground (arith, not_flag, not_mask, banked-some mevtflag0 bank h)

-- A store of a word to a bank's EVTCLR is accepted, and after it EVTFLAG and MEVTFLAG of the bank
-- read as words of which bit `i` is the old flag less the word's bit, for MEVTFLAG also less the
-- mask's.
pub read-clear :
    (s : Intc) (bank value i : ℕ)
    → IsFormed s
    → bank < 4
    → IsWord value
    → i < 32
    → let (accepted, s') = write s (evtclr0 + 4 * bank) value 4 true in
      (accepted ≡ true)
      × (Option.map (λ n. bit n i) (read s' (evtflag0 + 4 * bank))
          ≡ some (bit (s.event_flag bank) i && not (bit value i)))
      × (Option.map (λ n. bit n i) (read s' (mevtflag0 + 4 * bank))
          ≡ some
              ((bit (s.event_flag bank) i && not (bit value i)) && not (bit (s.event_mask bank) i)))
read-clear s bank value i v h w k = rw (write-clear bank h s value w) (refl, flag, masked)
  where
    s' : Intc
    s' = clear_events s bank value

    cleared : bit (s'.event_flag bank) i ≡ (bit (s.event_flag bank) i && not (bit value i))
    cleared =
        unfold clear_events in
        ap (λ n. bit n i)
          (update_self s.event_flag bank (bit_and (s.event_flag bank) (not32 value)))
        ∙ bit-and i (s.event_flag bank) (not32 value)
        ∙ ap (λ b. bit (s.event_flag bank) i && b) (bit-not32 i value w k)

    flag :
        Option.map (λ n. bit n i) (read s' (evtflag0 + 4 * bank))
        ≡ some (bit (s.event_flag bank) i && not (bit value i))
    flag = rw (read-flag bank h s') (ap some cleared)

    masked :
        Option.map (λ n. bit n i) (read s' (mevtflag0 + 4 * bank))
        ≡ some ((bit (s.event_flag bank) i && not (bit value i)) && not (bit (s.event_mask bank) i))
    masked = rw (read-masked bank h s') (
        ap some (
          bit-and i (s'.event_flag bank) (not32 (s'.event_mask bank))
          ∙ ap₂ ◌&&◌ cleared
              (unfold clear_events in bit-not32 i (s.event_mask bank) (v.mask_word bank) k)))
