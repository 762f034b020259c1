-- ===== src/Intc/Delivery.antt =====
-- What delivering an event does: one sticky flag, and requests to the interrupts that select it.

use cdj2000_emulator.Prelude.{
  ℕ, ◌+◌, ◌*◌, ◌/◌, ◌%◌, ◌^◌, ◌≤◌, ◌<◌, ◌==◌, ltb, leb, Bool, true, false, not, ◌&&◌, ◌||◌, some,
  ◌≡◌, refl, arith, ap, ◌∙◌,
}
use cdj2000_emulator.Prelude.Bits.{bit, bit-or, bit-pow}
use cdj2000_emulator.Intc.{
  Intc, Delivery, combined_active, request_selected_event, request_if_risen, event, deliver_event,
  selected,
}
use cdj2000_emulator.Intc.Select.{
  selects, requests, request_selected_event-bit, request_selected_event-some, request_if_risen-bit,
}
use mathlib.Core.Path.{ap₂}

-- The combined event of a bank rises in the step from `s` to `s'`.
abbrev pub risen : Intc → Intc → ℕ → Bool
risen s s' bank = not (combined_active s bank) && combined_active s' bank

event-bit :
    (s : Intc) (number bank i : ℕ)
    → 4 ≤ number
    → number < 128
    → i < 32
    → bit ((event s number).1.event_flag bank) i
      ≡ (bit (s.event_flag bank) i || bank * 32 + i == number)
unfolding event
event-bit s number bank i h k w =
    ground
      (arith, bit-or i (s.event_flag (number / 32)) (2 ^ (number % 32)), bit-pow (number % 32) i)

event-accepted :
    (s : Intc) (number : ℕ)
    → 4 ≤ number
    → number < 128
    → (event s number).1 ≡ record s { event_flag = (event s number).1.event_flag }
unfolding event
event-accepted s number h k = ground arith

event-selects :
    (s : Intc) (number e j : ℕ)
    → 4 ≤ number
    → number < 128
    → selects (event s number).1 e j ≡ selects s e j
event-selects s number e j h k =
    ap (λ t. selects t e j) (event-accepted s number h k) ∙ unfold selected in refl

accepted_event :
    (s : Intc) (delivery : Delivery) (number : ℕ)
    → 4 ≤ number
    → number < 128
    → deliver_event s delivery number ≡ (
      true,
      (event s number).1,
      request_if_risen
          (combined_active s (number / 32))
          (event s number).1
          (request_selected_event (event s number).1 delivery number)
          (number / 32),
    )
unfolding deliver_event
accepted_event s delivery number h k = ground arith

-- An event of 4 to 127 is accepted. In the flags it sets its own bit and changes no other; nothing
-- else of the registers changes. The requests keep what they had and gain exactly the interrupts
-- that select the event, whether or not it is masked, and those that select the combined event of
-- its bank if that has risen.
pub deliver_event_lem :
    (s : Intc) (request number bank i j : ℕ)
    → 4 ≤ number
    → number < 128
    → i < 32
    → let (accepted, s', delivery) = deliver_event s (some request) number in
      (accepted ≡ true)
      × (bit (s'.event_flag bank) i ≡ (bit (s.event_flag bank) i || bank * 32 + i == number))
      × (s' ≡ record s { event_flag = s'.event_flag })
      × (bit (requests delivery) j ≡ (
          (bit request j || selects s number j)
          || (risen s s' (number / 32) && selects s (number / 32) j)))
deliver_event_lem s request number bank i j h k w =
    rw (accepted_event s (some request) number h k) (
      refl,
      event-bit s number bank i h k w,
      event-accepted s number h k,
      rw (request_selected_event-some (event s number).1 request number) (
          request_if_risen-bit (combined_active s (number / 32)) (event s number).1 _ (number / 32)
            j
          ∙ ap₂ (λ b c. b || (risen s (event s number).1 (number / 32) && c))
              (request_selected_event-bit (event s number).1 request number j
                ∙ ap (λ b. bit request j || b) (event-selects s number number j h k))
              (event-selects s number (number / 32) j h k)),
    )

-- An event below 4 or above 127 is refused and changes nothing.
pub deliver_event_refused :
    (s : Intc) (delivery : Delivery) (number : ℕ)
    → (leb 4 number && ltb number 128) ≡ false
    → deliver_event s delivery number ≡ (false, s, delivery)
unfolding deliver_event
deliver_event_refused s delivery number h = ground arith

-- Which events are accepted.
pub accepted_iff :
    (s : Intc) (delivery : Delivery) (number : ℕ)
    → (deliver_event s delivery number).0 ≡ (leb 4 number && ltb number 128)
unfolding deliver_event
accepted_iff s delivery number = ground arith
