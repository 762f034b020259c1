-- ===== src/Intc/Select.antt =====
-- Which CPU interrupts a selected event requests, and which addresses a bank of registers has.
use Prim.Native.Nat.{bit_and, bit_or}
use cdj2000_emulator.Prelude.{
  ℕ, zero, suc, ◌+◌, ◌-◌, ◌*◌, ◌%◌, ◌^◌, ◌<◌, ◌==◌, ltb, leb, if◌then◌else◌, Bool, not, ◌&&◌, ◌||◌,
  none, some, ◌≡◌, refl, arith, ap, ◌∙◌,
}
use cdj2000_emulator.Prelude.Bits.{bit, bit-or, bit-pow, bit_and-mask}
use cdj2000_emulator.Intc.{
  Intc, intmux1, banked, muxed, combined_active, request_if_risen, selected, request_from, Delivery,
  request_selected_event,
}

-- Interrupt `i` is one of those from `j` on, and its selector names the event.
abbrev chosen : Intc → ℕ → ℕ → ℕ → ℕ → Bool
chosen s event rounds j i = leb j i && ltb i (j + rounds) && selected s (i - 4) == event

or_bit :
    (b : Bool) (request j i : ℕ)
    → bit (if b then bit_or request (2 ^ j) else request) i ≡ (bit request i || (b && j == i))
or_bit b request j i = ground (arith, bit-or i request (2 ^ j), bit-pow j i)

first_or_later :
    (s : Intc) (event rounds j i : ℕ) (b : Bool)
    → ((b || (selected s (j - 4) == event && j == i)) || chosen s event rounds (j + 1) i)
      ≡ (b || chosen s event (suc rounds) j i)
first_or_later s event rounds j i b = ground arith

request_from-bit :
    (s : Intc) (event rounds j request i : ℕ)
    → bit (request_from s event rounds j request) i ≡ (bit request i || chosen s event rounds j i)
unfolding request_from
request_from-bit s event zero j request i = ground arith
request_from-bit s event (suc rounds) j request i =
    request_from-bit s event rounds (j + 1) _ i
    ∙ ap (λ b. b || chosen s event rounds (j + 1) i) (or_bit _ request j i)
    ∙ first_or_later s event rounds j i (bit request i)

-- The CPU interrupts whose selector names an event.
abbrev pub selects : Intc → ℕ → ℕ → Bool
selects s event i = leb 4 i && ltb i 16 && selected s (i - 4) == event

-- The request bits of a delivery state.
abbrev pub requests : Delivery → ℕ
requests none = 0
requests (some request) = request

-- Requests gain exactly the interrupts that select the event.
pub request_selected_event-bit :
    (s : Intc) (request event i : ℕ)
    → bit (requests (request_selected_event s (some request) event)) i
      ≡ (bit request i || selects s event i)
unfolding request_selected_event
request_selected_event-bit s request event i = request_from-bit s event 12 4 request i

pub request_selected_event-some :
    (s : Intc) (request event : ℕ)
    → request_selected_event s (some request) event
      ≡ some (requests (request_selected_event s (some request) event))
unfolding request_selected_event
request_selected_event-some s request event = refl

-- The combined event of a bank adds its requests only if it has become active.
pub request_if_risen-bit :
    (was : Bool) (s : Intc) (request bank i : ℕ)
    → bit (requests (request_if_risen was s (some request) bank)) i
      ≡ (bit request i || ((not was && combined_active s bank) && selects s bank i))
unfolding request_if_risen
request_if_risen-bit was s request bank i =
    ground (arith, request_selected_event-bit s request bank i)

aligned : (n : ℕ) → bit_and n 3 ≡ n % 4
aligned n = bit_and-mask 2 n

-- A bank's four words are the addresses that it decodes.
pub banked-some : (base bank : ℕ) → bank < 4 → banked (base + 4 * bank) base ≡ some bank
unfolding banked
banked-some base bank h = ground (arith, aligned (4 * bank), offset)
  where
    offset : base + 4 * bank - base ≡ 4 * bank
    offset = omega arith

-- Every index that the decoders hand out lies in its array.
pub banked-lt : (address base : ℕ) {bank : ℕ} → banked address base ≡ some bank → bank < 4
unfolding banked
banked-lt address base h = ground (arith, aligned (address - base))

pub muxed-lt : (address : ℕ) {i : ℕ} → muxed address ≡ some i → i < 3
unfolding muxed
muxed-lt address h = ground (arith, aligned (address - intmux1))
