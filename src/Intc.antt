-- ===== src/Intc.antt =====
-- emulator/qemu/cdj_c6747_intc.h and .c: the C674x interrupt controller, with sticky event flags, the
-- event combiner and the selectors that turn events into requests for CPU interrupts 4 to 15. The
-- optional `delivery` pointer is an option.
pub mod Select
pub mod Delivery
pub mod Registers
mod Tests
use Prim.Native.Nat.{bit_and, bit_or}
use cdj2000_emulator.Prelude.{
  ℕ, zero, suc, ◌+◌, ◌-◌, ◌*◌, ◌/◌, ◌%◌, ◌^◌, ◌==◌, ◌!=◌, ltb, leb, if◌then◌else◌, Bool, true,
  false, not, ◌&&◌, ◌||◌, Option, none, some,
}
use cdj2000_emulator.Prelude.Arrays.{Array, update}
use cdj2000_emulator.Prelude.Word.{has, not32, u32, u32_max}

-- `CdjC6747Intc`: four banks of 32 events, three selector words.
pub record Intc : Type 0 where
  pub event_flag : Array ℕ
  pub event_mask : Array ℕ
  pub exception_mask : Array ℕ
  pub interrupt_mux : Array ℕ

-- `CdjC6747IntcDelivery` is its only field, `cpu_request`.
abbrev pub Delivery : Type 0
Delivery = Option ℕ

abbrev pub intc_base : ℕ
intc_base = 0x01800000

abbrev pub evtflag0 : ℕ
evtflag0 = intc_base

abbrev pub evtset0 : ℕ
evtset0 = intc_base + 0x20

abbrev pub evtclr0 : ℕ
evtclr0 = intc_base + 0x40

abbrev pub evtmask0 : ℕ
evtmask0 = intc_base + 0x80

abbrev pub mevtflag0 : ℕ
mevtflag0 = intc_base + 0xa0

abbrev pub expmask0 : ℕ
expmask0 = intc_base + 0xc0

abbrev pub mexpflag0 : ℕ
mexpflag0 = intc_base + 0xe0

abbrev pub intmux1 : ℕ
intmux1 = intc_base + 0x104

-- `banked`: the bank of an address among the four words from `base`.
pub banked : ℕ → ℕ → Option ℕ
banked address base =
    if ltb address base || ltb (base + 12) address || has (address - base) 3
    then none
    else some ((address - base) / 4)

-- The guard of INTMUX1 to INTMUX3.
pub muxed : ℕ → Option ℕ
muxed address =
    if leb intmux1 address && leb address (intmux1 + 8) && not (has (address - intmux1) 3)
    then some ((address - intmux1) / 4)
    else none

pub combined_active : Intc → ℕ → Bool
combined_active s bank = bit_and (s.event_flag bank) (not32 (s.event_mask bank)) != 0

-- The event that a selector names.
pub selected : Intc → ℕ → ℕ
selected s selector = bit_and (s.interrupt_mux (selector / 4) / 2 ^ (selector % 4 * 8)) 0x7f

-- The loop of `request_selected_event` over the CPU interrupts from `interrupt` on.
pub request_from : Intc → ℕ → ℕ → ℕ → ℕ → ℕ
unfolding selected
request_from s event zero interrupt request = request
request_from s event (suc rounds) interrupt request =
    request_from s event rounds (interrupt + 1)
      (if selected s (interrupt - 4) == event then bit_or request (2 ^ interrupt) else request)

pub request_selected_event : Intc → Delivery → ℕ → Delivery
request_selected_event s none event = none
request_selected_event s (some request) event = some (request_from s event 12 4 request)

pub reset : Intc
reset = record {
  event_flag = λ i. 0;
  event_mask = λ i. if i == 0 then 0xf else 0;
  exception_mask = λ i. u32_max;
  interrupt_mux = λ i. if i == 0 then 0x07060504 else if i == 1 then 0x0b0a0908 else 0x0f0e0d0c;
}

-- `cdj_c6747_intc_delivery_reset`
pub delivery_reset : Delivery
delivery_reset = some 0

-- `cdj_c6747_intc_event`
pub event : Intc → ℕ → Bool × Intc
event s number = if ltb number 4 || leb 128 number then (false, s) else (
  true,
  record s {
    event_flag =
        update s.event_flag (number / 32) (bit_or (s.event_flag (number / 32)) (2 ^ (number % 32)));
  },
)

-- Requests the combined event of a bank that has become active.
pub request_if_risen : Bool → Intc → Delivery → ℕ → Delivery
request_if_risen was_active s delivery bank =
    if not was_active && combined_active s bank
    then request_selected_event s delivery bank
    else delivery

-- `cdj_c6747_intc_deliver_event`
pub deliver_event : Intc → Delivery → ℕ → Bool × Intc × Delivery
deliver_event s delivery number =
    if ltb number 4 || leb 128 number
    then (false, s, delivery)
    else let bank = number / 32 in
      let s' = (event s number).1 in
      (
        true,
        s',
        request_if_risen (combined_active s bank) s' (request_selected_event s' delivery number)
            bank,
      )

-- `cdj_c6747_intc_cpu_pending`: the requests, and what is left of them.
pub cpu_pending : ℕ → ℕ × ℕ
cpu_pending request = (request, 0)

pub read : Intc → ℕ → Option ℕ
read s address = elim (banked address evtflag0) [
  | some bank ↦ some (s.event_flag bank)
  | none ↦ elim (banked address evtmask0) [
    | some bank ↦ some (s.event_mask bank)
    | none ↦ elim (banked address mevtflag0) [
      | some bank ↦ some (bit_and (s.event_flag bank) (not32 (s.event_mask bank)))
      | none ↦ elim (banked address expmask0) [
        | some bank ↦ some (s.exception_mask bank)
        | none ↦ elim (banked address mexpflag0) [
          | some bank ↦ some (bit_and (s.event_flag bank) (not32 (s.exception_mask bank)))
          | none ↦ elim (muxed address) [ some i ↦ some (s.interrupt_mux i) | none ↦ none ]
        ]
      ]
    ]
  ]
]

-- The loop of an EVTSET write over the bits of its word, which requests each event that is set.
pub request_bits : Intc → ℕ → ℕ → ℕ → ℕ → Delivery → Delivery
request_bits s events bank zero bit delivery = delivery
request_bits s events bank (suc rounds) bit delivery =
    request_bits s events bank rounds (bit + 1) (
      if has events (2 ^ bit)
      then request_selected_event s delivery (bank * 32 + bit)
      else delivery)

-- The commits of a write, one for each kind of register.
pub set_events : Intc → Delivery → ℕ → ℕ → Intc × Delivery
set_events s delivery bank value =
    let events = bit_and value (if bank == 0 then not32 0xf else u32_max) in
    let s' : Intc = record s {
      event_flag = update s.event_flag bank (bit_or (s.event_flag bank) events);
    } in
    (
      s',
      request_if_risen (combined_active s bank) s' (request_bits s' events bank 32 0 delivery) bank,
    )

pub clear_events : Intc → ℕ → ℕ → Intc
clear_events s bank value = record s {
  event_flag = update s.event_flag bank (bit_and (s.event_flag bank) (not32 value));
}

pub mask_events : Intc → Delivery → ℕ → ℕ → Intc × Delivery
mask_events s delivery bank value =
    let s' : Intc = record s {
      event_mask = update s.event_mask bank (bit_or value (if bank == 0 then 0xf else 0));
    } in
    (s', request_if_risen (combined_active s bank) s' delivery bank)

pub mask_exceptions : Intc → ℕ → ℕ → Intc
mask_exceptions s bank value = record s {
  exception_mask = update s.exception_mask bank (bit_or value (if bank == 0 then 0xf else 0));
}

pub select_interrupts : Intc → ℕ → ℕ → Intc
select_interrupts s i value = record s {
  interrupt_mux = update s.interrupt_mux i (bit_and value 0x7f7f7f7f);
}

-- The chain of address tests: the banks of EVTSET, EVTCLR, EVTMASK and EXPMASK and the selector,
-- the first that the address has.
pub store :
    Intc
    → Delivery
    → ℕ
    → Bool
    → Option ℕ
    → Option ℕ
    → Option ℕ
    → Option ℕ
    → Option ℕ
    → Bool × Intc × Delivery
store s delivery value commit (some bank) _ _ _ _ =
    let (s', delivery') = set_events s delivery bank value in
    if commit then (true, s', delivery') else (true, s, delivery)
store s delivery value commit none (some bank) _ _ _ =
    if commit then (true, clear_events s bank value, delivery) else (true, s, delivery)
store s delivery value commit none none (some bank) _ _ =
    let (s', delivery') = mask_events s delivery bank value in
    if commit then (true, s', delivery') else (true, s, delivery)
store s delivery value commit none none none (some bank) _ =
    if commit then (true, mask_exceptions s bank value, delivery) else (true, s, delivery)
store s delivery value commit none none none none (some i) =
    if commit then (true, select_interrupts s i value, delivery) else (true, s, delivery)
store s delivery value commit none none none none none = (false, s, delivery)

-- `cdj_c6747_intc_write_delivery`
pub write_delivery : Intc → Delivery → ℕ → ℕ → ℕ → Bool → Bool × Intc × Delivery
write_delivery s delivery address value size commit =
    if size != 4 || ltb u32_max value
    then (false, s, delivery)
    else store s delivery value commit (banked address evtset0) (banked address evtclr0)
        (banked address evtmask0) (banked address expmask0) (muxed address)

-- `cdj_c6747_intc_write`
pub write : Intc → ℕ → ℕ → ℕ → Bool → Bool × Intc
write s address value size commit =
    let (accepted, s', delivery) = write_delivery s none address value size commit in (accepted, s')
