-- ===== src/Timer/Status.antt =====
-- The latched status of the period interrupts, their enables, and the events that outputs raise.
use Prim.Native.Nat.{bit_or}
use cdj2000_emulator.Prelude.{
  ℕ, ◌<◌, ◌^◌, ◌==◌, ltb, leb, true, not, ◌&&◌, ◌||◌, ◌≡◌, ◌≢◌, arith, ◌∙◌,
}
use cdj2000_emulator.Prelude.Bits.{bit, bit-zero, bit-and, bit-or, bit-pow, bit_and-pow}
use cdj2000_emulator.Prelude.Word.{has, not32, bit-not32, pow-IsWord}
use cdj2000_emulator.Intc.{Intc, Delivery, deliver_event}
use cdj2000_emulator.Intc.Delivery.{accepted_iff}
use cdj2000_emulator.Timer.{Timer, gate, tick_chained, tick_64, tick_one, tick_timer, timer_event}

-- One gate, at the bit of its output, of its status and of its enable.
module _ (o st e outputs : ℕ) (s : Timer) where
  abbrev gated : ℕ × Timer
  gated = gate (2 ^ o) (2 ^ st) (2 ^ e) (outputs, s)

  gate-status :
      (j : ℕ) → bit gated.1.intctlstat j ≡ (bit s.intctlstat j || (st == j && bit outputs o))
  unfolding gate
  gate-status j =
      ground (arith, bit_and-pow o outputs, bit-or j s.intctlstat (2 ^ st), bit-pow st j)

  gate-output :
      (i : ℕ)
      → i < 32
      → o < 32
      → st ≢ e
      → bit gated.0 i ≡ (bit outputs i && not (o == i && not (bit s.intctlstat e)))
  unfolding gate
  gate-output i h k ne = ground (
    arith,
    bit_and-pow o outputs,
    bit_and-pow e (bit_or s.intctlstat (2 ^ st)),
    bit-or e s.intctlstat (2 ^ st),
    bit-pow st e,
    bit-and i outputs (not32 (2 ^ o)),
    bit-not32 i (2 ^ o) (pow-IsWord o k) h,
    bit-pow o i,
  )

tick_one-status : (s : Timer) → (tick_one s).1.intctlstat ≡ s.intctlstat
unfolding tick_one tick_chained tick_64
tick_one-status s = ground arith

-- The two gates in a row.
both : ℕ → Timer → ℕ × Timer
both outputs s = gate 2 (2 ^ 17) (2 ^ 16) (gate 1 (2 ^ 1) 1 (outputs, s))

both-status :
    (outputs : ℕ) (s : Timer) (j : ℕ)
    → bit (both outputs s).1.intctlstat j
      ≡ ((bit s.intctlstat j || (1 == j && bit outputs 0)) || (17 == j && bit outputs 1))
unfolding both
both-status outputs s j = ground (
  arith,
  gate-status 0 1 0 outputs s j,
  gate-status 1 17 16 (gate 1 (2 ^ 1) 1 (outputs, s)).0 (gate 1 (2 ^ 1) 1 (outputs, s)).1 j,
  gate-output 0 1 0 outputs s 1 (omega arith) (omega arith) (omega arith),
)

both-output :
    (outputs : ℕ) (s : Timer) (i : ℕ)
    → i < 32
    → bit (both outputs s).0 i ≡ (
        bit outputs i
        && not (0 == i && not (bit s.intctlstat 0))
        && not (1 == i && not (bit s.intctlstat 16)))
unfolding both
both-output outputs s i h = ground (
  arith,
  gate-output 0 1 0 outputs s i h (omega arith) (omega arith),
  gate-output 1 17 16 (gate 1 (2 ^ 1) 1 (outputs, s)).0 (gate 1 (2 ^ 1) 1 (outputs, s)).1 i h
      (omega arith) (omega arith),
  gate-status 0 1 0 outputs s 16,
)

-- A tick of a timer with a half out of reset: an output of the count passes if it is a compare match,
-- and if it is a period match exactly if that interrupt is enabled; a period match sets its status
-- bit whether or not it is enabled, and no other bit of INTCTLSTAT changes.
tick_timer_lem :
    (s : Timer) (i j : ℕ)
    → has s.tgcr 3 ≡ true
    → i < 32
    → let outputs = (tick_one s).0 in
      let (passed, s') = tick_timer s in
      (bit passed i ≡ (
        bit outputs i
        && not (0 == i && not (bit s.intctlstat 0))
        && not (1 == i && not (bit s.intctlstat 16))))
      × (bit s'.intctlstat j
          ≡ ((bit s.intctlstat j || (1 == j && bit outputs 0)) || (17 == j && bit outputs 1)))
unfolding tick_timer both
tick_timer_lem s i j r h = ground (
  arith,
  both-output (tick_one s).0 (tick_one s).1 i h,
  both-status (tick_one s).0 (tick_one s).1 j,
  tick_one-status s,
  bit-zero i,
  bit-zero 0,
  bit-zero 1,
)

event_range : (a : ℕ) → (leb 4 (timer_event a) && ltb (timer_event a) 128) ≡ ltb a 20
unfolding timer_event
event_range a = ground arith

-- Different outputs raise different events.
pub timer_event-injective : (a b : ℕ) → a < 20 → b < 20 → timer_event a ≡ timer_event b → a ≡ b
unfolding timer_event
timer_event-injective a b h k e = ground arith

-- The interrupt controller accepts the event of each of the timers' twenty outputs, and refuses the
-- number that any other bit gives.
timer_event_accepted :
    (a : ℕ) (s : Intc) (delivery : Delivery)
    → (deliver_event s delivery (timer_event a)).0 ≡ ltb a 20
timer_event_accepted a s delivery = accepted_iff s delivery (timer_event a) ∙ event_range a
