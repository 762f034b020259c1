-- ===== src/Mcasp/Slots/Tests.antt =====
-- A port that transmits on one serializer in frames of two slots.
use cdj2000_emulator.Prelude.{◌+◌, ◌≤◌, ◌%◌, ◌<◌, true, ◌≡◌, refl, arith, some, none}
use cdj2000_emulator.Prelude.Arrays.{update}
use cdj2000_emulator.Mcasp.{Port, control_reset, active_tx_mask, serializer_count, transmits}
use cdj2000_emulator.Mcasp.Slots.{frame_slots, tx_slot_port, afsx, tx_clock_hz}
use cdj2000_emulator.Mcasp.Slots.Frame.{Runs}
use cdj2000_emulator.Mcasp.Slots.Round.{boundaries, tx_slot-round}
use cdj2000_emulator.Mcasp.Stores.{u64_max}
use cdj2000_emulator.Mcasp.Slots.Words.{Sent, slot_sends}

-- Instance 2, with a word in the buffer of serializer 1.
playing : Port
unfolding control_reset
playing = record (control_reset 2) {
  gblctl = 0x1f00;
  afsxctl = 0x112;
  xfmt = 0xf0;
  aclkxctl = 0x27;
  ahclkxctl = 0x8001;
  xtdm = 3;
  srctl = update (λ n. 0) 1 5;
  xbuf = update (λ n. 0) 1 0x1234;
  xbuf_sequence = update (λ n. 0) 1 1;
  xbuf_writes = 1;
}

sent_port : Port
unfolding tx_slot_port playing
sent_port = elim (tx_slot_port playing 2) [ none ↦ playing | some (axevt, q) ↦ q ]

sent_word : sent_port.xrsr 1 ≡ 0x1234
unfolding sent_port
sent_word = refl

playing_sends : tx_slot_port playing 2 ≡ some (true, sent_port)
unfolding sent_port tx_slot_port playing
playing_sends = refl

playing_active : transmits playing 1 ≡ true
unfolding playing
playing_active = refl

serializer_1 : 1 < serializer_count 2
unfolding serializer_count
serializer_1 = omega arith

slot_sends_example : Sent playing sent_port 2 1
slot_sends_example = slot_sends playing sent_port 2 1 playing_sends serializer_1 playing_active

playing-Runs : Runs 2 2 playing
unfolding playing active_tx_mask frame_slots
playing-Runs = record { released = refl; active = refl; frame = refl }

in_reset : playing.xslot ≡ 0x17f
unfolding playing
in_reset = refl

no_boundaries : playing.tx_slot_boundaries + 6 ≤ u64_max
unfolding playing
no_boundaries = omega arith

no_events : playing.axevt_generation + 6 ≤ u64_max
unfolding playing
no_events = omega arith

tx_slot-round_example :
    (q : Port) × (boundaries 6 2 playing ≡ some q)
    × (q.xslot ≡ 5 % 2)
    × (q.tx_slot_boundaries ≡ playing.tx_slot_boundaries + 6)
tx_slot-round_example =
    tx_slot-round 5 2 2 playing (omega arith) (omega arith) playing-Runs in_reset no_boundaries
      no_events

-- 24 MHz divided by 2, by 8, and by two slots of 32 bits.
playing_frames : tx_clock_hz (λ b. playing) 2 24000000 afsx ≡ some (24000000, 1024)
unfolding tx_clock_hz playing
playing_frames = refl
