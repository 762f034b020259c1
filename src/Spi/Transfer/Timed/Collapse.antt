-- ===== src/Spi/Transfer/Timed/Collapse.antt =====
-- The mode that collapses a transfer into its store, against the transfer that takes its time.
use Prim.Native.Nat.{bit_and, bit_or}
use cdj2000_emulator.Prelude.{
  ℕ, suc, ◌+◌, ◌-◌, ◌/◌, ◌%◌, ◌^◌, ◌≤◌, ◌<◌, Bool, true, false, ◌≡◌, ◌≢◌, refl, arith, ap, ◌∙◌, sym,
  some,
}
use mathlib.Core.Path.{ap₂, subst}
use cdj2000_emulator.Prelude.Arrays.{update}
use cdj2000_emulator.Prelude.Word.{has, not32, IsWord, and-IsWord, high_clear}
use cdj2000_emulator.Spi.{Spi, enable, spi1_base, tx_flag, dat1_write_mask}
use cdj2000_emulator.Spi.Dac.{Wm8740, latch, word_valid}
use cdj2000_emulator.Spi.Dac.Laws.{write-valid_word}
use cdj2000_emulator.Spi.Registers.{receive_pulled_up_word, transferred, write_wm8740}
use cdj2000_emulator.Spi.Registers.Laws.{functional_lem, receive-raised, transferred_lem}
use cdj2000_emulator.Spi.Transfer.{
  Line, raise_tx, strict_gcr1, strict_pins, strict_format, strict_delay, transfer_valid,
  transfer_active, start_transfer, c2t_half_ticks, idle, c2t, shift, t2c, gap, finish_c2t,
  finish_shift, finish_chip_select, finish_gap, t2c_half_ticks, phase_end, rounds, advance,
}
use cdj2000_emulator.Spi.Transfer.Valid.{
  IsReady, strict_c2t, active_strict, shift_time, t2c_time, phase_end-IsReady,
}
use cdj2000_emulator.Spi.Transfer.Deliver.{advance-rounds}
use cdj2000_emulator.Spi.Transfer.Split.{rounds_whole, rounds_none}
use cdj2000_emulator.Spi.Transfer.Timed.{
  Timed, acceptable, strict_configuration, barred, accept, write_timed,
}
use cdj2000_emulator.Spi.Transfer.Timed.Accept.{accept-valid}
use cdj2000_emulator.Spi.Transfer.Timed.Arrive.{
  taken_word, acceptable-valid, accept-Appended, after_store,
}

-- A line whose phase ends in another.
record Ends (r : ℕ) (l m : Line) : Type 0 where
  ready : IsReady l
  active : l.transfer.phase ≢ idle
  left : l.transfer.half_ticks_remaining ≡ r
  next : phase_end l ≡ (true, m)

Ends-rounds :
    (f n r : ℕ) (l m : Line) → Ends r l m → r ≤ n → rounds (suc f) n l ≡ rounds f (n - r) m
Ends-rounds f n r l m e h =
    rounds_whole f n l e.ready e.active (omega (arith, e.left, h))
    ∙ ap (λ (k : ℕ). rounds f (n - k) (phase_end l).1) e.left
    ∙ ap (λ (x : Bool × Line). rounds f (n - r) x.1) e.next

Ends-IsReady : (r : ℕ) (l m : Line) → Ends r l m → IsReady m
Ends-IsReady r l m e =
    subst (λ (x : Bool × Line). IsReady x.1) e.next (phase_end-IsReady l e.ready e.active).1

-- A word that nothing follows, from its start to the end of its gap.
abbrev alone : Line → Line
alone l =
    let t = l.transfer in
    record {
      spi = raise_tx (receive_pulled_up_word l.spi);
      dac = latch l.dac (t.active_control % 2 ^ 16);
      transfer = record t {
        previous_cshold = bit_and (t.active_control / 2 ^ 28) 1;
        active_control = 0;
        active_format = 0;
        active_delay = 0;
        phase = idle;
        half_ticks_remaining = 0;
      };
    }

at_c2t : (l : Line) → l.transfer.phase ≡ c2t → phase_end l ≡ (true, finish_c2t l)
unfolding phase_end
at_c2t l p = ground arith

at_shift : (l : Line) → l.transfer.phase ≡ shift → phase_end l ≡ (true, finish_shift l)
unfolding phase_end
at_shift l p = ground arith

-- The line after the latch of a word that nothing follows.
abbrev released : Line → Line
released l =
    let t = l.transfer in
    record l {
      spi = raise_tx l.spi;
      dac = latch l.dac (t.active_control % 2 ^ 16);
      transfer = record t {
        previous_cshold = bit_and (t.active_control / 2 ^ 28) 1;
        active_control = 0;
        active_format = 0;
        active_delay = 0;
        phase = gap;
        half_ticks_remaining = 4;
      };
    }

at_t2c :
    (l : Line)
    → IsReady l
    → l.transfer.phase ≡ t2c
    → l.transfer.queued_valid ≡ 0
    → phase_end l ≡ (true, released l)
unfolding phase_end finish_chip_select
at_t2c l ready p q =
    let word = (active_strict l.transfer ready.1 (omega arith) (omega arith)).0 in
    ground (arith, write-valid_word l.dac l.transfer.active_control word)

at_gap :
    (l : Line)
    → l.transfer.phase ≡ gap
    → l.transfer.queued_valid ≡ 0
    → phase_end l
      ≡ (true, record l { transfer = record l.transfer { phase = idle; half_ticks_remaining = 0 } })
unfolding phase_end finish_gap
at_gap l p q = ground arith

finish_shift_alone :
    (l : Line)
    → l.transfer.queued_valid ≡ 0
    → finish_shift l ≡ record l {
      spi = receive_pulled_up_word l.spi;
      transfer = record l.transfer {
        phase = t2c;
        half_ticks_remaining = t2c_half_ticks l.transfer.active_format l.transfer.active_delay;
      };
    }
unfolding finish_shift
finish_shift_alone l q = ground arith

-- A word that starts and that nothing follows is out, and the port is idle, in 818 half ticks.
alone_lem :
    (l : Line)
    → IsReady l
    → l.transfer.phase ≡ c2t
    → l.transfer.half_ticks_remaining ≡ 8
    → l.transfer.queued_valid ≡ 0
    → advance l 818 ≡ some (true, alone l)
unfolding finish_c2t
alone_lem l ready p r q =
    let t = l.transfer in
    let l1 = finish_c2t l in
    let l2 = record l1 {
      spi = receive_pulled_up_word l.spi;
      transfer = record l1.transfer {
        phase = t2c;
        half_ticks_remaining = t2c_half_ticks t.active_format t.active_delay;
      };
    } in
    let l3 = released l2 in
    let e0 : Ends 8 l l1 = record {
      ready = ready;
      active = ground arith;
      left = r;
      next = at_c2t l p;
    } in
    let ready1 = Ends-IsReady 8 l l1 e0 in
    let e1 : Ends 775 l1 l2 = record {
      ready = ready1;
      active = ground arith;
      left = shift_time t ready.1 (omega arith) (omega arith);
      next = at_shift l1 refl ∙ ap (λ (x : Line). (true, x)) (finish_shift_alone l1 q);
    } in
    let ready2 = Ends-IsReady 775 l1 l2 e1 in
    let e2 : Ends 31 l2 l3 = record {
      ready = ready2;
      active = ground arith;
      left = t2c_time t ready.1 (omega arith) (omega arith);
      next = at_t2c l2 ready2 refl q;
    } in
    let ready3 = Ends-IsReady 31 l2 l3 e2 in
    let e3 : Ends 4 l3 (alone l) = record {
      ready = ready3;
      active = ground arith;
      left = refl;
      next = at_gap l3 refl q;
    } in
    advance-rounds l 818 ready
    ∙ Ends-rounds 818 818 8 l l1 e0 (omega arith)
    ∙ Ends-rounds 817 810 775 l1 l2 e1 (omega arith)
    ∙ Ends-rounds 816 35 31 l2 l3 e2 (omega arith)
    ∙ Ends-rounds 815 4 4 l3 (alone l) e3 (omega arith)
    ∙ rounds_none 814 0 (alone l) refl

-- What a taken word says of the port, the transfer and the word.
record Taken (s : Timed) (dac : Wm8740) (w : ℕ) : Type 0 where
  stored : (write_timed dac s (spi1_base + 0x3c) w 4 true).1 ≡ accept s w
  ready :
      IsReady (record { spi = (accept s w).spis 1; dac = dac; transfer = (accept s w).transfer })
  gcr1 : (s.spis 1).gcr1 ≡ strict_gcr1
  pins : (s.spis 1).pin_function ≡ strict_pins
  format : (s.spis 1).format 0 ≡ strict_format
  delay : (s.spis 1).delay ≡ strict_delay
  word : word_valid w ≡ true
  half : w < 2 ^ 16

configured :
    (s : Timed) (dac : Wm8740) (w : ℕ)
    → acceptable s dac w ≡ true
    → ((s.spis 1).gcr1 ≡ strict_gcr1)
      × ((s.spis 1).pin_function ≡ strict_pins)
      × ((s.spis 1).format 0 ≡ strict_format)
      × ((s.spis 1).delay ≡ strict_delay)
      × (word_valid w ≡ true)
unfolding acceptable strict_configuration
configured s dac w h = ground arith

halfword : (w : ℕ) → IsWord w → word_valid w ≡ true → w < 2 ^ 16
unfolding word_valid
halfword w h v = omega (arith, high_clear w h (ground (arith, v)))

unbarred :
    (s : Timed) (dac : Wm8740) (w : ℕ)
    → (write_timed dac s (spi1_base + 0x3c) w 4 true).0 ≡ true
    → IsWord w
unfolding write_timed barred
unbarred s dac w h = ground arith

taken_lem :
    (dac : Wm8740) (s : Timed) (w : ℕ)
    → transfer_valid s.transfer ≡ true
    → has (s.spis 1).gcr1 enable ≡ true
    → (write_timed dac s (spi1_base + 0x3c) w 4 true).0 ≡ true
    → Taken s dac w
taken_lem dac s w v e h =
    let taken = taken_word s dac w e h in
    let shape = configured s dac w taken.0 in
    record {
      stored = taken.2;
      ready = (
        acceptable-valid s dac w taken.0,
        accept-valid s dac w v taken.0,
        (accept-Appended s dac w v taken.0).2 ∙ taken.1,
      );
      gcr1 = shape.0;
      pins = shape.1;
      format = shape.2;
      delay = shape.3;
      word = shape.4;
      half = halfword w (unbarred s dac w h) shape.4;
    }

started_line :
    (s : Timed) (w : ℕ)
    → transfer_active s.transfer ≡ false
    → (s.spis 1).delay ≡ strict_delay
    → ((accept s w).transfer.phase ≡ c2t)
      × ((accept s w).transfer.half_ticks_remaining ≡ 8)
      × ((accept s w).transfer.queued_valid ≡ 0)
      × ((accept s w).transfer.active_control ≡ w)
      × ((accept s w).spis 1 ≡ record (s.spis 1) {
        dat1 = bit_and w dat1_write_mask;
        flags = bit_or (bit_and (s.spis 1).flags (not32 tx_flag)) tx_flag;
      })
unfolding accept transfer_active start_transfer
started_line s w i d = ground (arith, ap c2t_half_ticks d, strict_c2t)

-- The port after the collapsed transfer is the one that receives the word with its flag raised.
received :
    (s : Timed) (w : ℕ)
    → IsWord (s.spis 1).flags
    → let port = record (s.spis 1) {
      dat1 = bit_and w dat1_write_mask;
      flags = bit_or (bit_and (s.spis 1).flags (not32 tx_flag)) tx_flag;
    } in
      raise_tx (receive_pulled_up_word port) ≡ transferred (s.spis 1) 0x3c w
received s w h =
    receive-raised (record (s.spis 1) { dat1 = bit_and w dat1_write_mask })
      (bit_and (s.spis 1).flags (not32 tx_flag)) (and-IsWord (s.spis 1).flags (not32 tx_flag) h)
    ∙ sym (transferred_lem (s.spis 1) w)

-- A word that the idle timed port takes: the store of the mode that collapses transfers takes it too,
-- and leaves at once the port and the converter that the timed transfer leaves after 818 half ticks.
pub collapsed :
    (dac : Wm8740) (s : Timed) (w : ℕ)
    → transfer_valid s.transfer ≡ true
    → transfer_active s.transfer ≡ false
    → IsWord (s.spis 1).flags
    → has (s.spis 1).gcr1 enable ≡ true
    → (write_timed dac s (spi1_base + 0x3c) w 4 true).0 ≡ true
    → (l : Line) × (advance (after_store dac s w) 818 ≡ some (true, l))
      × (write_wm8740 s.spis dac (spi1_base + 0x3c) w 4 true true
          ≡ (true, update s.spis 1 l.spi, l.dac))
collapsed dac s w v i f e h =
    let t = taken_lem dac s w v e h in
    let start = started_line s w i t.delay in
    let line : Timed → Line = λ x. record { spi = x.spis 1; dac = dac; transfer = x.transfer } in
    let l = line (accept s w) in
    (
      alone l,
      ap (λ (x : Timed). advance (line x) 818) t.stored
          ∙ alone_lem l t.ready start.0 start.1 start.2,
      functional_lem s.spis dac w t.gcr1 t.pins t.format t.half t.word
          ∙ ap₂ (λ (p : Spi) (c : ℕ). (true, update s.spis 1 p, latch dac (c % 2 ^ 16)))
              (sym (ap (λ (p : Spi). raise_tx (receive_pulled_up_word p)) start.4 ∙ received s w f))
              (sym start.3),
    )
