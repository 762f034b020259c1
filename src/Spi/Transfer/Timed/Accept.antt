-- ===== src/Spi/Transfer/Timed/Accept.antt =====
-- What a store to the busy or idle port does to its transfer, and when the converter has the word.
use cdj2000_emulator.Prelude.{
  ℕ, ◌-◌, ◌/◌, ◌^◌, ◌<◌, ◌==◌, ◌!=◌, if◌then◌else◌, Bool, true, false, not, ◌&&◌, ◌||◌, ◌≡◌, arith,
  ap,
}
use cdj2000_emulator.Prelude.Bits.{bit_and-mask}
use cdj2000_emulator.Prelude.Cases.{if_keeps}
use cdj2000_emulator.Prelude.Word.{has}
use cdj2000_emulator.Bus.{TwoPhase}
use cdj2000_emulator.Spi.{enable, spi1_base}
use cdj2000_emulator.Spi.Registers
use cdj2000_emulator.Spi.Registers.Laws.{write-TwoPhase}
use cdj2000_emulator.Spi.Dac.{Wm8740}
use cdj2000_emulator.Spi.Transfer.{
  Transfer, transfer_valid, transfer_active, transfer_word_valid, discard_transfer, start_transfer,
  c2t_half_ticks, cleared, t2c, gap,
}
use cdj2000_emulator.Spi.Transfer.Valid.{no_word, valid_word, strict_c2t}
use cdj2000_emulator.Spi.Transfer.Timed.{
  Timed, strict_configuration, acceptable, busy_refuses, barred, accept, configure, write_window,
  write_timed,
}

-- What an acceptable word meets.
pub acceptable_lem :
    (s : Timed) (d : Wm8740) (w : ℕ)
    → acceptable s d w ≡ true
    → (s.transfer.queued_valid ≡ 0)
      × (transfer_word_valid w ((s.spis 1).format 0) (s.spis 1).delay ≡ true)
unfolding acceptable strict_configuration transfer_word_valid
acceptable_lem s d w h = ground arith

started-valid :
    (t : Transfer) (w f d : ℕ)
    → transfer_valid t ≡ true
    → transfer_active t ≡ false
    → transfer_word_valid w f d ≡ true
    → transfer_valid (start_transfer t w f d) ≡ true
unfolding transfer_valid transfer_active start_transfer
started-valid t w f d v i h =
    let shape = valid_word w f d h in ground (arith, no_word, ap c2t_half_ticks shape.2, strict_c2t)

-- A word that waits, in the transfer whose queue is empty.
abbrev pub queue : Transfer → ℕ → ℕ → ℕ → Bool → Transfer
queue t w f d vacated = record t {
  queued_control = w;
  queued_format = f;
  queued_delay = d;
  queued_valid = 1;
  tx_full = if vacated then 0 else 1;
}

queued-valid :
    (t : Transfer) (w f d : ℕ)
    → transfer_valid t ≡ true
    → transfer_active t ≡ true
    → t.queued_valid ≡ 0
    → transfer_word_valid w f d ≡ true
    → transfer_valid (queue t w f d (t.phase == t2c || t.phase == gap)) ≡ true
unfolding transfer_valid transfer_active
queued-valid t w f d v a q h = ground arith

pub accept-valid :
    (s : Timed) (d : Wm8740) (w : ℕ)
    → transfer_valid s.transfer ≡ true
    → acceptable s d w ≡ true
    → transfer_valid (accept s w).transfer ≡ true
unfolding accept
accept-valid s d w v h =
    let facts = acceptable_lem s d w h in
    if_keeps (λ (x : Timed). transfer_valid x.transfer ≡ true) (not (transfer_active s.transfer))
      (λ i.
        started-valid s.transfer w ((s.spis 1).format 0) (s.spis 1).delay v (ground (arith, i))
          facts.1)
      (λ a.
        queued-valid s.transfer w ((s.spis 1).format 0) (s.spis 1).delay v (ground (arith, a))
          facts.0 facts.1)

cleared-valid : (clock_phase : ℕ) → transfer_valid (cleared clock_phase) ≡ true
unfolding transfer_valid cleared
cleared-valid clock_phase = ground (arith, no_word)

held-valid :
    (t : Transfer) (c : ℕ)
    → c < 2
    → transfer_valid t ≡ true
    → transfer_valid (record t { previous_cshold = c }) ≡ true
unfolding transfer_valid
held-valid t c h v = ground arith

configure-valid :
    (s : Timed) (address w : ℕ) (commit : Bool)
    → transfer_valid s.transfer ≡ true
    → transfer_valid (configure s address w commit).1.transfer ≡ true
unfolding configure discard_transfer
configure-valid s address w commit v =
    let offset = address - spi1_base in
    let discards =
      commit && ((offset == 0 && not (has w 1)) || (offset == 4 && not (has w enable))) in
    if_keeps P (Registers.write s.spis address w 4 commit).0
      (λ _.
        if_keeps P (commit && offset == 0x3c)
          (λ _.
            held-valid (if discards then cleared s.transfer.clock_phase else s.transfer) _
              (omega (arith, bit_and-mask 1 (w / 2 ^ 28)))
              (if_keeps P discards (λ _. cleared-valid s.transfer.clock_phase) (λ _. v)))
          (λ _. if_keeps P discards (λ _. cleared-valid s.transfer.clock_phase) (λ _. v)))
      (λ _. v)
  where
    P : Transfer → Type 0
    P t = transfer_valid t ≡ true

abbrev Accepted : Bool × Timed → Type 0
Accepted x = transfer_valid x.1.transfer ≡ true

write_window-valid :
    (s : Timed) (dac : Wm8740) (address w : ℕ) (commit : Bool)
    → transfer_valid s.transfer ≡ true
    → Accepted (write_window s dac address w commit)
unfolding write_window
write_window-valid s dac address w commit v =
    if_keeps Accepted (busy_refuses s (address - spi1_base) w) (λ _. v)
      (λ _.
        if_keeps Accepted (address - spi1_base != 0x3c || not (has (s.spis 1).gcr1 enable))
          (λ _. configure-valid s address w commit v)
          (λ _.
            if_keeps Accepted (not (acceptable s dac w)) (λ _. v)
              (λ a.
                if_keeps (λ (x : Timed). transfer_valid x.transfer ≡ true) commit
                  (λ _. accept-valid s dac w v (ground (arith, a))) (λ _. v))))

-- Every store to port 1's window leaves a transfer that its check accepts.
pub write_timed-valid :
    (dac : Wm8740) (s : Timed) (address value size : ℕ) (commit : Bool)
    → transfer_valid s.transfer ≡ true
    → transfer_valid (write_timed dac s address value size commit).1.transfer ≡ true
unfolding write_timed
write_timed-valid dac s address value size commit v =
    if_keeps Accepted (barred s address value size) (λ _. v)
      (λ _. write_window-valid s dac address value commit v)

configure-phases :
    (s : Timed) (address w : ℕ)
    → (configure s address w false ≡ ((configure s address w true).0, s))
      × ((configure s address w true).1
          ≡ (if (configure s address w true).0 then (configure s address w true).1 else s))
unfolding configure
configure-phases s address w = ground (arith, write-TwoPhase s.spis address w 4)

-- So does a store to the window of the timed port.
pub write_timed-TwoPhase :
    (dac : Wm8740) (s : Timed) (address value size : ℕ)
    → TwoPhase (write_timed dac) s address value size
unfolding write_timed write_window
write_timed-TwoPhase dac s address value size = ground (arith, configure-phases s address value)
