-- ===== src/Spi/Transfer/Timed/Arrive.antt =====
-- From the store of a word to the half tick in which the converter has it.
use cdj2000_emulator.Prelude.{
  ℕ, ◌+◌, ◌%◌, ◌^◌, ◌==◌, leb, if◌then◌else◌, Bool, true, false, not, ◌≡◌, refl, arith, ap, ◌∙◌,
  some, eq-cases, inl, inr, [], ◌∷◌, ◌++◌,
}
use cdj2000_emulator.Prelude.Cases.{if_keeps}
use cdj2000_emulator.Prelude.Word.{has}
use cdj2000_emulator.Spi.{enable, spi1_base}
use cdj2000_emulator.Spi.Dac
use cdj2000_emulator.Spi.Dac.{Wm8740, latch}
use cdj2000_emulator.Spi.Transfer.{
  Line, Transfer, transfer_valid, transfer_active, transfer_word_valid, start_transfer,
  c2t_half_ticks, idle, advance,
}
use cdj2000_emulator.Spi.Transfer.Valid.{IsReady, active_remaining, valid_word, strict_c2t}
use cdj2000_emulator.Spi.Transfer.Deliver.{
  Words, pending, busy, delivered, word_time, gap_time, Result, advance_lem,
}
use cdj2000_emulator.Spi.Transfer.Timed.{
  Timed, acceptable, strict_configuration, barred, accept, write_window, write_timed,
}
use cdj2000_emulator.Spi.Transfer.Timed.Accept.{acceptable_lem, accept-valid, queue}

-- The last word of a list is latched after the others, if it is due.
delivered-last :
    (n due w : ℕ) (ws : Words) (d : Wm8740)
    → delivered n (ws ++ (due, w) ∷ []) d
      ≡ (let before = delivered n ws d in if leb due n then latch before (w % 2 ^ 16) else before)
unfolding delivered
delivered-last n due w [] d = refl
delivered-last n due w ((k, x) ∷ ws) d =
    delivered-last n due w ws (if leb k n then latch d (x % 2 ^ 16) else d)

-- An accepted transfer is idle when it has no time left to be busy.
pub idle-busy : (t : Transfer) → transfer_valid t ≡ true → (t.phase == idle) ≡ (busy t == 0)
unfolding busy
idle-busy t v = elim (eq-cases t.phase idle) [
  | inl i ↦ ground arith
  | inr a ↦ let some_left = active_remaining t v a in ground arith
]

-- The transfer `t'` owes the word `w` after all that `t` owes.
abbrev pub Appended : Transfer → ℕ → Transfer → Type 0
Appended t w t' =
    (pending t' ≡ pending t ++ (busy t + word_time, w) ∷ [])
    × (busy t' ≡ busy t + word_time + gap_time)
    × (t'.fault ≡ t.fault)

started-Appended :
    (t : Transfer) (w f d : ℕ)
    → transfer_active t ≡ false
    → transfer_word_valid w f d ≡ true
    → Appended t w (start_transfer t w f d)
unfolding transfer_active start_transfer pending busy
started-Appended t w f d i h =
    let shape = valid_word w f d h in ground (arith, ap c2t_half_ticks shape.2, strict_c2t)

queued-Appended :
    (t : Transfer) (w f d : ℕ) (vacated : Bool)
    → transfer_valid t ≡ true
    → transfer_active t ≡ true
    → t.queued_valid ≡ 0
    → Appended t w (queue t w f d vacated)
unfolding transfer_valid transfer_active pending busy
queued-Appended t w f d vacated v a q = ground arith

pub accept-Appended :
    (s : Timed) (d : Wm8740) (w : ℕ)
    → transfer_valid s.transfer ≡ true
    → acceptable s d w ≡ true
    → Appended s.transfer w (accept s w).transfer
unfolding accept
accept-Appended s d w v h =
    let facts = acceptable_lem s d w h in
    if_keeps (λ (x : Timed). Appended s.transfer w x.transfer) (not (transfer_active s.transfer))
      (λ i.
        started-Appended s.transfer w ((s.spis 1).format 0) (s.spis 1).delay (ground (arith, i))
          facts.1)
      (λ a.
        queued-Appended s.transfer w ((s.spis 1).format 0) (s.spis 1).delay _ v (ground (arith, a))
          facts.0)

-- A store to the enabled port that is taken passed every guard.
pub taken_word :
    (s : Timed) (dac : Wm8740) (w : ℕ)
    → has (s.spis 1).gcr1 enable ≡ true
    → (write_timed dac s (spi1_base + 0x3c) w 4 true).0 ≡ true
    → (acceptable s dac w ≡ true)
      × (s.transfer.fault ≡ 0)
      × ((write_timed dac s (spi1_base + 0x3c) w 4 true).1 ≡ accept s w)
unfolding write_timed write_window barred
taken_word s dac w e h = ground (arith, e)

pub acceptable-valid :
    (s : Timed) (dac : Wm8740) (w : ℕ) → acceptable s dac w ≡ true → Dac.valid dac ≡ true
unfolding acceptable strict_configuration
acceptable-valid s dac w h = ground arith

-- Port 1, the converter and the transfer after a store of a word.
abbrev pub after_store : Wm8740 → Timed → ℕ → Line
after_store dac s w =
    let s' = (write_timed dac s (spi1_base + 0x3c) w 4 true).1 in
    record { spi = s'.spis 1; dac = dac; transfer = s'.transfer }

-- In a transfer that its check accepts, a word that the enabled port takes reaches the converter
-- when the port would have been idle and 814 half ticks more: at any time before, the converter has
-- had the words before it, and from then on this one too. The port is idle 4 half ticks later, and
-- the run is never at fault.
pub word_arrives :
    (dac : Wm8740) (s : Timed) (w n : ℕ)
    → transfer_valid s.transfer ≡ true
    → has (s.spis 1).gcr1 enable ≡ true
    → (write_timed dac s (spi1_base + 0x3c) w 4 true).0 ≡ true
    → let before = delivered n (pending s.transfer) dac in
      (l : Line) × (advance (after_store dac s w) n ≡ some (true, l))
      × (l.dac ≡ (if leb (busy s.transfer + 814) n then latch before (w % 2 ^ 16) else before))
      × ((l.transfer.phase == idle) ≡ leb (busy s.transfer + 818) n)
word_arrives dac s w n v e h =
    let taken = taken_word s dac w e h in
    let owed = accept-Appended s dac w v taken.0 in
    let ready : IsReady (line (accept s w)) =
      (acceptable-valid s dac w taken.0, accept-valid s dac w v taken.0, owed.2 ∙ taken.1) in
    let run : Result n (line (accept s w)) (advance (line (accept s w)) n) =
      advance_lem (line (accept s w)) n ready in
    (
      run.0,
      ap (λ (x : Timed). advance (line x) n) taken.2 ∙ run.1,
      run.3.converter
          ∙ ap (λ (ws : Words). delivered n ws dac) owed.0
          ∙ delivered-last n (busy s.transfer + 814) w (pending s.transfer) dac,
      idle-busy run.0.transfer run.2.1 ∙ ground (arith, run.3.time, owed.1),
    )
  where
    line : Timed → Line
    line x = record { spi = x.spis 1; dac = dac; transfer = x.transfer }
