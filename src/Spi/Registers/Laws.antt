-- ===== src/Spi/Registers/Laws.antt =====
-- The stores to the ports' registers under the two-phase protocol, and the receive buffer as a queue.
use cdj2000_emulator.Prelude.{
  ℕ, ◌+◌, ◌%◌, ◌!=◌, ltb, if◌then◌else◌, true, false, ◌||◌, ◌≡◌, ap, ◌∙◌, ◌^◌, ◌/◌, ◌<◌, refl,
  arith, Bool-cases, inl, inr, Option, some, none,
}
use Prim.Native.Nat.{bit_and, bit_or}
use cdj2000_emulator.Prelude.Arrays.{update, update_same}
use cdj2000_emulator.Prelude.Bits.{bit_and-mask, bit-or}
use cdj2000_emulator.Prelude.Word.{u32_max, not32, IsWord, and_disjoint, word_ext, or-IsWord}
use cdj2000_emulator.Bus.{TwoPhase}
use cdj2000_emulator.Spi.{
  Spi, Spis, spi1_base, dat1_write_mask, tx_flag, rx_flag, overrun_flag, decode,
}
use cdj2000_emulator.Spi.Dac.{Wm8740, word_valid, latch}
use cdj2000_emulator.Spi.Dac.Laws.{write-valid_word}
use cdj2000_emulator.Spi.Registers.{
  refused, stored, write_at, write, routed, transferred, functional_at, write_wm8740,
  receive_pulled_up_word,
}

unstored : (s : Spi) (offset w : ℕ) → stored s offset w false ≡ s
unfolding stored
unstored s offset w = ground arith

write_at-phases :
    (spis : Spis) (place : ℕ × ℕ) (w : ℕ)
    → (write_at spis place w false ≡ ((write_at spis place w true).0, spis))
      × ((write_at spis place w true).1
          ≡ (if (write_at spis place w true).0 then (write_at spis place w true).1 else spis))
unfolding write_at
write_at-phases spis (i, offset) w =
    elim (Bool-cases (offset % 4 != 0 || refused (spis i) offset w)) [
      | inl bad ↦ rw bad (refl, refl)
      | inr good ↦ rw good (
        ap (λ (x : Spis). (true, x))
            (ap (update spis i) (unstored (spis i) offset w) ∙ update_same spis i),
        refl,
      )
    ]

-- A store to either port's window follows the two-phase protocol.
pub write-TwoPhase : (spis : Spis) (address value size : ℕ) → TwoPhase write spis address value size
unfolding write
write-TwoPhase spis address value size =
    elim (decode address)
      as (λ (p : Option (ℕ × ℕ)).
        TwoPhase {S = Spis}
          (λ s a v z c. elim p [
            | none ↦ (false, s)
            | some place ↦ if z != 4 || ltb u32_max v then (false, s) else write_at s place v c
          ])
          spis address value size) [
            | none ↦ (refl, refl)
            | some place ↦ ground (arith, write_at-phases spis place value)
          ]

-- The converter's pins and the strict shape are enough for the collapsed transfer of a halfword.
strict-routed :
    (s : Spi) (w : ℕ)
    → s.gcr1 ≡ 0x01000003
    → s.pin_function ≡ 0xe01
    → s.format 0 ≡ 0x00021810
    → w < 2 ^ 16
    → routed s 0x3c w ≡ true
unfolding routed
strict-routed s w g p f h =
    let clear : bit_and w 0x10010000 ≡ 0 =
      ap (λ (v : ℕ). bit_and v 0x10010000) {x = w} {y = bit_and w 0xffff}
        (omega (arith, bit_and-mask 16 w))
      ∙ and_disjoint w 0xffff 0x10010000 (omega arith) refl in
    let first : bit_and (w / 2 ^ 24) 3 ≡ 0 = omega (arith, bit_and-mask 2 (w / 2 ^ 24)) in
    rw (g, p, first, f, clear) refl

pub functional_lem :
    (spis : Spis) (dac : Wm8740) (w : ℕ)
    → (spis 1).gcr1 ≡ 0x01000003
    → (spis 1).pin_function ≡ 0xe01
    → (spis 1).format 0 ≡ 0x00021810
    → w < 2 ^ 16
    → word_valid w ≡ true
    → write_wm8740 spis dac (spi1_base + 0x3c) w 4 true true
      ≡ (true, update spis 1 (transferred (spis 1) 0x3c w), latch dac (w % 2 ^ 16))
unfolding write_wm8740 functional_at decode
functional_lem spis dac w g p f h v =
    ground (arith, strict-routed (spis 1) w g p f h, write-valid_word dac w v)

-- A flag that is raised stays raised, whatever the received word raises.
pub raised_twice :
    (f g h : ℕ)
    → IsWord f
    → IsWord g
    → IsWord h
    → bit_or (bit_or (bit_or f g) h) g ≡ bit_or (bit_or f g) h
raised_twice f g h p q r =
    word_ext (bit_or (bit_or (bit_or f g) h) g) (bit_or (bit_or f g) h)
      (or-IsWord _ g (or-IsWord _ h (or-IsWord f g p q) r) q) (or-IsWord _ h (or-IsWord f g p q) r)
      (λ i k.
        ground (arith, bit-or i (bit_or (bit_or f g) h) g, bit-or i (bit_or f g) h, bit-or i f g))

pub raised_again : (f g : ℕ) → IsWord f → IsWord g → bit_or (bit_or f g) g ≡ bit_or f g
raised_again f g p q =
    word_ext (bit_or (bit_or f g) g) (bit_or f g) (or-IsWord _ g (or-IsWord f g p q) q)
      (or-IsWord f g p q) (λ i k. ground (arith, bit-or i (bit_or f g) g, bit-or i f g))

-- Receiving a word keeps the transmit flag.
pub receive-raised :
    (s : Spi) (f : ℕ)
    → IsWord f
    → let r = receive_pulled_up_word (record s { flags = bit_or f tx_flag }) in
      record r { flags = bit_or r.flags tx_flag } ≡ r
unfolding receive_pulled_up_word
receive-raised s f h =
    let again = raised_again f tx_flag h (omega arith) in
    let rx = raised_twice f tx_flag rx_flag h (omega arith) (omega arith) in
    let over = raised_twice f tx_flag overrun_flag h (omega arith) (omega arith) in
    ground (arith, again, rx, over)

-- The collapsed transfer of a word in SPIDAT1, with the record written once.
pub transferred_lem :
    (s : Spi) (w : ℕ)
    → transferred s 0x3c w
      ≡ receive_pulled_up_word (record s {
        dat1 = bit_and w dat1_write_mask;
        flags = bit_or (bit_and s.flags (not32 tx_flag)) tx_flag;
      })
unfolding transferred
transferred_lem s w = refl
