-- ===== src/Spi/Dac/Laws.antt =====
-- What the converter makes of a word.
use Prim.Native.Nat.{bit_and}
use cdj2000_emulator.Prelude.{ℕ, ◌/◌, ◌%◌, ◌^◌, ◌<◌, true, false, ◌≡◌, refl, ◌∙◌, arith}
use cdj2000_emulator.Prelude.Bits.{bit_and-mask}
use cdj2000_emulator.Prelude.Word.{and_disjoint}
use cdj2000_emulator.Spi.Dac.{Wm8740, register, addressed, valid, latch, write, word_valid}

-- A word of sixteen bits names the same register as the word that it is cut from.
register-low : (w : ℕ) → register (w % 2 ^ 16) ≡ register w
register-low w = bit_and-mask 3 (w % 2 ^ 16 / 2 ^ 9) ∙ omega (arith, bit_and-mask 3 (w / 2 ^ 9))

addressed-low : (w : ℕ) → addressed (w % 2 ^ 16) ≡ addressed w
unfolding addressed
addressed-low w = rw (register-low w)

pub write-valid_word :
    (d : Wm8740) (w : ℕ) → word_valid w ≡ true → write d w true ≡ (true, latch d (w % 2 ^ 16))
unfolding write word_valid
write-valid_word d w h = ground (arith, addressed-low w)

pub checked-valid_word : (d : Wm8740) (w : ℕ) → word_valid w ≡ true → write d w false ≡ (true, d)
unfolding write word_valid
checked-valid_word d w h = ground (arith, addressed-low w)

-- The converter stays in the state that its check accepts.
pub latch-valid : (d : Wm8740) (w : ℕ) → valid d ≡ true → valid (latch d w) ≡ true
unfolding valid latch
latch-valid d w h = ground (arith, bit_and_mask9, three, four)
  where
    bit_and_mask9 : bit_and w 0x1ff < 2 ^ 9
    bit_and_mask9 = omega (arith, bit_and-mask 9 w)

    three : bit_and (bit_and (bit_and w 0x1ff) 0x1df) 0xfffffe20 ≡ 0
    three = and_disjoint (bit_and w 0x1ff) 0x1df 0xfffffe20 (omega (arith, bit_and_mask9)) refl

    four : bit_and (bit_and (bit_and w 0x1ff) 0x70) 0xffffff8f ≡ 0
    four = and_disjoint (bit_and w 0x1ff) 0x70 0xffffff8f (omega (arith, bit_and_mask9)) refl
