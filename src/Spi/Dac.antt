-- ===== src/Spi/Dac.antt =====
-- emulator/qemu/cdj_c6747_spi.h and .c: the WM8740, a shift register of sixteen bits that only takes
-- words. A word names one of its registers, or none, which the port refuses.
use Prim.Native.Nat.{bit_and}
pub mod Laws
use cdj2000_emulator.Prelude.{
  ℕ, ◌+◌, ◌/◌, ◌%◌, ◌^◌, ◌==◌, ltb, leb, if◌then◌else◌, Bool, true, false, not, ◌&&◌, ◌||◌,
}
use cdj2000_emulator.Prelude.Arrays.{Array, update}
use cdj2000_emulator.Prelude.Word.{has, not32, u64}

-- `CdjWm8740`
pub record Wm8740 : Type 0 where
  pub program : Array ℕ
  pub last_word : ℕ
  pub transfers : ℕ
  pub active_attenuation : Array ℕ
  pub register4_unlocked : ℕ

unfoldable pub reset : Wm8740
reset = record {
  program = λ i. if i == 0 || i == 1 then 0xff else 0;
  last_word = 0;
  transfers = 0;
  active_attenuation = λ i. 0xff;
  register4_unlocked = 0;
}

unfoldable pub valid : Wm8740 → Bool
valid d = not (
    ltb 0x1ff (d.program 0)
    || ltb 0x1ff (d.program 1)
    || ltb 0x1ff (d.program 2)
    || has (d.program 3) (not32 0x1df)
    || has (d.program 4) (not32 0x70)
    || ltb 1 d.register4_unlocked)

-- The register that a word names, and whether there is one.
abbrev pub register : ℕ → ℕ
register word = bit_and (word / 2 ^ 9) 7

unfoldable pub addressed : ℕ → Bool
addressed word = leb (register word) 3 || register word == 6

-- `wm8740_write` with `commit`, at a word that names a register.
unfoldable pub latch : Wm8740 → ℕ → Wm8740
latch d word =
    let data' = bit_and word 0x1ff in
    let counted = record d { last_word = word; transfers = u64 (d.transfers + 1) } in
    let program' = update d.program (register word) data' in
    if leb (register word) 1
    then record counted {
      program = program';
      active_attenuation =
          if has data' 0x100 then (λ i. bit_and (program' i) 0xff) else d.active_attenuation;
    }
    else if register word == 2
    then record counted {
      program = update d.program 2 data';
      register4_unlocked = if bit_and data' 0x1e0 == 0x1e0 then 1 else d.register4_unlocked;
    }
    else if register word == 3
    then record counted { program = update d.program 3 (bit_and data' 0x1df) }
    else if d.register4_unlocked == 0
    then counted
    else record counted { program = update d.program 4 (bit_and data' 0x70) }

-- `wm8740_write`, whose argument is a `uint16_t`: whether the word is taken, and the converter.
unfoldable pub write : Wm8740 → ℕ → Bool → Bool × Wm8740
unfolding addressed latch
write d word commit =
    let low = word % 2 ^ 16 in
    if not (addressed low) then (false, d) else (true, if commit then latch d low else d)

-- `wm8740_word_valid`
unfoldable pub word_valid : ℕ → Bool
unfolding addressed
word_valid control = not (has control 0xffff0000) && addressed control
