-- ===== src/Emifb/Config.antt =====
-- The write protection of SDCFG, bit by bit.
use Prim.Native.Nat.{bit_and}
use cdj2000_emulator.Prelude.{
  ℕ, ◌+◌, ◌%◌, ◌^◌, ◌<◌, if◌then◌else◌, true, false, not, ◌&&◌, ◌||◌, ◌≡◌, refl, arith, ◌∙◌, sym,
}
use cdj2000_emulator.Prelude.Bits.{bit, bit-zero, bit-and, bit-or}
use cdj2000_emulator.Prelude.Word.{has, IsWord, bit-not32, not32}
use cdj2000_emulator.Bus.{TwoPhase}
use cdj2000_emulator.Emifb.{
  Emifb, boot_unlock, timunlock, protected, cas, splice, next_sdcfg, valid_sdcfg, write,
  sdcfg_address,
}

bit-splice :
    (mask a b i : ℕ)
    → IsWord mask
    → i < 32
    → bit (splice mask a b) i ≡ (if bit mask i then bit b i else bit a i)
bit-splice mask a b i w k = ground (
  arith,
  bit-or i (bit_and a (not32 mask)) (bit_and b mask),
  bit-and i a (not32 mask),
  bit-and i b mask,
  bit-not32 i mask w k,
)

-- The two fields do not overlap.
apart : (i : ℕ) → (bit protected i && bit cas i) ≡ false
apart i = sym (bit-and i protected cas) ∙ bit-zero i

next_sdcfg-bit :
    (old v i : ℕ)
    → i < 32
    → bit (next_sdcfg old v) i ≡ (
        if (bit protected i && not (has old boot_unlock)) || (bit cas i && not (has v timunlock))
        then bit old i
        else bit v i)
unfolding next_sdcfg
next_sdcfg-bit old v i k = ground (
  arith,
  apart i,
  bit-splice protected v old i (omega arith) k,
  bit-splice protected (splice protected v old) v i (omega arith) k,
  bit-splice cas (splice protected v old) old i (omega arith) k,
  bit-splice cas (splice protected (splice protected v old) v) old i (omega arith) k,
)

committed :
    (s : Emifb) (v : ℕ)
    → IsWord v
    → valid_sdcfg v ≡ true
    → write s sdcfg_address v 4 true ≡ (
      true,
      record s { sdcfg = next_sdcfg s.sdcfg v; init_sequences = (s.init_sequences + 1) % 2 ^ 32 },
    )
unfolding write
committed s v w ok = ground arith

-- An accepted commit to SDCFG takes each bit from the stored word, but for the locked ones, which
-- stay: those of the boot configuration unless BOOT_UNLOCK was set before, and those of the CAS
-- latency unless the word sets TIMUNLOCK. It counts one initialisation, and changes no other
-- register.
write_sdcfg :
    (s : Emifb) (v i : ℕ)
    → IsWord v
    → valid_sdcfg v ≡ true
    → i < 32
    → let (accepted, s') = write s sdcfg_address v 4 true in
      (accepted ≡ true)
      × (bit s'.sdcfg i ≡ (
          if (bit protected i && not (has s.sdcfg boot_unlock))
            || (bit cas i && not (has v timunlock))
          then bit s.sdcfg i
          else bit v i))
      × (s' ≡ record s { sdcfg = s'.sdcfg; init_sequences = (s.init_sequences + 1) % 2 ^ 32 })
write_sdcfg s v i w ok k = rw (committed s v w ok) (refl, next_sdcfg-bit s.sdcfg v i k, refl)

-- A store follows the two-phase protocol.
pub write-TwoPhase : (s : Emifb) (address v size : ℕ) → TwoPhase write s address v size
unfolding write
write-TwoPhase s address v size = ground arith
