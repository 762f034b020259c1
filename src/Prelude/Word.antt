-- ===== src/Prelude/Word.antt =====
-- `uint32_t` values as numbers below `2 ^ 32`: casts, complement, tests of a mask.
use Prim.Native.Nat.{ℕ, ◌-◌, ◌%◌, ◌^◌, ◌≤◌, ◌<◌, bit_and, bit_or}
use mathlib.Core.Path.{◌≡◌, ap, sym, ◌∙◌}
use mathlib.Core.Bool.{Bool, false, not}
use native.Mathlib.Decide.{dec_lt}
use native.Mathlib.Nat.{pow-le-pow_right}
use native.Mathlib.Omega.{arith}
use cdj2000_emulator.Prelude.Tests.{◌!=◌}
use cdj2000_emulator.Prelude.Bits.{
  bit, bit-and, bit-zero, bit-complement, bit_and-le, bit_or-lt, bit_ext, bit-mod, bit_high,
}

-- `UINT32_MAX`
abbrev pub u32_max : ℕ
u32_max = 2 ^ 32 - 1

-- The casts `(uint32_t)n` and `(uint64_t)n`.
abbrev pub u32 : ℕ → ℕ
u32 n = n % 2 ^ 32

abbrev pub u64 : ℕ → ℕ
u64 n = n % 2 ^ 64

-- `~n` of a `uint32_t`.
abbrev pub not32 : ℕ → ℕ
not32 n = 2 ^ 32 - 1 - n

-- `~n` of a `uint64_t`.
abbrev pub not64 : ℕ → ℕ
not64 n = 2 ^ 64 - 1 - n

-- `(n & mask) != 0`
abbrev pub has : ℕ → ℕ → Bool
has n mask = bit_and n mask != 0

abbrev pub IsWord : ℕ → Type 0
IsWord n = n < 2 ^ 32

pub bit-not32 : (i n : ℕ) → IsWord n → i < 32 → bit (not32 n) i ≡ not (bit n i)
bit-not32 i n h k = bit-complement 32 i n h k

pub not32-IsWord : (n : ℕ) → IsWord (not32 n)
not32-IsWord n = omega arith

pub and-IsWord : (a b : ℕ) → IsWord a → IsWord (bit_and a b)
and-IsWord a b h = omega (arith, bit_and-le a b)

pub or-IsWord : (a b : ℕ) → IsWord a → IsWord b → IsWord (bit_or a b)
or-IsWord a b p q = bit_or-lt 32 a b p q

-- Two words are equal if their 32 bits are.
pub word_ext : (a b : ℕ) → IsWord a → IsWord b → ((i : ℕ) → i < 32 → bit a i ≡ bit b i) → a ≡ b
word_ext a b p q h = bit_ext 32 a b p q h

pub pow-IsWord : (k : ℕ) → k < 32 → IsWord (2 ^ k)
pow-IsWord k h =
    omega (arith, pow-le-pow_right {n = 2} (omega arith) {i = k} {j = 31} (omega arith))

-- Masks without a common bit, one after the other, leave nothing.
pub and_disjoint : (x m n : ℕ) → IsWord x → bit_and m n ≡ 0 → bit_and (bit_and x m) n ≡ 0
and_disjoint x m n p e =
    word_ext (bit_and (bit_and x m) n) 0 (omega (arith, bit_and-le (bit_and x m) n, bit_and-le x m))
      (omega arith)
      (λ i k. ground (
        arith,
        bit-and i (bit_and x m) n,
        bit-and i x m,
        bit-and i m n,
        ap (λ (v : ℕ). bit v i) e,
        bit-zero i,
      ))

-- A word whose high halfword is clear is a halfword.
pub high_clear : (w : ℕ) → IsWord w → bit_and w 0xffff0000 ≡ 0 → w ≡ w % 2 ^ 16
high_clear w h e = word_ext w (w % 2 ^ 16) h (omega arith) (λ i k. elim (dec_lt i 16) [
  | yes low ↦ sym (bit-mod i 16 w low)
  | no high ↦ clear i k (omega arith) ∙ sym (bit_high 16 i (w % 2 ^ 16) (omega arith) (omega arith))
])
  where
    clear : (i : ℕ) → i < 32 → 16 ≤ i → bit w i ≡ false
    clear i k l = ground (
      arith,
      bit-and i w 0xffff0000,
      ap (λ (v : ℕ). bit v i) e,
      bit-zero i,
      bit-not32 i 0xffff (omega arith) k,
      bit_high 16 i 0xffff (omega arith) l,
    )
