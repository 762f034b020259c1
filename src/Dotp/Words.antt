-- ===== src/Dotp/Words.antt =====
-- The registers that a dot product leaves, against exact arithmetic.
use cdj2000_emulator.Prelude.{
  ℕ, ◌%◌, ◌^◌, ◌<◌, if◌then◌else◌, Bool, true, false, ◌&&◌, ◌≡◌, refl, ap, ◌∙◌, arith, inl, inr,
  Bool-cases,
}
use mathlib.Core.Path.{subst}
use cdj2000_emulator.Prelude.Integers.{ℤ, pos, negsuc, ◌+ℤ◌, ◌-ℤ◌, ◌*ℤ◌, eqℤ, signed, to_word, Fits}
use cdj2000_emulator.Prelude.Word.{IsWord}
use cdj2000_emulator.Dotp.{
  s16, s8, u8, sat32, dotp, dotp2_op, dotp2l_op, dotpn2_op, dotpsu4_op, dotpu4_op,
}
use cdj2000_emulator.Dotp.Exact.{
  size, size-add, halves_size, bytes_size, unsigned_size, sum4, sum4-size,
}
use cdj2000_emulator.Dotp.Complex.{
  least, extreme, extreme_halves, limited_sum, limits, sat32-Fits, difference-Fits, s16-Fits,
}

-- An integer that is small enough is read back from its 64 bits.
stored : (z : ℤ) → size z < 2 ^ 63 → signed 64 (to_word 64 z) ≡ z
stored (pos n) h = ground arith
stored (negsuc n) h = ground arith

-- The low word of one that fits it.
low_word : (z : ℤ) → Fits 32 z → signed 32 (to_word 64 z % 2 ^ 32) ≡ z
low_word (pos n) h = ground arith
low_word (negsuc n) h = ground arith

small-Fits : (z : ℤ) → size z < 2 ^ 31 → Fits 32 z
small-Fits (pos n) h = ground arith
small-Fits (negsuc n) h = ground arith

word_of_natural : (n : ℕ) → n < 2 ^ 31 → signed 32 (to_word 32 (pos n) % 2 ^ 32) ≡ pos n
word_of_natural n h = ground arith

abbrev like_sum : ℕ → ℕ → ℤ
like_sum a b = s16 a 0 *ℤ s16 b 0 +ℤ s16 a 1 *ℤ s16 b 1

regroup : (w x y z e : Bool) → e ≡ ((w && x) && (y && z)) → ((w && z) && (y && x)) ≡ e
regroup w x y z e h = ground arith

-- The sum of the products of like halves leaves 32 bits at 8000 8000h twice alone.
like_limited :
    (a b : ℕ)
    → IsWord a
    → IsWord b
    → sat32 (like_sum a b) ≡ (if extreme a b then (pos 0x7fffffff, true) else (like_sum a b, false))
like_limited a b p q =
    limited_sum (s16 a 0) (s16 b 0) (s16 a 1) (s16 b 1) (s16-Fits a 0) (s16-Fits b 0) (s16-Fits a 1)
      (s16-Fits b 1) (halves_size a b 0 0) (halves_size a b 1 1)
    ∙ ap (λ (e : Bool). if e then (pos 0x7fffffff, true) else (like_sum a b, false))
        (regroup (eqℤ (s16 a 0) least) (eqℤ (s16 b 1) least) (eqℤ (s16 a 1) least)
          (eqℤ (s16 b 0) least) (extreme a b) (extreme_halves a b p q))

extreme_sum : (a b : ℕ) → extreme a b ≡ true → like_sum a b ≡ pos (2 ^ 31)
unfolding s16
extreme_sum a b e =
    let same : (a ≡ 0x80008000) × (b ≡ 0x80008000) = ground (arith, e) in rw (same.0, same.1) refl

-- The word that DOTP2 leaves in a single register.
like_word :
    (a b : ℕ)
    → IsWord a
    → IsWord b
    → signed 32 (to_word 64 (like_sum a b) % 2 ^ 32)
      ≡ (if extreme a b then negsuc 0x7fffffff else like_sum a b)
like_word a b p q = elim (Bool-cases (extreme a b)) [
  | inl e ↦ rw e (ap (λ z. signed 32 (to_word 64 z % 2 ^ 32)) (extreme_sum a b e))
  | inr e ↦ rw e (
      low_word (like_sum a b) (
        subst (Fits 32)
          ((limits (extreme a b) (like_sum a b) (like_limited a b p q)).0
            ∙ ap (λ (c : Bool). if c then pos 0x7fffffff else like_sum a b) e)
          (sat32-Fits (like_sum a b))))
]

dotpu4_word :
    (a b : ℕ)
    → signed 32 (
        to_word 32
          (sum4 (u8 a 0 *ℤ u8 b 0) (u8 a 1 *ℤ u8 b 1) (u8 a 2 *ℤ u8 b 2) (u8 a 3 *ℤ u8 b 3))
        % 2 ^ 32)
      ≡ sum4 (u8 a 0 *ℤ u8 b 0) (u8 a 1 *ℤ u8 b 1) (u8 a 2 *ℤ u8 b 2) (u8 a 3 *ℤ u8 b 3)
unfolding u8
dotpu4_word a b = word_of_natural _ (
    omega (
      arith,
      unsigned_size a b 0 0,
      unsigned_size a b 1 1,
      unsigned_size a b 2 2,
      unsigned_size a b 3 3,
    ))

-- Of two words, the pair form of DOTP2 leaves the exact sum of the products of like halves in its 64
-- bits, and the word form leaves it in 32, but at 8000 8000h twice, where it leaves 8000 0000h. The
-- words that DOTPN2, DOTPSU4 and DOTPU4 leave are the exact difference of the products of halves,
-- and the exact sums of the products of signed by unsigned bytes and of unsigned bytes.
pub dotp_exact :
    (a b : ℕ)
    → IsWord a
    → IsWord b
    → let word = λ (op : ℕ). signed 32 ((dotp op a b).value % 2 ^ 32) in
      (signed 64 (dotp dotp2l_op a b).value ≡ s16 a 0 *ℤ s16 b 0 +ℤ s16 a 1 *ℤ s16 b 1)
      × (word dotp2_op
          ≡ (if extreme a b then negsuc 0x7fffffff else s16 a 0 *ℤ s16 b 0 +ℤ s16 a 1 *ℤ s16 b 1))
      × (word dotpn2_op ≡ s16 a 1 *ℤ s16 b 1 -ℤ s16 a 0 *ℤ s16 b 0)
      × (word dotpsu4_op
          ≡ s8 a 0 *ℤ u8 b 0 +ℤ s8 a 1 *ℤ u8 b 1 +ℤ s8 a 2 *ℤ u8 b 2 +ℤ s8 a 3 *ℤ u8 b 3)
      × (word dotpu4_op
          ≡ u8 a 0 *ℤ u8 b 0 +ℤ u8 a 1 *ℤ u8 b 1 +ℤ u8 a 2 *ℤ u8 b 2 +ℤ u8 a 3 *ℤ u8 b 3)
unfolding dotp
dotp_exact a b p q = (
  stored _ (
      omega (
        arith,
        size-add (s16 a 0 *ℤ s16 b 0) (s16 a 1 *ℤ s16 b 1),
        halves_size a b 0 0,
        halves_size a b 1 1,
      )),
  like_word a b p q,
  low_word _ (difference-Fits a b),
  low_word _ (
      small-Fits _ (
        omega (
          arith,
          sum4-size (s8 a 0 *ℤ u8 b 0) (s8 a 1 *ℤ u8 b 1) (s8 a 2 *ℤ u8 b 2) (s8 a 3 *ℤ u8 b 3)
              (2 ^ 15) (bytes_size a b 0 0) (bytes_size a b 1 1) (bytes_size a b 2 2)
              (bytes_size a b 3 3),
        ))),
  dotpu4_word a b,
)
