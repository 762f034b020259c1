-- ===== src/Dotp/Exact.antt =====
-- The dot products against exact arithmetic.

use cdj2000_emulator.Prelude.{
  ℕ, ◌+◌, ◌*◌, ◌/◌, ◌%◌, ◌^◌, ◌≤◌, ◌<◌, if◌then◌else◌, Bool, true, false, ◌||◌, ◌≡◌, refl, ap, ◌∙◌,
  arith, inl, inr, Bool-cases,
}
use native.Mathlib.Nat.{mul-le-mul}
use cdj2000_emulator.Prelude.Fields.{bit_or-field}
use cdj2000_emulator.Prelude.Integers.{
  ℤ, pos, negsuc, ◌+ℤ◌, ◌-ℤ◌, ◌*ℤ◌, difference, ltℤ, signed, to_word, shift_down, Fits,
}
use cdj2000_emulator.Dotp.{
  s16, u16, s8, u8, shift_right_16, DotpResult, rounded, dotp, dotpnrsu2_op, dotprsu2_op,
}

-- The distance from zero.
abbrev pub size : ℤ → ℕ
size (pos n) = n
size (negsuc n) = n + 1

pub size-add : (x y : ℤ) → size (x +ℤ y) ≤ size x + size y
size-add (pos a) (pos b) = ground arith
size-add (pos a) (negsuc b) = ground arith
size-add (negsuc a) (pos b) = ground arith
size-add (negsuc a) (negsuc b) = ground arith

pub size-sub : (x y : ℤ) → size (x -ℤ y) ≤ size x + size y
size-sub x (pos b) = negative x b
  where
    negative : (x : ℤ) (b : ℕ) → size (x +ℤ difference 0 b) ≤ size x + b
    negative (pos a) b = ground arith
    negative (negsuc a) b = ground arith
size-sub x (negsuc b) = size-add x (pos (b + 1))

size-difference : (n : ℕ) → size (difference 0 n) ≡ n
size-difference n = ground arith

size-mul : (x y : ℤ) → size (x *ℤ y) ≡ size x * size y
size-mul (pos a) (pos b) = refl
size-mul (pos a) (negsuc b) = size-difference (a * (b + 1))
size-mul (negsuc a) (pos b) = size-difference ((a + 1) * b)
size-mul (negsuc a) (negsuc b) = refl

product_size : (x y : ℤ) (m n : ℕ) → size x ≤ m → size y ≤ n → size (x *ℤ y) ≤ m * n
product_size x y m n p q = omega (arith, size-mul x y, mul-le-mul p q)

pub s16-size : (w i : ℕ) → size (s16 w i) ≤ 2 ^ 15
unfolding s16
s16-size w i = of_half (w / 2 ^ (16 * i) % 2 ^ 16) (omega arith)
  where
    of_half : (h : ℕ) → h < 2 ^ 16 → size (signed 16 h) ≤ 2 ^ 15
    of_half h k = ground arith

u16-size : (w i : ℕ) → size (u16 w i) < 2 ^ 16
unfolding u16
u16-size w i = omega arith

s8-size : (w i : ℕ) → size (s8 w i) ≤ 2 ^ 7
unfolding s8
s8-size w i = of_byte (w / 2 ^ (8 * i) % 2 ^ 8) (omega arith)
  where
    of_byte : (h : ℕ) → h < 2 ^ 8 → size (signed 8 h) ≤ 2 ^ 7
    of_byte h k = ground arith

u8-size : (w i : ℕ) → size (u8 w i) < 2 ^ 8
unfolding u8
u8-size w i = omega arith

-- Products of halves and of bytes.
module _ (a b i j : ℕ) where
  pub halves_size : size (s16 a i *ℤ s16 b j) ≤ 2 ^ 30
  halves_size = product_size (s16 a i) (s16 b j) (2 ^ 15) (2 ^ 15) (s16-size a i) (s16-size b j)

  pub bytes_size : size (s8 a i *ℤ u8 b j) ≤ 2 ^ 15
  bytes_size =
      product_size (s8 a i) (u8 b j) (2 ^ 7) (2 ^ 8) (s8-size a i) (omega (arith, u8-size b j))

  pub unsigned_size : size (u8 a i *ℤ u8 b j) ≤ 2 ^ 16
  unsigned_size =
      product_size (u8 a i) (u8 b j) (2 ^ 8) (2 ^ 8) (omega (arith, u8-size a i))
        (omega (arith, u8-size b j))

abbrev pub sum4 : ℤ → ℤ → ℤ → ℤ → ℤ
sum4 w x y z = w +ℤ x +ℤ y +ℤ z

pub sum4-size :
    (w x y z : ℤ) (n : ℕ)
    → size w ≤ n
    → size x ≤ n
    → size y ≤ n
    → size z ≤ n
    → size (sum4 w x y z) ≤ 4 * n
sum4-size w x y z n p q r s =
    omega (arith, size-add (w +ℤ x +ℤ y) z, size-add (w +ℤ x) y, size-add w x)

-- The signed shift of a value of 32 bits is the quotient rounded down.
shifted : (z : ℤ) → Fits 32 z → shift_right_16 z ≡ shift_down z 16
unfolding shift_right_16
shifted (pos n) h = ground arith
shifted (negsuc n) h =
    ap (signed 32) (bit_or-field 16 0xffff (to_word 32 (negsuc n) / 2 ^ 16) (omega arith))
    ∙ ground arith

shifted_small : (z : ℤ) → Fits 32 z → signed 64 (to_word 64 (shift_down z 16)) ≡ shift_down z 16
shifted_small (pos n) h = ground arith
shifted_small (negsuc n) h = ground arith

-- Whether a value is outside the 32 bits.
abbrev pub outside : ℤ → Bool
outside z = ltℤ (pos 0x7fffffff) z || ltℤ z (negsuc 0x7fffffff)

inside : (z : ℤ) → outside z ≡ false → Fits 32 z
inside (pos n) h = ground arith
inside (negsuc n) h = ground arith

-- A result that is undefined exactly where the rounded sum leaves 32 bits, and is else the sum's
-- upper part, rounded down.
abbrev pub Rounds : DotpResult → ℤ → Type 0
Rounds r z =
    let v = z +ℤ pos 0x8000 in
    (r.undefined ≡ outside v)
    × (signed 64 r.value ≡ (if outside v then pos 0 else shift_down v 16))
    × (r.valid ≡ true)

rounded-Rounds : (z : ℤ) → Rounds (rounded z) z
unfolding rounded
rounded-Rounds z = of_sum (z +ℤ pos 0x8000)
  where
    of_sum :
        (v : ℤ)
        → let defined : DotpResult = record {
          value = to_word 64 (shift_right_16 v);
          undefined = false;
          valid = true;
        } in
          let out : DotpResult = record { value = 0; undefined = true; valid = true } in
          let r = if outside v then out else defined in
          (r.undefined ≡ outside v)
          × (signed 64 r.value ≡ (if outside v then pos 0 else shift_down v 16))
          × (r.valid ≡ true)
    of_sum v = elim (Bool-cases (outside v)) [
      | inl out ↦ rw out (refl, refl, refl)
      | inr fits ↦ rw fits (
        refl,
        ap (λ (x : ℤ). signed 64 (to_word 64 x)) (shifted v (inside v fits))
            ∙ shifted_small v (inside v fits),
        refl,
      )
    ]

-- DOTPRSU2 and DOTPNRSU2 add 8000h to the exact sum and difference of the products of signed by
-- unsigned halves. Where that fits 32 bits they give its upper part, rounded down, and elsewhere they
-- say that the result is undefined.
pub dotp_rounded :
    (a b : ℕ)
    → Rounds (dotp dotprsu2_op a b) (s16 a 1 *ℤ u16 b 1 +ℤ s16 a 0 *ℤ u16 b 0)
      × Rounds (dotp dotpnrsu2_op a b) (s16 a 1 *ℤ u16 b 1 -ℤ s16 a 0 *ℤ u16 b 0)
unfolding dotp
dotp_rounded a b = (
  rounded-Rounds (s16 a 1 *ℤ u16 b 1 +ℤ s16 a 0 *ℤ u16 b 0),
  rounded-Rounds (s16 a 1 *ℤ u16 b 1 -ℤ s16 a 0 *ℤ u16 b 0),
)
