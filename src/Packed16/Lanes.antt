-- ===== src/Packed16/Lanes.antt =====
-- The halves of what the instructions on two halfwords return.
use Prim.Native.Nat.{bit_and}
use cdj2000_emulator.Prelude.{
  ℕ, ◌+◌, ◌-◌, ◌*◌, ◌/◌, ◌%◌, ◌^◌, ◌<◌, if◌then◌else◌, Bool, true, false, not, ◌≡◌, refl, arith,
  Bool-cases, inl, inr, ap, ◌∙◌,
}
use native.Mathlib.Nat.{div-le_self}
use cdj2000_emulator.Prelude.Bits.{bit_and-mask}
use cdj2000_emulator.Prelude.Fields.{bit_or-field'}
use cdj2000_emulator.Prelude.Integers.{
  signed_low, ℤ, pos, negsuc, ◌+ℤ◌, ◌-ℤ◌, negate, ltℤ, eqℤ, signed, to_word, clamp, minℤ, maxℤ,
  shift_down, Fits,
}
use cdj2000_emulator.Packed16.{
  msb16, lsb16, umsb16, ulsb16, pack, asr, sat16, satu16, abs16, abs2, add2, sub2, sadd2, ssub2,
  saddus2, max2, min2, avg2, shr2, shru2, cmpeq2, cmpgt2, spack2, truth,
}

-- The two signed halves of a word.
pub record Halves (word : ℕ) (x y : ℤ) : Type 0 where
  pub high : msb16 word ≡ x
  pub low : lsb16 word ≡ y

pack-sum : (h l : ℕ) → pack h l ≡ h % 2 ^ 16 * 2 ^ 16 + l % 2 ^ 16
unfolding pack
pack-sum h l =
    rw (bit_and-mask 16 h, bit_and-mask 16 l)
      (bit_or-field' 16 (h % 2 ^ 16) (l % 2 ^ 16) (omega arith))

-- What a half holds once it is packed and read again.
abbrev stored : ℕ → ℤ
stored h = signed 16 (h % 2 ^ 16)

pack-Halves : (h l : ℕ) (x y : ℤ) → stored h ≡ x → stored l ≡ y → Halves (pack h l) x y
unfolding msb16 lsb16
pack-Halves h l x y p q = record {
  high = ap (signed 16) (omega (arith, pack-sum h l)) ∙ p;
  low = ap (signed 16) (omega (arith, pack-sum h l)) ∙ q;
}

-- The integer that differs by a multiple of 2 ^ 16 and that 16 bits hold.
abbrev wrapped : ℤ → ℤ
wrapped z = signed 16 (to_word 16 z)

-- A sum or a difference is stored by its remainder.
stored_wrap : (z : ℤ) → stored (to_word 32 z) ≡ wrapped z
stored_wrap (pos n) = ap (signed 16) (omega arith)
stored_wrap (negsuc n) = ap (signed 16) (omega arith)

half-Fits : (x : ℕ) → x < 2 ^ 16 → Fits 16 (signed 16 x)
half-Fits x h = ground arith

stored_low : (w : ℕ) → stored (bit_and w 0xffff) ≡ stored w
stored_low w = ap (signed 16) (omega (arith, bit_and-mask 16 w))

-- The nearest integer that 16 bits hold, and the nearest that they hold without a sign.
abbrev saturate : ℤ → ℤ
saturate = clamp (negsuc 32767) (pos 32767)

saturate-Fits : (z : ℤ) → Fits 16 (saturate z)
saturate-Fits (pos n) = ground arith
saturate-Fits (negsuc n) = ground arith

saturates :
    (z : ℤ)
    → (if ltℤ (pos 32767) z then pos 32767 else if ltℤ z (negsuc 32767) then negsuc 32767 else z)
      ≡ saturate z
saturates (pos n) = ground arith
saturates (negsuc n) = ground arith

stored_sat : (z : ℤ) → stored (sat16 z) ≡ saturate z
unfolding sat16
stored_sat z =
    stored_low _
    ∙ ap (λ x. stored (to_word 32 x)) (saturates z)
    ∙ signed_low (saturate z) (saturate-Fits z)

abs_word : (x : ℤ) → Fits 16 x → stored (abs16 x) ≡ saturate (maxℤ x (negate x))
unfolding abs16
abs_word (pos n) h = stored_low _ ∙ ground arith
abs_word (negsuc n) h = stored_low _ ∙ ground arith

module _ (n k : ℕ) (h : n < 2 ^ 31) where
  quotient-lt : n / 2 ^ k < 2 ^ 31
  quotient-lt = omega (arith, div-le_self n (2 ^ k))

  shifted-pos : asr (pos n) k ≡ n / 2 ^ k
  unfolding asr
  shifted-pos = ground (arith, ap (λ (t : ℕ). t / 2 ^ k) {x = n % 2 ^ 32} {y = n} (omega arith))

  shifted-negsuc : asr (negsuc n) k ≡ 2 ^ 32 - 1 - n / 2 ^ k
  unfolding asr
  shifted-negsuc = ap (λ t. 2 ^ 32 - 1 - t / 2 ^ k) {y = n} (omega arith)

pub shifted : (x : ℤ) (k : ℕ) → Fits 32 x → asr x k ≡ to_word 32 (shift_down x k)
shifted (pos n) k h = shifted-pos n k h ∙ omega (arith, quotient-lt n k h)
shifted (negsuc n) k h = shifted-negsuc n k h ∙ omega (arith, quotient-lt n k h)

stored-asr :
    (z : ℤ) (k : ℕ) → Fits 32 z → Fits 16 (shift_down z k) → stored (asr z k) ≡ shift_down z k
stored-asr z k h f = ap stored (shifted z k h) ∙ signed_low (shift_down z k) f

stored_shift : (x : ℤ) (k : ℕ) → Fits 16 x → stored (asr x k) ≡ shift_down x k
stored_shift (pos n) k h = stored-asr (pos n) k (omega arith) (omega (arith, div-le_self n (2 ^ k)))
stored_shift (negsuc n) k h =
    stored-asr (negsuc n) k (omega arith) (omega (arith, div-le_self n (2 ^ k)))

sum-Fits : (x y : ℤ) → Fits 16 x → Fits 16 y → Fits 17 (x +ℤ y +ℤ pos 1)
sum-Fits (pos a) (pos b) h k = omega arith
sum-Fits (pos a) (negsuc b) h k = ground arith
sum-Fits (negsuc a) (pos b) h k = ground arith
sum-Fits (negsuc a) (negsuc b) h k = ground arith

stored_half : (z : ℤ) → Fits 17 z → stored (asr z 1) ≡ shift_down z 1
stored_half (pos n) h = stored-asr (pos n) 1 (omega arith) (omega arith)
stored_half (negsuc n) h = stored-asr (negsuc n) 1 (omega arith) (omega arith)

unsigned-pack : (h l : ℕ) → (umsb16 (pack h l) ≡ h % 2 ^ 16) × (ulsb16 (pack h l) ≡ l % 2 ^ 16)
unfolding umsb16 ulsb16
unsigned-pack h l = (omega (arith, pack-sum h l), omega (arith, pack-sum h l))

abbrev saturate_unsigned : ℤ → ℤ
saturate_unsigned = clamp (pos 0) (pos 65535)

stored_satu : (z : ℤ) → pos (satu16 z % 2 ^ 16) ≡ saturate_unsigned z
unfolding satu16
stored_satu (pos n) = ap pos (low _) ∙ ground arith
  where
    low : (w : ℕ) → bit_and w 0xffff % 2 ^ 16 ≡ w % 2 ^ 16
    low w = omega (arith, bit_and-mask 16 w)
stored_satu (negsuc n) = refl

greater :
    (x y : ℤ)
    → Fits 16 x
    → Fits 16 y
    → stored (to_word 32 (if not (ltℤ x y) then x else y)) ≡ maxℤ x y
greater x y h k = elim (Bool-cases (ltℤ x y)) [
  | inl less ↦ rw less (signed_low y k)
  | inr more ↦ rw more (signed_low x h)
]

lesser :
    (x y : ℤ)
    → Fits 16 x
    → Fits 16 y
    → stored (to_word 32 (if not (ltℤ y x) then x else y)) ≡ minℤ x y
lesser x y h k = elim (Bool-cases (ltℤ y x)) [
  | inl less ↦ rw less (signed_low y k)
  | inr more ↦ rw more (signed_low x h)
]

small_shift : (x b : ℕ) → x < 2 ^ 16 → x / 2 ^ bit_and b 31 % 2 ^ 16 ≡ x / 2 ^ (b % 32)
small_shift x b h =
    omega (arith, div-le_self x (2 ^ bit_and b 31)) ∙ ap (λ (k : ℕ). x / 2 ^ k) (bit_and-mask 5 b)

truth-lt : (b : Bool) → truth b < 2 ^ 1
truth-lt true = omega arith
truth-lt false = omega arith

module _ (a : ℕ) where
  umsb16-lt : umsb16 a < 2 ^ 16
  unfolding umsb16
  umsb16-lt = omega arith

  ulsb16-lt : ulsb16 a < 2 ^ 16
  unfolding ulsb16
  ulsb16-lt = omega arith

  msb16-Fits : Fits 16 (msb16 a)
  unfolding msb16
  msb16-Fits = half-Fits (a / 2 ^ 16 % 2 ^ 16) (omega arith)

  lsb16-Fits : Fits 16 (lsb16 a)
  unfolding lsb16
  lsb16-Fits = half-Fits (a % 2 ^ 16) (omega arith)

-- What the sums, differences and averages of two words hold.
abbrev pub SumsByHalves : ℕ → ℕ → Type 0
SumsByHalves a b =
    Halves (add2 a b) (wrapped (msb16 a +ℤ msb16 b)) (wrapped (lsb16 a +ℤ lsb16 b))
    × Halves (sub2 a b) (wrapped (msb16 a -ℤ msb16 b)) (wrapped (lsb16 a -ℤ lsb16 b))
    × Halves (sadd2 a b) (saturate (msb16 a +ℤ msb16 b)) (saturate (lsb16 a +ℤ lsb16 b))
    × Halves (ssub2 a b) (saturate (msb16 a -ℤ msb16 b)) (saturate (lsb16 a -ℤ lsb16 b))
    × Halves (avg2 a b) (shift_down (msb16 a +ℤ msb16 b +ℤ pos 1) 1)
        (shift_down (lsb16 a +ℤ lsb16 b +ℤ pos 1) 1)
    × (pos (umsb16 (saddus2 a b)) ≡ saturate_unsigned (pos (umsb16 a) +ℤ msb16 b))
    × (pos (ulsb16 (saddus2 a b)) ≡ saturate_unsigned (pos (ulsb16 a) +ℤ lsb16 b))

-- What the other instructions hold.
abbrev pub ShapesByHalves : ℕ → ℕ → Type 0
ShapesByHalves a b =
    Halves (abs2 a) (saturate (maxℤ (msb16 a) (negate (msb16 a))))
      (saturate (maxℤ (lsb16 a) (negate (lsb16 a))))
    × Halves (max2 a b) (maxℤ (msb16 a) (msb16 b)) (maxℤ (lsb16 a) (lsb16 b))
    × Halves (min2 a b) (minℤ (msb16 a) (msb16 b)) (minℤ (lsb16 a) (lsb16 b))
    × Halves (shr2 a b) (shift_down (msb16 a) (b % 32)) (shift_down (lsb16 a) (b % 32))
    × (umsb16 (shru2 a b) ≡ umsb16 a / 2 ^ (b % 32))
    × (ulsb16 (shru2 a b) ≡ ulsb16 a / 2 ^ (b % 32))
    × Halves (spack2 a b) (saturate (signed 32 a)) (saturate (signed 32 b))
    × (cmpeq2 a b ≡ truth (eqℤ (msb16 a) (msb16 b)) * 2 + truth (eqℤ (lsb16 a) (lsb16 b)))
    × (cmpgt2 a b ≡ truth (ltℤ (msb16 b) (msb16 a)) * 2 + truth (ltℤ (lsb16 b) (lsb16 a)))

module _ (a b : ℕ) where
  -- ADD2 and SUB2 wrap within each half, SADD2 and SSUB2 give the nearest value that a half holds,
  -- SADDUS2 the nearest without a sign, and AVG2 the half of the sum and one, rounded down; no half
  -- disturbs the other.
  pub sums_by_halves : SumsByHalves a b
  unfolding add2 sub2 sadd2 ssub2 avg2 saddus2
  sums_by_halves = (
    pack-Halves _ _ _ _ (stored_wrap (msb16 a +ℤ msb16 b)) (stored_wrap (lsb16 a +ℤ lsb16 b)),
    pack-Halves _ _ _ _ (stored_wrap (msb16 a -ℤ msb16 b)) (stored_wrap (lsb16 a -ℤ lsb16 b)),
    pack-Halves _ _ _ _ (stored_sat (msb16 a +ℤ msb16 b)) (stored_sat (lsb16 a +ℤ lsb16 b)),
    pack-Halves _ _ _ _ (stored_sat (msb16 a -ℤ msb16 b)) (stored_sat (lsb16 a -ℤ lsb16 b)),
    pack-Halves _ _ _ _ (stored_half _ (sum-Fits (msb16 a) (msb16 b) (msb16-Fits a) (msb16-Fits b)))
        (stored_half _ (sum-Fits (lsb16 a) (lsb16 b) (lsb16-Fits a) (lsb16-Fits b))),
    ap pos (unsigned-pack _ _).0 ∙ stored_satu (pos (umsb16 a) +ℤ msb16 b),
    ap pos (unsigned-pack _ _).1 ∙ stored_satu (pos (ulsb16 a) +ℤ lsb16 b),
  )

  -- ABS2 gives the absolute value, but for the least value, which saturates; MAX2 and MIN2 the greater
  -- and the lesser half; SHR2 shifts each half down by the count's low five bits, rounding down, and
  -- SHRU2 without a sign; SPACK2 saturates two words to halves. CMPEQ2 and CMPGT2
  -- compare the upper halves in bit 1 and the lower halves in bit 0.
  pub shapes_by_halves : ShapesByHalves a b
  unfolding abs2 max2 min2 shr2 shru2 spack2 cmpeq2 cmpgt2
  shapes_by_halves = (
    pack-Halves _ _ _ _ (abs_word (msb16 a) (msb16-Fits a)) (abs_word (lsb16 a) (lsb16-Fits a)),
    pack-Halves _ _ _ _ (greater (msb16 a) (msb16 b) (msb16-Fits a) (msb16-Fits b))
        (greater (lsb16 a) (lsb16 b) (lsb16-Fits a) (lsb16-Fits b)),
    pack-Halves _ _ _ _ (lesser (msb16 a) (msb16 b) (msb16-Fits a) (msb16-Fits b))
        (lesser (lsb16 a) (lsb16 b) (lsb16-Fits a) (lsb16-Fits b)),
    pack-Halves _ _ _ _
        (stored_shift (msb16 a) _ (msb16-Fits a) ∙ ap (shift_down (msb16 a)) (bit_and-mask 5 b))
        (stored_shift (lsb16 a) _ (lsb16-Fits a) ∙ ap (shift_down (lsb16 a)) (bit_and-mask 5 b)),
    (unsigned-pack _ _).0 ∙ small_shift _ b (umsb16-lt a),
    (unsigned-pack _ _).1 ∙ small_shift _ b (ulsb16-lt a),
    pack-Halves _ _ _ _ (stored_sat (signed 32 a)) (stored_sat (signed 32 b)),
    bit_or-field' 1 _ _ (truth-lt _),
    bit_or-field' 1 _ _ (truth-lt _),
  )
