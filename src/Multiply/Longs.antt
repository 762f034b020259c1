-- ===== src/Multiply/Longs.antt =====
-- Values of forty bits: their sign, their saturation and their absolute value.
use Prim.Native.Nat.{bit_and, bit_xor, differ}
use cdj2000_emulator.Prelude.{
  ℕ, zero, suc, ◌+◌, ◌-◌, ◌*◌, ◌/◌, ◌%◌, ◌^◌, ◌<◌, ◌==◌, ◌!=◌, ltb, if◌then◌else◌, not, ◌||◌, ◌≡◌,
  refl, ap, ◌∙◌, arith,
}
use native.Mathlib.Nat.{pow-suc}
use cdj2000_emulator.Prelude.Bits.{bit_and-mask, bit_and-pow, bit, bit_xor_step}
use cdj2000_emulator.Prelude.Cases.{if_keeps}
use cdj2000_emulator.Prelude.Integers.{
  ℤ, pos, negsuc, ◌-ℤ◌, negate, ltℤ, signed, to_word, clamp, minℤ, maxℤ,
}
use cdj2000_emulator.Multiply.{sx40, sat40, abs32, abs40}

differ_zero : (x : ℕ) → differ x 0 ≡ x
differ_zero zero = refl
differ_zero (suc x) = refl

flip_step : (k v : ℕ) → bit_xor v (2 ^ suc k) ≡ bit_xor (v / 2) (2 ^ k) * 2 + v % 2
flip_step k v =
    bit_xor_step v (2 ^ suc k)
    ∙ ap (λ (p : ℕ). bit_xor (v / 2) p * 2 + differ (v % 2) (2 ^ suc k % 2)) {x = 2 ^ suc k / 2}
        {y = 2 ^ k} (omega (arith, pow-suc 2 k))
    ∙ ap (λ (d : ℕ). bit_xor (v / 2) (2 ^ k) * 2 + differ (v % 2) d) {x = 2 ^ suc k % 2} {y = 0}
        (omega (arith, pow-suc 2 k))
    ∙ ap (λ (d : ℕ). bit_xor (v / 2) (2 ^ k) * 2 + d) (differ_zero (v % 2))

-- Flipping the highest bit.
flip :
    (k v : ℕ) → v < 2 * 2 ^ k → bit_xor v (2 ^ k) ≡ (if ltb v (2 ^ k) then v + 2 ^ k else v - 2 ^ k)
flip zero zero h = refl
flip zero (suc zero) h = refl
flip zero (suc (suc v)) h = absurd (omega arith)
flip (suc k) v h =
    ground (arith, flip_step k v, pow-suc 2 k, flip k (v / 2) (omega (arith, pow-suc 2 k)))

centred :
    (v : ℕ)
    → v < 2 ^ 40
    → pos (if ltb v (2 ^ 39) then v + 2 ^ 39 else v - 2 ^ 39) -ℤ pos (2 ^ 39) ≡ signed 40 v
centred v h =
    if_keeps (λ (m : ℕ). pos m -ℤ pos (2 ^ 39) ≡ signed 40 v) (ltb v (2 ^ 39))
      (λ low. ground (arith, low)) (λ high. ground (arith, high))

top_bit : (k v : ℕ) → v < 2 * 2 ^ k → bit v k ≡ not (ltb v (2 ^ k))
top_bit zero v h = ground arith
top_bit (suc k) v h = top_bit k (v / 2) (omega (arith, pow-suc 2 k)) ∙ ground (arith, pow-suc 2 k)

sx40_lem : (x : ℕ) → sx40 x ≡ signed 40 (x % 2 ^ 40)
unfolding sx40
sx40_lem x =
    ap (λ (v : ℕ). pos (bit_xor v (2 ^ 39)) -ℤ pos (2 ^ 39)) (bit_and-mask 40 x)
    ∙ ap (λ (v : ℕ). pos v -ℤ pos (2 ^ 39)) (flip 39 (x % 2 ^ 40) (omega arith))
    ∙ centred (x % 2 ^ 40) (omega arith)

-- The distance from zero, or the greatest value that `w` bits hold if it is that of the least.
abbrev pub magnitude : ℕ → ℤ → ℤ
magnitude w z = minℤ (pos (2 ^ (w - 1) - 1)) (maxℤ z (negate z))

abs32_lem : (x : ℕ) → x < 2 ^ 32 → signed 32 (abs32 x) ≡ magnitude 32 (signed 32 x)
unfolding abs32
abs32_lem x h =
    if_keeps (λ (m : ℕ). signed 32 m ≡ magnitude 32 (signed 32 x)) (x == 0x80000000)
      (λ least. ground (arith, least))
      (λ other.
        if_keeps (λ (m : ℕ). signed 32 m ≡ magnitude 32 (signed 32 x)) (bit_and x (2 ^ 31) != 0)
          (λ negative. ground (arith, other, negative, bit_and-pow 31 x ∙ top_bit 31 x h))
          (λ positive. ground (arith, other, positive, bit_and-pow 31 x ∙ top_bit 31 x h)))

negated :
    (v : ℕ) → 0 < v → v < 2 ^ 40 → bit_and (to_word 64 (pos 0 -ℤ pos v)) (2 ^ 40 - 1) ≡ 2 ^ 40 - v
negated zero p h = absurd (omega arith)
negated (suc v) p h = bit_and-mask 40 _ ∙ ground arith

abs40_lem : (x : ℕ) → signed 40 (abs40 x) ≡ magnitude 40 (signed 40 (x % 2 ^ 40))
unfolding abs40
abs40_lem x = rw (bit_and-mask 40 x) (of_value (x % 2 ^ 40) (omega arith))
  where
    of_value :
        (v : ℕ)
        → v < 2 ^ 40
        → signed 40 (
            if v == 2 ^ 39
            then 2 ^ 39 - 1
            else if not (bit_and v (2 ^ 39) != 0)
            then v
            else bit_and (to_word 64 (pos 0 -ℤ pos v)) (2 ^ 40 - 1))
          ≡ magnitude 40 (signed 40 v)
    of_value v h =
        if_keeps (λ (m : ℕ). signed 40 m ≡ magnitude 40 (signed 40 v)) (v == 2 ^ 39)
          (λ least. ground (arith, least))
          (λ other.
            if_keeps (λ (m : ℕ). signed 40 m ≡ magnitude 40 (signed 40 v))
              (not (bit_and v (2 ^ 39) != 0))
              (λ positive. ground (arith, other, positive, bit_and-pow 39 v ∙ top_bit 39 v h))
              (λ negative.
                ap (signed 40)
                  (negated v (ground (arith, negative, bit_and-pow 39 v ∙ top_bit 39 v h)) h)
                ∙ ground (arith, other, negative, bit_and-pow 39 v ∙ top_bit 39 v h)))

nearest_word :
    (z : ℤ)
    → signed 32 (
        if ltℤ (pos 0x7fffffff) z
        then 0x7fffffff
        else if ltℤ z (negsuc 0x7fffffff)
        then 0x80000000
        else to_word 32 z)
      ≡ clamp (negsuc 0x7fffffff) (pos 0x7fffffff) z
nearest_word (pos n) =
    if_keeps (λ (m : ℕ). signed 32 m ≡ clamp (negsuc 0x7fffffff) (pos 0x7fffffff) (pos n))
      (ltb 0x7fffffff n) (λ big. ground (arith, big)) (λ small. ground (arith, small))
nearest_word (negsuc n) =
    if_keeps (λ (m : ℕ). signed 32 m ≡ clamp (negsuc 0x7fffffff) (pos 0x7fffffff) (negsuc n))
      (ltb 0x7fffffff n) (λ big. ground (arith, big)) (λ small. ground (arith, small))

-- SAT gives the word nearest to a signed value of forty bits and says whether it is another one; ABS gives
-- the absolute value of a word and of a value of forty bits, or the greatest if that is too great.
pub longs_lem :
    (x y : ℕ)
    → y < 2 ^ 32
    → let long = signed 40 (x % 2 ^ 40) in
      (signed 32 (sat40 x).value ≡ clamp (negsuc 0x7fffffff) (pos 0x7fffffff) long)
      × ((sat40 x).saturated ≡ (ltℤ (pos 0x7fffffff) long || ltℤ long (negsuc 0x7fffffff)))
      × (signed 40 (abs40 x) ≡ magnitude 40 long)
      × (signed 32 (abs32 y) ≡ magnitude 32 (signed 32 y))
unfolding sat40
longs_lem x y h = (
  nearest_word (sx40 x) ∙ ap (clamp (negsuc 0x7fffffff) (pos 0x7fffffff)) (sx40_lem x),
  ap (λ z. ltℤ (pos 0x7fffffff) z || ltℤ z (negsuc 0x7fffffff)) (sx40_lem x),
  abs40_lem x,
  abs32_lem y h,
)
