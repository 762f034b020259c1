-- ===== src/Dotp/Complex.antt =====
-- CMPY against exact arithmetic.

use cdj2000_emulator.Prelude.{
  ℕ, zero, suc, ◌+◌, ◌-◌, ◌*◌, ◌/◌, ◌%◌, ◌^◌, ◌≤◌, ◌<◌, ◌==◌, ltb, if◌then◌else◌, Bool, true, false,
  ◌&&◌, ◌≡◌, refl, ap, ◌∙◌, arith, ◌⊎◌, inl, inr, eq-cases,
}
use native.Mathlib.Nat.{mul-le-mul}
use cdj2000_emulator.Prelude.Cases.{if_keeps}
use cdj2000_emulator.Prelude.Fields.{bit_or-field'}
use cdj2000_emulator.Prelude.Word.{IsWord}
use cdj2000_emulator.Prelude.Integers.{
  ℤ, pos, negsuc, ◌+ℤ◌, ◌-ℤ◌, ◌*ℤ◌, difference, ltℤ, eqℤ, signed, to_word, Fits,
}
use cdj2000_emulator.Dotp.{s16, sat32, register_pair, cmpy, cmpy_op}
use cdj2000_emulator.Dotp.Exact.{size, halves_size}

-- The least signed half.
abbrev pub least : ℤ
least = negsuc 0x7fff

-- A product of halves is that of the two least ones, or 2 ^ 15 below it.
abbrev Product : ℤ → ℤ → Type 0
Product x y =
    ((x ≡ least) × (y ≡ least) × (x *ℤ y ≡ pos (2 ^ 30)))
    ⊎ ((ltℤ (pos (2 ^ 30 - 2 ^ 15)) (x *ℤ y) ≡ false) × (eqℤ x least && eqℤ y least ≡ false))

below : (n : ℕ) → n ≤ 2 ^ 30 → ltℤ (pos (2 ^ 30 - 2 ^ 15)) (difference 0 n) ≡ false
below n h = ground arith

at_most : (a b m n : ℕ) → a ≤ m → b ≤ n → a * b ≤ m * n
at_most a b m n p q = mul-le-mul p q

halves-Product : (x y : ℤ) → Fits 16 x → Fits 16 y → Product x y
halves-Product (pos a) (pos b) p q =
    inr (positive (a * b) (at_most a b 32767 32767 (omega arith) (omega arith)), refl)
  where
    positive : (n : ℕ) → n ≤ 32767 * 32767 → ltℤ (pos (2 ^ 30 - 2 ^ 15)) (pos n) ≡ false
    positive n h = ground arith
halves-Product (pos a) (negsuc b) p q =
    inr (below (a * (b + 1)) (at_most a (b + 1) 32768 32768 (omega arith) (omega arith)), refl)
halves-Product (negsuc a) (pos b) p q =
    inr (
      below ((a + 1) * b) (at_most (a + 1) b 32768 32768 (omega arith) (omega arith)),
      ground arith,
    )
halves-Product (negsuc a) (negsuc b) p q = elim (eq-cases a 0x7fff) [
  | inl e ↦ elim (eq-cases b 0x7fff) [
    | inl f ↦ inl (ap negsuc e, ap negsuc f, rw (e, f) refl)
    | inr f ↦ inr (
      positive ((a + 1) * (b + 1))
          (at_most (a + 1) (b + 1) 32768 32767 (omega arith) (omega arith)),
      ground (arith, f),
    )
  ]
  | inr e ↦ inr (
    positive ((a + 1) * (b + 1)) (at_most (a + 1) (b + 1) 32767 32768 (omega arith) (omega arith)),
    ground (arith, e),
  )
]
  where
    positive : (n : ℕ) → n ≤ 32768 * 32767 → ltℤ (pos (2 ^ 30 - 2 ^ 15)) (pos n) ≡ false
    positive n h = ground arith

pub s16-Fits : (w i : ℕ) → Fits 16 (s16 w i)
unfolding s16
s16-Fits w i = of_half (w / 2 ^ (16 * i) % 2 ^ 16) (omega arith)
  where
    of_half : (h : ℕ) → h < 2 ^ 16 → Fits 16 (signed 16 h)
    of_half h k = ground arith

-- A half is the least one exactly if its bits are 8000h.
s16-least : (w i : ℕ) → eqℤ (s16 w i) least ≡ (w / 2 ^ (16 * i) % 2 ^ 16 == 0x8000)
unfolding s16
s16-least w i = of_half (w / 2 ^ (16 * i) % 2 ^ 16) (omega arith)
  where
    of_half : (h : ℕ) → h < 2 ^ 16 → eqℤ (signed 16 h) least ≡ (h == 0x8000)
    of_half h k = ground arith

-- The sum of two products, saturated: limited only if both are the greatest.
two_products :
    (p q : ℤ)
    → size p ≤ 2 ^ 30
    → size q ≤ 2 ^ 30
    → (ltℤ (pos (2 ^ 30 - 2 ^ 15)) p && ltℤ (pos (2 ^ 30 - 2 ^ 15)) q) ≡ false
    → sat32 (p +ℤ q) ≡ (p +ℤ q, false)
unfolding sat32
two_products (pos a) (pos b) h k e = ground arith
two_products (pos a) (negsuc b) h k e = ground arith
two_products (negsuc a) (pos b) h k e = ground arith
two_products (negsuc a) (negsuc b) h k e = ground arith

-- Both operands are 8000 8000h.
abbrev pub extreme : ℕ → ℕ → Bool
extreme a b = a == 0x80008000 && b == 0x80008000

halves_extreme :
    (w : ℕ) → IsWord w → (eqℤ (s16 w 0) least && eqℤ (s16 w 1) least) ≡ (w == 0x80008000)
halves_extreme w h = rw (s16-least w 0, s16-least w 1) (ground arith)

paired : (w x y z p q : Bool) → (w && x) ≡ p → (y && z) ≡ q → (p && q) ≡ ((w && z) && (x && y))
paired w x y z p q h k = ground arith

pub extreme_halves :
    (a b : ℕ)
    → IsWord a
    → IsWord b
    → extreme a b ≡ (
        (eqℤ (s16 a 0) least && eqℤ (s16 b 1) least)
        && (eqℤ (s16 a 1) least && eqℤ (s16 b 0) least))
extreme_halves a b h k =
    paired (eqℤ (s16 a 0) least) (eqℤ (s16 a 1) least) (eqℤ (s16 b 0) least) (eqℤ (s16 b 1) least)
      (a == 0x80008000) (b == 0x80008000) (halves_extreme a h) (halves_extreme b k)

-- The limited sum of two products of halves, by whether all four halves are the least.
pub limited_sum :
    (w x y z : ℤ)
    → Fits 16 w
    → Fits 16 x
    → Fits 16 y
    → Fits 16 z
    → size (w *ℤ x) ≤ 2 ^ 30
    → size (y *ℤ z) ≤ 2 ^ 30
    → sat32 (w *ℤ x +ℤ y *ℤ z) ≡ (
        if (eqℤ w least && eqℤ x least) && (eqℤ y least && eqℤ z least)
        then (pos 0x7fffffff, true)
        else (w *ℤ x +ℤ y *ℤ z, false))
unfolding sat32
limited_sum w x y z fw fx fy fz p q = elim (halves-Product w x fw fx) [
  | inl (a, b, e) ↦ elim (halves-Product y z fy fz) [
    | inl (c, d, f) ↦ rw (a, b, c, d) refl
    | inr (f, g) ↦ other (ground (arith, f)) (ground (arith, g))
  ]
  | inr (f, g) ↦ other (ground (arith, f)) (ground (arith, g))
]
  where
    other :
        (ltℤ (pos (2 ^ 30 - 2 ^ 15)) (w *ℤ x) && ltℤ (pos (2 ^ 30 - 2 ^ 15)) (y *ℤ z)) ≡ false
        → ((eqℤ w least && eqℤ x least) && (eqℤ y least && eqℤ z least)) ≡ false
        → sat32 (w *ℤ x +ℤ y *ℤ z) ≡ (
            if (eqℤ w least && eqℤ x least) && (eqℤ y least && eqℤ z least)
            then (pos 0x7fffffff, true)
            else (w *ℤ x +ℤ y *ℤ z, false))
    other f g = two_products (w *ℤ x) (y *ℤ z) p q f ∙ rw g refl

word_pair :
    (x y : ℤ)
    → (register_pair (to_word 32 x) (to_word 32 y) / 2 ^ 32 ≡ to_word 32 x)
      × (register_pair (to_word 32 x) (to_word 32 y) % 2 ^ 32 ≡ to_word 32 y)
unfolding register_pair
word_pair x y =
    rw (bit_or-field' 32 (to_word 32 x) (to_word 32 y) (word32 y))
      (omega (arith, word32 x, word32 y), omega (arith, word32 x, word32 y))
  where
    word32 : (z : ℤ) → to_word 32 z < 2 ^ 32
    word32 (pos n) = omega arith
    word32 (negsuc n) = omega arith

pub read_back : (z : ℤ) → Fits 32 z → signed 32 (to_word 32 z) ≡ z
read_back (pos n) h = ground arith
read_back (negsuc n) h = ground arith

pub sat32-Fits : (v : ℤ) → Fits 32 (sat32 v).0
unfolding sat32
sat32-Fits (pos n) =
    if_keeps (λ (x : ℤ × Bool). Fits 32 x.0) (ltb 0x7fffffff n) (λ _. omega arith)
      (λ e. ground (arith, e))
sat32-Fits (negsuc n) =
    if_keeps (λ (x : ℤ × Bool). Fits 32 x.0) (ltb 0x7fffffff n) (λ _. omega arith)
      (λ e. ground (arith, e))

pub limits :
    (e : Bool) (v : ℤ)
    → sat32 v ≡ (if e then (pos 0x7fffffff, true) else (v, false))
    → ((sat32 v).0 ≡ (if e then pos 0x7fffffff else v)) × ((sat32 v).1 ≡ e)
limits true v h = (ap (λ (x : ℤ × Bool). x.0) h, ap (λ (x : ℤ × Bool). x.1) h)
limits false v h = (ap (λ (x : ℤ × Bool). x.0) h, ap (λ (x : ℤ × Bool). x.1) h)

-- No product of halves is less than that of the least half and the greatest.
not_less :
    (n : ℕ) → n ≤ 2 ^ 30 - 2 ^ 15 → ltℤ (difference 0 n) (negsuc (2 ^ 30 - 2 ^ 15 - 1)) ≡ false
not_less n h = ground arith

product_low :
    (x y : ℤ) → Fits 16 x → Fits 16 y → ltℤ (x *ℤ y) (negsuc (2 ^ 30 - 2 ^ 15 - 1)) ≡ false
product_low (pos a) (pos b) p q = refl
product_low (pos a) (negsuc b) p q =
    not_less (a * (b + 1)) (at_most a (b + 1) 32767 32768 (omega arith) (omega arith))
product_low (negsuc a) (pos b) p q =
    not_less ((a + 1) * b) (at_most (a + 1) b 32768 32767 (omega arith) (omega arith))
product_low (negsuc a) (negsuc b) p q = refl

subtracted :
    (x y : ℤ)
    → size x ≤ 2 ^ 30
    → size y ≤ 2 ^ 30
    → ltℤ x (negsuc (2 ^ 30 - 2 ^ 15 - 1)) ≡ false
    → ltℤ y (negsuc (2 ^ 30 - 2 ^ 15 - 1)) ≡ false
    → Fits 32 (x -ℤ y)
subtracted (pos a) (pos zero) h k e f = ground arith
subtracted (pos a) (pos (suc b)) h k e f = ground arith
subtracted (pos a) (negsuc b) h k e f = ground arith
subtracted (negsuc a) (pos zero) h k e f = ground arith
subtracted (negsuc a) (pos (suc b)) h k e f = ground arith
subtracted (negsuc a) (negsuc b) h k e f = ground arith

pub difference-Fits : (a b : ℕ) → Fits 32 (s16 a 1 *ℤ s16 b 1 -ℤ s16 a 0 *ℤ s16 b 0)
difference-Fits a b =
    subtracted (s16 a 1 *ℤ s16 b 1) (s16 a 0 *ℤ s16 b 0) (halves_size a b 1 1) (halves_size a b 0 0)
      (product_low (s16 a 1) (s16 b 1) (s16-Fits a 1) (s16-Fits b 1))
      (product_low (s16 a 0) (s16 b 0) (s16-Fits a 0) (s16-Fits b 0))

cross_lem :
    (a b : ℕ)
    → IsWord a
    → IsWord b
    → let cross = s16 a 0 *ℤ s16 b 1 +ℤ s16 a 1 *ℤ s16 b 0 in
      sat32 cross ≡ (if extreme a b then (pos 0x7fffffff, true) else (cross, false))
cross_lem a b p q = rw (extreme_halves a b p q) (
    limited_sum (s16 a 0) (s16 b 1) (s16 a 1) (s16 b 0) (s16-Fits a 0) (s16-Fits b 1) (s16-Fits a 1)
      (s16-Fits b 0) (halves_size a b 0 1) (halves_size a b 1 0))

-- CMPY of two words: the odd register has the exact difference of the products of like halves. The
-- even one has the exact sum of the products of crossed halves, but for the one pair of operands, 8000 8000h
-- twice, at which that sum leaves 32 bits: it is limited there, and the instruction reports so
-- nowhere else.
pub cmpy_lem :
    (a h b : ℕ)
    → IsWord a
    → IsWord b
    → let r = cmpy cmpy_op a h b in
      (signed 32 (r.value / 2 ^ 32) ≡ s16 a 1 *ℤ s16 b 1 -ℤ s16 a 0 *ℤ s16 b 0)
      × (signed 32 (r.value % 2 ^ 32)
          ≡ (if extreme a b then pos 0x7fffffff else s16 a 0 *ℤ s16 b 1 +ℤ s16 a 1 *ℤ s16 b 0))
      × (r.saturated ≡ extreme a b)
unfolding cmpy
cmpy_lem a h b p q =
    let cross = s16 a 0 *ℤ s16 b 1 +ℤ s16 a 1 *ℤ s16 b 0 in
    let exact = s16 a 1 *ℤ s16 b 1 -ℤ s16 a 0 *ℤ s16 b 0 in
    let pair = word_pair exact (sat32 cross).0 in
    let limited = limits (extreme a b) cross (cross_lem a b p q) in
    (
      ap (signed 32) pair.0 ∙ read_back exact (difference-Fits a b),
      ap (signed 32) pair.1 ∙ read_back (sat32 cross).0 (sat32-Fits cross) ∙ limited.0,
      limited.1,
    )
