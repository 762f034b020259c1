-- ===== src/Prelude/Bits.antt =====
-- The bits of a number, and what `bit_and` and `bit_or` do to each.
use Prim.Native.Nat.{ℕ, zero, suc, ◌+◌, ◌-◌, ◌*◌, ◌/◌, ◌%◌, ◌^◌, ◌≤◌, ◌<◌, min, max}
use Prim.Native.Nat.{digits, bitwise, bit_and, bit_or, bit_xor, differ}
use Prim.Native.Nat.{bit_and-bitwise, bit_or-bitwise, bit_xor-bitwise}
use mathlib.Core.Path.{◌≡◌, refl, sym, ap, ◌∙◌}
use mathlib.Core.Logic.{◌≢◌, inl, inr}
use mathlib.Core.Bool.{Bool, false, not, ◌&&◌, ◌||◌}
use native.Mathlib.Nat.{div-add-mod', le_refl, pow-suc, one-le-pow}
use native.Mathlib.Omega.{arith}
use cdj2000_emulator.Prelude.Tests.{◌==◌, ◌!=◌, eq-cases}

-- What `bitwise` does at the lowest digit. Rounds that the library's `digits` has left over do
-- nothing.
module _ (z : ℕ → ℕ) (f : ℕ → ℕ → ℕ) where
  one_more : (n a b : ℕ) → a ≤ n → digits z f (suc n) a b ≡ digits z f n a b
  one_more zero zero b h = refl
  one_more zero (suc a) b h = absurd (omega arith)
  one_more (suc n) zero b h = refl
  one_more (suc n) (suc a) b h =
      ap (λ t. t * 2 + f (suc a % 2) (b % 2)) (one_more n (suc a / 2) (b / 2) (omega arith))

  spare : (k n a b : ℕ) → a ≤ n → digits z f (k + n) a b ≡ digits z f n a b
  spare zero n a b h = ap (λ t. digits z f t a b) {y = n} (omega arith)
  spare (suc k) n a b h =
      ap (λ t. digits z f t a b) {y = suc (k + n)} (omega arith)
      ∙ one_more (k + n) a b (omega arith)
      ∙ spare k n a b h

  at_lowest :
      ((b : ℕ) → z b ≡ z (b / 2) * 2 + f 0 (b % 2))
      → (a b : ℕ) → bitwise z f a b ≡ bitwise z f (a / 2) (b / 2) * 2 + f (a % 2) (b % 2)
  at_lowest base zero b = base b
  at_lowest base (suc a) b =
      ap (λ t. t * 2 + f (suc a % 2) (b % 2))
        (ap (λ t. digits z f t half (b / 2)) {y = (a - half) + half} (omega arith)
          ∙ spare (a - half) half half (b / 2) (le_refl half))
    where
      half : ℕ
      half = suc a / 2

pub bit_or_step : (a b : ℕ) → bit_or a b ≡ bit_or (a / 2) (b / 2) * 2 + max (a % 2) (b % 2)
bit_or_step a b = simp bit_or-bitwise (at_lowest (λ y. y) max (λ y. omega arith) a b)

pub bit_and_step : (a b : ℕ) → bit_and a b ≡ bit_and (a / 2) (b / 2) * 2 + min (a % 2) (b % 2)
bit_and_step a b = simp bit_and-bitwise (at_lowest (λ y. 0) min (λ y. omega arith) a b)

pub bit_xor_step : (a b : ℕ) → bit_xor a b ≡ bit_xor (a / 2) (b / 2) * 2 + differ (a % 2) (b % 2)
bit_xor_step a b = simp bit_xor-bitwise (at_lowest (λ y. y) differ (λ y. lone y) a b)
  where
    lone : (y : ℕ) → y ≡ y / 2 * 2 + differ 0 (y % 2)
    lone y = omega arith

-- Bit `i` of `n`.
abbrev pub bit : ℕ → ℕ → Bool
bit n zero = n % 2 == 1
bit n (suc i) = bit (n / 2) i

pub bit-and : (i a b : ℕ) → bit (bit_and a b) i ≡ (bit a i && bit b i)
bit-and zero a b = ground (arith, bit_and_step a b)
bit-and (suc i) a b =
    ap (λ n. bit n i) (omega (arith, bit_and_step a b)) ∙ bit-and i (a / 2) (b / 2)

pub bit-or : (i a b : ℕ) → bit (bit_or a b) i ≡ (bit a i || bit b i)
bit-or zero a b = ground (arith, bit_or_step a b)
bit-or (suc i) a b = ap (λ n. bit n i) (omega (arith, bit_or_step a b)) ∙ bit-or i (a / 2) (b / 2)

-- The complement within `w` bits.
pub bit-complement : (w i n : ℕ) → n < 2 ^ w → i < w → bit (2 ^ w - 1 - n) i ≡ not (bit n i)
bit-complement zero i n h k = absurd (omega arith)
bit-complement (suc w) zero n h k = ground (arith, pow-suc 2 w)
bit-complement (suc w) (suc i) n h k =
    ap (λ n. bit n i) (omega (arith, pow-suc 2 w))
    ∙ bit-complement w i (n / 2) (omega (arith, pow-suc 2 w)) (omega arith)

-- Numbers of `w` bits are equal if their bits are.
pub bit_ext : (w a b : ℕ) → a < 2 ^ w → b < 2 ^ w → ((i : ℕ) → i < w → bit a i ≡ bit b i) → a ≡ b
bit_ext zero a b p q h = omega arith
bit_ext (suc w) a b p q h = ground (
  arith,
  h 0 (omega arith),
  bit_ext w (a / 2) (b / 2) (omega (arith, pow-suc 2 w)) (omega (arith, pow-suc 2 w))
      (λ i k. h (suc i) (omega arith)),
)

below_and : (n a b : ℕ) → a ≤ n → bit_and a b ≤ a
below_and zero a b h = omega (arith, bit_and_step a b, bit_and_step (a / 2) (b / 2), nil_and a b)
  where
    nil_and : (a b : ℕ) → a ≤ 0 → bit_and a b ≡ 0
    nil_and zero b h = simp bit_and-bitwise refl
    nil_and (suc a) b h = absurd (omega arith)
below_and (suc n) zero b h = simp bit_and-bitwise (omega arith)
below_and (suc n) (suc a) b h =
    omega (arith, bit_and_step (suc a) b, below_and n (suc a / 2) (b / 2) (omega arith))

pub bit_and-le : (a b : ℕ) → bit_and a b ≤ a
bit_and-le a b = below_and a a b (le_refl a)

self_and : (n a : ℕ) → a ≤ n → bit_and a a ≡ a
self_and n zero h = refl
self_and zero (suc a) h = absurd (omega arith)
self_and (suc n) (suc a) h =
    omega (arith, bit_and_step (suc a) (suc a), self_and n (suc a / 2) (omega arith))

pub bit_and_self : (a : ℕ) → bit_and a a ≡ a
bit_and_self a = self_and a a (le_refl a)

and_zero : (n a : ℕ) → a ≤ n → bit_and a 0 ≡ 0
and_zero zero a h = ap (λ t. bit_and t 0) {y = 0} (omega arith)
and_zero (suc n) zero h = refl
and_zero (suc n) (suc a) h =
    let rest = and_zero n (suc a / 2) (omega arith) in omega (arith, bit_and_step (suc a) 0, rest)

pub bit_and-zero : (a : ℕ) → bit_and a 0 ≡ 0
bit_and-zero a = and_zero a a (le_refl a)

below_right : (n a b : ℕ) → b ≤ n → bit_and a b ≤ b
below_right zero a b h = rw (zero_of b h) (omega (arith, bit_and-zero a))
  where
    zero_of : (b : ℕ) → b ≤ 0 → b ≡ 0
    zero_of b h = omega arith
below_right (suc n) a b h = ground (arith, bit_and_step a b, below_right n (a / 2) (b / 2))

pub bit_and-le_right : (a b : ℕ) → bit_and a b ≤ b
bit_and-le_right a b = below_right b a b (le_refl b)

pub bit_or-lt : (w a b : ℕ) → a < 2 ^ w → b < 2 ^ w → bit_or a b < 2 ^ w
bit_or-lt zero zero b p q = simp bit_or-bitwise q
bit_or-lt zero (suc a) b p q = absurd (omega arith)
bit_or-lt (suc w) a b p q = omega (
  arith,
  bit_or_step a b,
  pow-suc 2 w,
  bit_or-lt w (a / 2) (b / 2) (omega (arith, pow-suc 2 w)) (omega (arith, pow-suc 2 w)),
)

double : (q k : ℕ) → q * 2 ^ suc k ≡ 2 * (q * 2 ^ k)
double q k = omega (arith, ap (λ (t : ℕ). q * t) (pow-suc 2 k))

low_fields : (k q r : ℕ) → r < 2 ^ k → bit_and (q * 2 ^ k + r) (2 ^ k - 1) ≡ r
low_fields zero q r h = rw bit_and-zero (omega arith)
low_fields (suc k) q r h = ground (
  arith,
  bit_and_step (q * 2 ^ suc k + r) (2 ^ suc k - 1),
  double q k,
  pow-suc 2 k,
  low_fields k q (r / 2) (omega (arith, pow-suc 2 k)),
)

-- A mask of `k` ones is the remainder by `2 ^ k`.
pub bit_and-mask : (k a : ℕ) → bit_and a (2 ^ k - 1) ≡ a % 2 ^ k
bit_and-mask k a = ground (arith, one-le-pow k 2, low_fields k (a / 2 ^ k) (a % 2 ^ k))

power : (f n : ℕ) → n ≤ f → n ≢ 0 → bit_and n (n - 1) ≡ 0 → (k : ℕ) × (n ≡ 2 ^ k)
power zero n h z e = absurd (omega arith)
power (suc f) n h z e = elim (eq-cases (n % 2) 1) [
  | inl odd ↦ (
    0,
    omega (
      arith,
      bit_and_step n (n - 1),
      ap (λ (t : ℕ). bit_and (n / 2) t) (half_odd odd),
      bit_and_self (n / 2),
    ),
  )
  | inr even ↦
      let (k, p) = power f (n / 2) (omega arith) (omega arith) (
        omega
          (arith, bit_and_step n (n - 1), ap (λ (t : ℕ). bit_and (n / 2) t) (half_even even))) in
      (suc k, omega (arith, pow-suc 2 k))
]
  where
    half_odd : n % 2 ≡ 1 → (n - 1) / 2 ≡ n / 2
    half_odd e = omega arith

    half_even : n % 2 ≢ 1 → (n - 1) / 2 ≡ n / 2 - 1
    half_even e = omega arith

-- The usual test for a power of two.
pub bit_and-pred : (n : ℕ) → n ≢ 0 → bit_and n (n - 1) ≡ 0 → (k : ℕ) × (n ≡ 2 ^ k)
bit_and-pred n = power n n (le_refl n)

pub bit-zero : (i : ℕ) → bit 0 i ≡ false
bit-zero zero = refl
bit-zero (suc i) = bit-zero i

pub bit-pow : (k i : ℕ) → bit (2 ^ k) i ≡ (i == k)
bit-pow zero zero = refl
bit-pow zero (suc i) = bit-zero i ∙ ground arith
bit-pow (suc k) zero = ground (arith, pow-suc 2 k)
bit-pow (suc k) (suc i) =
    ap (λ n. bit n i) (omega (arith, pow-suc 2 k)) ∙ bit-pow k i ∙ ground arith

-- The test of one bit by a mask.
pub bit_and-pow : (k n : ℕ) → (bit_and n (2 ^ k) != 0) ≡ bit n k
bit_and-pow zero n = ground (arith, bit_and_step n 1, bit_and-zero (n / 2))
bit_and-pow (suc k) n = ground (
  arith,
  bit_and_step n (2 ^ suc k),
  pow-suc 2 k,
  ap (λ (t : ℕ). bit_and (n / 2) t) (half k),
  bit_and-pow k (n / 2),
)
  where
    half : (k : ℕ) → 2 ^ suc k / 2 ≡ 2 ^ k
    half k = omega (arith, pow-suc 2 k)

bit_of_le : (i w n : ℕ) → n < 2 ^ w → w ≤ i → bit n i ≡ false
bit_of_le zero zero n h k = ground arith
bit_of_le zero (suc w) n h k = absurd (omega arith)
bit_of_le (suc i) zero n h k = bit_of_le i zero (n / 2) (omega arith) (omega arith)
bit_of_le (suc i) (suc w) n h k = bit_of_le i w (n / 2) (omega (arith, pow-suc 2 w)) (omega arith)

-- No bit stands above the width.
pub bit_high : (w i n : ℕ) → n < 2 ^ w → w ≤ i → bit n i ≡ false
bit_high w i n = bit_of_le i w n

bit_low : (i w q r : ℕ) → i < w → bit (q * 2 ^ w + r) i ≡ bit r i
bit_low i zero q r h = absurd (omega arith)
bit_low zero (suc w) q r h = ap (λ m. m == 1) (omega (arith, double q w))
bit_low (suc i) (suc w) q r h =
    ap (λ m. bit m i) (omega (arith, double q w)) ∙ bit_low i w q (r / 2) (omega arith)

-- The bits below the width are those of the remainder.
pub bit-mod : (i w n : ℕ) → i < w → bit (n % 2 ^ w) i ≡ bit n i
bit-mod i w n h =
    sym (bit_low i w (n / 2 ^ w) (n % 2 ^ w) h) ∙ ap (λ m. bit m i) (div-add-mod' n (2 ^ w))

-- Merging a word with its upper half keeps what either half holds.
pub merge_halves :
    (v : ℕ)
    → v < 2 ^ 16
    → (bit_or v (v / 2 ^ 16) % 2 ^ 16 ≡ v)
      × (bit_or (v * 2 ^ 16) (v * 2 ^ 16 / 2 ^ 16) % 2 ^ 16 ≡ v)
      × (bit_or (v + v * 2 ^ 16) ((v + v * 2 ^ 16) / 2 ^ 16) % 2 ^ 16 ≡ v)
merge_halves v h = (low, high, both)
  where
    merged :
        (n : ℕ)
        → ((i : ℕ) → i < 16 → (bit n i || bit (n / 2 ^ 16) i) ≡ bit v i)
        → bit_or n (n / 2 ^ 16) % 2 ^ 16 ≡ v
    merged n same =
        bit_ext 16 _ v (omega arith) h
          (λ i k. bit-mod i 16 (bit_or n (n / 2 ^ 16)) k ∙ bit-or i n (n / 2 ^ 16) ∙ same i k)

    zeros : (i : ℕ) → bit 0 i ≡ false
    zeros = bit-zero

    or_false : (b c : Bool) → c ≡ false → (b || c) ≡ b
    or_false b c e = ground arith

    false_or : (b c : Bool) → b ≡ false → (b || c) ≡ c
    false_or b c e = ground arith

    or_same : (b c d : Bool) → b ≡ d → c ≡ d → (b || c) ≡ d
    or_same b c d e f = ground arith

    low : bit_or v (v / 2 ^ 16) % 2 ^ 16 ≡ v
    low = merged v (λ i k. or_false _ _ (ap (λ m. bit m i) {y = 0} (omega arith) ∙ bit-zero i))

    shifted : (i : ℕ) → i < 16 → bit (v * 2 ^ 16) i ≡ false
    shifted i k =
        sym (bit-mod i 16 (v * 2 ^ 16) k) ∙ ap (λ m. bit m i) {y = 0} (omega arith) ∙ bit-zero i

    back : (i : ℕ) → bit (v * 2 ^ 16 / 2 ^ 16) i ≡ bit v i
    back i = ap (λ m. bit m i) (omega arith)

    high : bit_or (v * 2 ^ 16) (v * 2 ^ 16 / 2 ^ 16) % 2 ^ 16 ≡ v
    high = merged (v * 2 ^ 16) (λ i k. false_or _ _ (shifted i k) ∙ back i)

    both : bit_or (v + v * 2 ^ 16) ((v + v * 2 ^ 16) / 2 ^ 16) % 2 ^ 16 ≡ v
    both = merged (v + v * 2 ^ 16) (λ i k.
        or_same _ _ _ (sym (bit-mod i 16 (v + v * 2 ^ 16) k) ∙ ap (λ m. bit m i) (omega arith))
          (ap (λ m. bit m i) (omega arith)))
