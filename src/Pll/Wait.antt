-- ===== src/Pll/Wait.antt =====
-- The lock wait is the square root that it stands for, rounded up, and its loop ends.

use cdj2000_emulator.Prelude.{
  ℕ, zero, suc, ◌+◌, ◌*◌, ◌≤◌, ◌<◌, ltb, leb, ◌&&◌, true, false, ◌≡◌, refl, arith, Bool-cases, inl,
  inr, eq-cases, sym,
}
use mathlib.Core.Path.{ap₂}
use native.Mathlib.Nat.{mul-le-mul, zero-add, le_refl}
use cdj2000_emulator.Prelude.Bits.{bit_and-mask}
use cdj2000_emulator.Prelude.Word.{u64}
use cdj2000_emulator.Pll.{Pll, ratio, wait_from, lock_wait}

-- The products of the loop do not wrap.
small : (w m : ℕ) → w ≤ 64000 → m ≤ 32 → w * w * m ≤ 64000 * 64000 * 32
small w m h k = mul-le-mul (mul-le-mul h h) k

-- The quantity that the loop compares.
abbrev quantity : ℕ → ℕ → ℕ
quantity w m = w * w * m

module _ (m square rounds wait : ℕ) (k : m ≤ 32) (b : wait + suc rounds ≤ 64000) where
  unwrapped : u64 (wait * wait * m) ≡ quantity wait m
  unwrapped = omega (arith, small wait m (omega arith) k)

  goes_on :
      ltb (quantity wait m) square ≡ true
      → wait_from m square (suc rounds) wait ≡ wait_from m square rounds (wait + 1)
  unfolding wait_from
  goes_on h = ground (arith, unwrapped)

  halts : ltb (quantity wait m) square ≡ false → wait_from m square (suc rounds) wait ≡ wait
  unfolding wait_from
  halts h = ground (arith, unwrapped)

no_round : (m square wait : ℕ) → wait_from m square zero wait ≡ wait
unfolding wait_from
no_round m square wait = refl

reaches :
    (m square rounds wait : ℕ)
    → square ≤ quantity (wait + suc rounds) m
    → square ≤ quantity (wait + 1 + rounds) m
reaches m square rounds wait q = rw (same) q
  where
    same : wait + 1 + rounds ≡ wait + suc rounds
    same = omega arith

wait_from_lem :
    (m square rounds wait v : ℕ)
    → m ≤ 32
    → wait + rounds ≤ 64000
    → square ≤ quantity (wait + rounds) m
    → wait ≤ v
    → v < wait_from m square rounds wait
    → quantity v m < square
wait_from_lem m square zero wait v k b q l h = absurd (omega (arith, no_round m square wait))
wait_from_lem m square (suc rounds) wait v k b q l h =
    elim (Bool-cases (ltb (quantity wait m) square)) [
      | inl more ↦ elim (eq-cases v wait) [
        | inl here ↦ rw here (ground (arith, more))
        | inr later ↦
            wait_from_lem m square rounds (wait + 1) v k (omega arith)
              (reaches m square rounds wait q) (omega arith)
              (omega (arith, goes_on m square rounds wait k b more))
      ]
      | inr done ↦ absurd (omega (arith, halts m square rounds wait k b done))
    ]

wait_from_end :
    (m square rounds wait : ℕ)
    → m ≤ 32
    → wait + rounds ≤ 64000
    → square ≤ quantity (wait + rounds) m
    → square ≤ quantity (wait_from m square rounds wait) m
wait_from_end m square zero wait k b q = unfold wait_from in rw (sym (plain wait)) q
  where
    plain : (n : ℕ) → n + 0 ≡ n
    plain n = omega arith
wait_from_end m square (suc rounds) wait k b q = elim (Bool-cases (ltb (quantity wait m) square)) [
  | inl more ↦
      rw (goes_on m square rounds wait k b more)
        (wait_from_end m square rounds (wait + 1) k (omega arith) (reaches m square rounds wait q))
  | inr done ↦ rw (halts m square rounds wait k b done) (ground (arith, done))
]

pub ratio_range : (d : ℕ) → (0 < ratio d) × (ratio d ≤ 32)
unfolding ratio
ratio_range d = ground (arith, bit_and-mask 5 d)

squared : (n : ℕ) → 2000 * n * (2000 * n) ≡ 4000000 * n * n
squared n = grind arith

-- The whole budget is enough at the smallest multiplier.
budget : (n m : ℕ) → 0 < m → 4000000 * n * n ≤ quantity (2000 * n) m
budget n m h = omega (arith, squared n, mul-le-mul (le_refl (2000 * n * (2000 * n))) h)

square_word : (n : ℕ) → n ≤ 32 → 4000000 * n * n ≤ 4000000 * 32 * 32
square_word n h = mul-le-mul (mul-le-mul (le_refl 4000000) h) h

from_zero :
    (n m : ℕ)
    → 4000000 * n * n ≤ quantity (2000 * n) m
    → 4000000 * n * n ≤ quantity (0 + 2000 * n) m
from_zero n m h = rw (zero-add (2000 * n)) h

lock_wait-loop :
    (s : Pll)
    → s.config 2 < 32
    → lock_wait s
      ≡ wait_from
          (s.config 2 + 1)
          (4000000 * ratio (s.config 3) * ratio (s.config 3))
          (2000 * ratio (s.config 3))
          0
unfolding lock_wait
lock_wait-loop s h =
    ap₂ (λ m q. wait_from m q (2000 * ratio (s.config 3)) 0) (omega arith)
      (omega (arith, square_word (ratio (s.config 3)) (ratio_range (s.config 3)).1))

-- With a multiplier field below 32, the lock wait of divider N and multiplier M is the least number
-- of input periods that is 2000 N / sqrt M or more: its square times M is at least 4000000 N N, and
-- that of every smaller number is less.
pub lock_wait_lem :
    (s : Pll) (v : ℕ)
    → s.config 2 < 32
    → (4000000 * ratio (s.config 3) * ratio (s.config 3)
        ≤ lock_wait s * lock_wait s * (s.config 2 + 1))
      × ((ltb v (lock_wait s)
            && leb (4000000 * ratio (s.config 3) * ratio (s.config 3)) (v * v * (s.config 2 + 1)))
          ≡ false)
lock_wait_lem s v h =
    let n = ratio (s.config 3) in
    let range = (ratio_range (s.config 3)).1 in
    let enough = budget n (s.config 2 + 1) (omega arith) in
    (
      rw (lock_wait-loop s h) (
          wait_from_end (s.config 2 + 1) (4000000 * n * n) (2000 * n) 0 (omega arith) (omega arith)
            (from_zero n (s.config 2 + 1) enough)),
      elim (Bool-cases (ltb v (lock_wait s))) [
        | inl less ↦ rw less (
            too_short v (
              wait_from_lem (s.config 2 + 1) (4000000 * n * n) (2000 * n) 0 v (omega arith)
                (omega arith) (from_zero n (s.config 2 + 1) enough) (omega arith)
                (ground (arith, less, lock_wait-loop s h))))
        | inr more ↦ rw more refl
      ],
    )
  where
    too_short :
        (w : ℕ)
        → w * w * (s.config 2 + 1) < 4000000 * ratio (s.config 3) * ratio (s.config 3)
        → leb (4000000 * ratio (s.config 3) * ratio (s.config 3)) (w * w * (s.config 2 + 1)) ≡ false
    too_short w k = ground arith
