-- ===== src/Prelude/Fields.antt =====
-- Words put together from fields.
use Prim.Native.Nat.{ℕ, zero, suc, ◌+◌, ◌*◌, ◌/◌, ◌^◌, ◌≤◌, ◌<◌}
use Prim.Native.Nat.{bit_or, bit_or-bitwise}
use mathlib.Core.Path.{◌≡◌, refl, ap, ◌∙◌}
use native.Mathlib.Nat.{pow-suc, le_refl}
use native.Mathlib.Omega.{arith}
use cdj2000_emulator.Prelude.Bits.{bit_or_step}

doubled : (a k : ℕ) → a * 2 ^ suc k ≡ 2 * (a * 2 ^ k)
doubled a k = omega (arith, ap (λ (t : ℕ). a * t) (pow-suc 2 k))

-- A field above a number's bits does not disturb them.
pub bit_or-field : (k a b : ℕ) → b < 2 ^ k → bit_or b (a * 2 ^ k) ≡ b + a * 2 ^ k
bit_or-field zero a zero h = simp bit_or-bitwise (omega arith)
bit_or-field zero a (suc b) h = absurd (omega arith)
bit_or-field (suc k) a b h = omega (
  arith,
  bit_or_step b (a * 2 ^ suc k),
  doubled a k,
  pow-suc 2 k,
  bit_or-field k a (b / 2) (omega (arith, pow-suc 2 k)),
  ap (λ (t : ℕ). bit_or (b / 2) t) (halved a k),
)
  where
    halved : (a k : ℕ) → a * 2 ^ suc k / 2 ≡ a * 2 ^ k
    halved a k = omega (arith, doubled a k)

or_zero : (n a : ℕ) → a ≤ n → bit_or a 0 ≡ a
or_zero n zero h = refl
or_zero zero (suc a) h = absurd (omega arith)
or_zero (suc n) (suc a) h =
    let rest = or_zero n (suc a / 2) (omega arith) in omega (arith, bit_or_step (suc a) 0, rest)

pub bit_or-field' : (k a b : ℕ) → b < 2 ^ k → bit_or (a * 2 ^ k) b ≡ a * 2 ^ k + b
bit_or-field' zero a zero h = or_zero (a * 1) (a * 1) (le_refl (a * 1)) ∙ omega arith
bit_or-field' zero a (suc b) h = absurd (omega arith)
bit_or-field' (suc k) a b h = omega (
  arith,
  bit_or_step (a * 2 ^ suc k) b,
  doubled a k,
  pow-suc 2 k,
  bit_or-field' k a (b / 2) (omega (arith, pow-suc 2 k)),
  ap (λ (t : ℕ). bit_or t (b / 2)) (halved a k),
)
  where
    halved : (a k : ℕ) → a * 2 ^ suc k / 2 ≡ a * 2 ^ k
    halved a k = omega (arith, doubled a k)
