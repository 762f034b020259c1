-- ===== src/Prelude/Integers.antt =====
-- Integers over the native numbers, and the words that stand for them in two's complement.
use Prim.Native.Nat.{ℕ, ◌+◌, ◌-◌, ◌*◌, ◌/◌, ◌%◌, ◌^◌, ◌<◌}
use mathlib.Core.Path.{◌≡◌}
use mathlib.Core.Bool.{Bool, true, false}
use native.Mathlib.Omega.{arith}
use cdj2000_emulator.Prelude.Tests.{◌==◌, ltb, leb, if◌then◌else◌}

infixl 6 ◌+ℤ◌
infixl 6 ◌-ℤ◌
pub data ℤ : Type 0 where
  pos : ℕ → ℤ
  negsuc : ℕ → ℤ

-- The difference of two numbers.
abbrev pub difference : ℕ → ℕ → ℤ
difference m n = if leb n m then pos (m - n) else negsuc (n - m - 1)

abbrev pub ◌+ℤ◌ : ℤ → ℤ → ℤ
pos a +ℤ pos b = pos (a + b)
pos a +ℤ negsuc b = difference a (b + 1)
negsuc a +ℤ pos b = difference b (a + 1)
negsuc a +ℤ negsuc b = negsuc (a + b + 1)

abbrev pub negate : ℤ → ℤ
negate (pos n) = difference 0 n
negate (negsuc n) = pos (n + 1)

abbrev pub ◌-ℤ◌ : ℤ → ℤ → ℤ
x -ℤ y = x +ℤ negate y

abbrev pub ltℤ : ℤ → ℤ → Bool
ltℤ (pos a) (pos b) = ltb a b
ltℤ (pos a) (negsuc b) = false
ltℤ (negsuc a) (pos b) = true
ltℤ (negsuc a) (negsuc b) = ltb b a

-- A word of `w` bits read as a signed integer, and the word that an integer is stored in.
abbrev pub signed : ℕ → ℕ → ℤ
signed w x = if ltb x (2 ^ (w - 1)) then pos x else negsuc (2 ^ w - 1 - x)

abbrev pub to_word : ℕ → ℤ → ℕ
to_word w (pos n) = n % 2 ^ w
to_word w (negsuc n) = 2 ^ w - 1 - n % 2 ^ w

abbrev pub minℤ : ℤ → ℤ → ℤ
minℤ x y = if ltℤ y x then y else x

abbrev pub maxℤ : ℤ → ℤ → ℤ
maxℤ x y = if ltℤ x y then y else x

-- The integer of a range that is nearest to a given one.
abbrev pub clamp : ℤ → ℤ → ℤ → ℤ
clamp low high z = maxℤ low (minℤ high z)

-- The quotient by `2 ^ k`, rounded down.
abbrev pub shift_down : ℤ → ℕ → ℤ
shift_down (pos n) k = pos (n / 2 ^ k)
shift_down (negsuc n) k = negsuc (n / 2 ^ k)

-- The integers that `w` bits hold.
abbrev pub Fits : ℕ → ℤ → Type 0
Fits w (pos n) = n < 2 ^ (w - 1)
Fits w (negsuc n) = n < 2 ^ (w - 1)

abbrev pub eqℤ : ℤ → ℤ → Bool
eqℤ (pos a) (pos b) = a == b
eqℤ (pos a) (negsuc b) = false
eqℤ (negsuc a) (pos b) = false
eqℤ (negsuc a) (negsuc b) = a == b

-- The product with a number.
abbrev pub times : ℤ → ℕ → ℤ
times (pos a) n = pos (a * n)
times (negsuc a) n = difference 0 ((a + 1) * n)

-- An integer of 16 bits is read back from the low half of its word.
pub signed_low : (z : ℤ) → Fits 16 z → signed 16 (to_word 32 z % 2 ^ 16) ≡ z
signed_low (pos n) h = ground arith
signed_low (negsuc n) h = ground arith

infixl 7 ◌*ℤ◌
abbrev pub ◌*ℤ◌ : ℤ → ℤ → ℤ
pos a *ℤ pos b = pos (a * b)
pos a *ℤ negsuc b = difference 0 (a * (b + 1))
negsuc a *ℤ pos b = difference 0 ((a + 1) * b)
negsuc a *ℤ negsuc b = pos ((a + 1) * (b + 1))
