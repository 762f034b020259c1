-- ===== src/Prelude/Arrays.antt =====
-- C arrays of a fixed size as functions of the index. That the indices which the code computes
-- lie in range is proved where they are computed.
use Prim.Native.Nat.{ℕ}
use mathlib.Core.Path.{◌≡◌, refl, sym, ap}
use mathlib.Core.Logic.{◌≢◌, inl, inr}
use native.Mathlib.Omega.{arith}
use cdj2000_emulator.Prelude.Tests.{◌==◌, if◌then◌else◌, eq-cases, eq→==, ==_of_ne}

abbrev pub Array : Type 0 → Type 0
Array A = ℕ → A

-- `a[i] = v`
abbrev pub update : {A : Type 0} → Array A → ℕ → A → Array A
update a i v j = if j == i then v else a j

pub update_self : {A : Type 0} (a : Array A) (i : ℕ) (v : A) → update a i v i ≡ v
update_self a i v = ground arith

-- An element stored where it stands.
pub update_same : {A : Type 0} (a : Array A) (i : ℕ) → update a i (a i) ≡ a
update_same a i = λ t j. at_index j t
  where
    at_index : (j : ℕ) → (if j == i then a i else a j) ≡ a j
    at_index j = elim (eq-cases j i) [
      | inl e ↦ rw (eq→== j i e) (ap a (sym e))
      | inr ne ↦ rw (==_of_ne j i ne) refl
    ]

pub update_ne : {A : Type 0} (a : Array A) (i j : ℕ) (v : A) → j ≢ i → update a i v j ≡ a j
update_ne a i j v h = ground arith
