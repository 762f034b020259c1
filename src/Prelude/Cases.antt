-- ===== src/Prelude/Cases.antt =====
-- A property of both branches of a test is one of the test's result.
use mathlib.Core.Path.{◌≡◌, refl}
use mathlib.Core.Bool.{Bool, true, false}
use cdj2000_emulator.Prelude.Tests.{if◌then◌else◌}

pub if_keeps {ℓ κ} :
    {A : Type ℓ} (P : A → Type κ) (b : Bool) {x y : A}
    → (b ≡ true → P x)
    → (b ≡ false → P y)
    → P (if b then x else y)
if_keeps P true f g = f refl
if_keeps P false f g = g refl
