-- ===== src/Multiply/Divide.antt =====
-- SUBC, repeated.
use cdj2000_emulator.Prelude.{
  ℕ, zero, suc, ◌+◌, ◌-◌, ◌*◌, ◌/◌, ◌%◌, ◌^◌, ◌<◌, ◌≤◌, leb, Bool-cases, ◌≡◌, sym, ap, ◌∙◌, arith,
  inl, inr,
}
use mathlib.Core.Path.{subst}
use native.Mathlib.Nat.{
  pow-suc, add-mul-mod_self_left, mod-eq_of_lt, add-mul-div_left, div-eq_of_lt, mul-le-mul_left,
}
use cdj2000_emulator.Multiply.{subc}

-- The step repeated.
pub subc_steps : ℕ → ℕ → ℕ → ℕ
subc_steps zero divisor r = r
subc_steps (suc n) divisor r = subc_steps n divisor (subc r divisor)

subc-less : (r e : ℕ) → r < e → 2 * e ≤ 2 ^ 32 → subc r e ≡ 2 * r
unfolding subc
subc-less r e h k = ground arith

subc-more : (s e : ℕ) → s < e → 2 * e ≤ 2 ^ 32 → subc (e + s) e ≡ 2 * s + 1
unfolding subc
subc-more s e h k = ground arith

-- What the steps leave: `q` are the bits of the quotient.
record Divided (n e r result : ℕ) : Type 0 where
  q : ℕ
  bits : q < 2 ^ n
  below : result < 2 * e
  whole : result + 2 * e * q ≡ 2 ^ n * r + q

twice : (n r : ℕ) → 2 ^ suc n * r ≡ 2 ^ n * (2 * r)
twice n r = ap (λ (t : ℕ). t * r) (pow-suc 2 n) ∙ omega arith

spread : (p e s : ℕ) → p * (2 * (e + s)) ≡ 2 * (p * e) + 2 * (p * s)
spread p e s = omega arith

more_q : (e q p : ℕ) → 2 * e * (q + p) ≡ 2 * e * q + 2 * (p * e)
more_q e q p = omega arith

odd_part : (p s : ℕ) → p * (2 * s + 1) ≡ 2 * (p * s) + p
odd_part p s = omega arith

steps-Divided : (n e r : ℕ) → r < 2 * e → 2 * e ≤ 2 ^ 32 → Divided n e r (subc_steps n e r)
unfolding subc_steps
steps-Divided zero e r h k = record { q = 0; bits = omega arith; below = h; whole = omega arith }
steps-Divided (suc n) e r h k = elim (Bool-cases (leb e r)) [
  | inr less ↦
      let f = steps-Divided n e (2 * r) (ground (arith, less)) k in
      subst (λ (t : ℕ). Divided (suc n) e r (subc_steps n e t))
        (sym (subc-less r e (ground (arith, less)) k))
        (record {
          q = f.q;
          bits = omega (arith, f.bits, pow-suc 2 n);
          below = f.below;
          whole = omega (arith, f.whole, twice n r);
        })
  | inl more ↦
      let f = steps-Divided n e (2 * (r - e) + 1) (ground (arith, more)) k in
      subst (λ (t : ℕ). Divided (suc n) e r (subc_steps n e t))
        (sym (
          ap (λ (t : ℕ). subc t e) {x = r} {y = e + (r - e)} (ground (arith, more))
          ∙ subc-more (r - e) e (ground (arith, more)) k))
        (record {
          q = f.q + 2 ^ n;
          bits = omega (arith, f.bits, pow-suc 2 n);
          below = f.below;
          whole = omega (
            arith,
            f.whole,
            twice n r,
            ap (λ (t : ℕ). 2 ^ n * (2 * t)) {x = r} {y = e + (r - e)} (ground (arith, more)),
            spread (2 ^ n) e (r - e),
            more_q e f.q (2 ^ n),
            odd_part (2 ^ n) (r - e),
          );
        })
]

module _ (p d q t : ℕ) (h : q < p) (k : t < d) where
  low_part : (q + p * t) % p ≡ q
  low_part = add-mul-mod_self_left q p t ∙ mod-eq_of_lt h

  high_part : (q + p * t) / p ≡ t
  high_part =
      add-mul-div_left q t {y = p} (omega arith)
      ∙ ap (λ (x : ℕ). x + t) (div-eq_of_lt h)
      ∙ omega arith

  remainder_part : (t + d * q) % d ≡ t
  remainder_part = add-mul-mod_self_left t d q ∙ mod-eq_of_lt k

  quotient_part : (t + d * q) / d ≡ q
  quotient_part =
      add-mul-div_left t q {y = d} (omega arith)
      ∙ ap (λ (x : ℕ). x + q) (div-eq_of_lt k)
      ∙ omega arith

module _ (p d q r result : ℕ) (h : q < p) (k : result < d * p)
    (e : result + d * p * q ≡ p * r + q) where
  fits : d * q ≤ r
  fits = elim (Bool-cases (leb (d * q) r)) [
    | inl within ↦ ground (arith, within)
    | inr beyond ↦
        absurd
          (omega (arith, h, e, mul-le-mul_left {m = r + 1} {n = d * q} p (ground (arith, beyond))))
  ]

  result-sum : result ≡ q + p * (r - d * q)
  result-sum =
      omega
        (arith, h, e, ap (λ (t : ℕ). p * t) {x = r} {y = d * q + (r - d * q)} (omega (arith, fits)))

  remainder-lt : r - d * q < d
  remainder-lt = elim (Bool-cases (leb d (r - d * q))) [
    | inr less ↦ ground (arith, less)
    | inl more ↦ absurd (
        omega
          (arith, k, result-sum, mul-le-mul_left {m = d} {n = r - d * q} p (ground (arith, more))))
  ]

  -- The quotient and the remainder that an equation of this form determines.
  determined : (result % p ≡ r / d) × (result / p ≡ r % d)
  determined =
      let t = r - d * q in
      let r-sum : r ≡ t + d * q = omega (arith, fits) in
      (
        ap (λ (x : ℕ). x % p) result-sum
            ∙ low_part p d q t h remainder-lt
            ∙ sym (ap (λ (x : ℕ). x / d) r-sum ∙ quotient_part p d q t h remainder-lt),
        ap (λ (x : ℕ). x / p) result-sum
            ∙ high_part p d q t h remainder-lt
            ∙ sym (ap (λ (x : ℕ). x % d) r-sum ∙ remainder_part p d q t h remainder-lt),
      )

-- SUBC divides: by a divisor in its place above the quotient's bits, as many steps as those bits leave
-- the quotient in them, and the remainder above, if the dividend is less than the divisor times two to
-- the steps and that fits a word.
pub subc-divides :
    (n d r : ℕ)
    → r < d * 2 ^ suc n
    → d * 2 ^ suc n ≤ 2 ^ 32
    → let result = subc_steps (suc n) (d * 2 ^ n) r in
      (result % 2 ^ suc n ≡ r / d) × (result / 2 ^ suc n ≡ r % d)
subc-divides n d r h k =
    let placed : 2 * (d * 2 ^ n) ≡ d * 2 ^ suc n =
      omega (arith, ap (λ (t : ℕ). d * t) (pow-suc 2 n)) in
    let f =
      steps-Divided (suc n) (d * 2 ^ n) r (omega (arith, h, placed)) (omega (arith, k, placed)) in
    determined (2 ^ suc n) d f.q r _ f.bits (omega (arith, f.below, placed))
      (omega (arith, f.whole, ap (λ (t : ℕ). t * f.q) placed))
