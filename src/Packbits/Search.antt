-- ===== src/Packbits/Search.antt =====
-- LMBD and NORM: the searches from the top of a word.
use cdj2000_emulator.Prelude.{
  ℕ, zero, suc, ◌+◌, ◌-◌, ◌%◌, ◌<◌, ◌≤◌, ◌==◌, ◌!=◌, ◌≡◌, ◌≢◌, ◌⊎◌, refl, sym, ap, ◌∙◌, arith, ltb,
  leb, Bool-cases, true, inl, inr, eq-cases,
}
use mathlib.Core.Path.{subst}
use cdj2000_emulator.Prelude.Bits.{bit_and-mask}
use cdj2000_emulator.Prelude.Cases.{if_keeps}
use cdj2000_emulator.Packbits.{bit_at, lmbd_from, lmbd, norm_from, norm32, norm40}

-- What a search from bit `top - 1` down finds: nothing, or the highest bit that is wanted.
abbrev Found : ℕ → ℕ → ℕ → ℕ → Type 0
Found wanted src top r =
    (r ≡ 32) × ((i : ℕ) → i < top → bit_at src i ≢ wanted)
    ⊎ (r < 32)
      × (bit_at src (31 - r) ≡ wanted)
      × ((i : ℕ) → 31 - r < i → i < top → bit_at src i ≢ wanted)

lmbd_from-Found : (wanted src top : ℕ) → top ≤ 32 → Found wanted src top (lmbd_from wanted src top)
unfolding lmbd_from
lmbd_from-Found wanted src zero h = inl (refl, λ i p. absurd (omega arith))
lmbd_from-Found wanted src (suc i) h =
    if_keeps (Found wanted src (suc i)) (bit_at src i == wanted)
      (λ here. inr (
        omega arith,
        ap (bit_at src) {x = 31 - (31 - i)} {y = i} (omega arith) ∙ ground (arith, here),
        λ j p q. absurd (omega arith),
      ))
      (λ further. extend (ground (arith, further)) (lmbd_from-Found wanted src i (omega arith)))
  where
    above :
        bit_at src i ≢ wanted
        → (j : ℕ) → j < suc i
        → (j < i → bit_at src j ≢ wanted)
        → bit_at src j ≢ wanted
    above n j p below = elim (eq-cases j i) [
      | inl here ↦ λ e. n (ap (bit_at src) (sym here) ∙ e)
      | inr other ↦ below (omega arith)
    ]

    extend : {r : ℕ} → bit_at src i ≢ wanted → Found wanted src i r → Found wanted src (suc i) r
    extend n (inl (none, all)) = inl (none, λ j p. above n j p (all j))
    extend n (inr (some, at, all)) = inr (some, at, λ j p q. above n j q (all j p))

-- The bits from `top - 1` down that equal the sign are `k`.
abbrev Redundant : ℕ → ℕ → ℕ → ℕ → Type 0
Redundant sign src top k =
    (k ≤ top)
    × ((i : ℕ) → top - k ≤ i → i < top → bit_at src i ≡ sign)
    × ((k ≡ top) ⊎ (bit_at src (top - 1 - k) ≢ sign))

-- The same of a count that starts at `count`.
abbrev Counted : ℕ → ℕ → ℕ → ℕ → ℕ → Type 0
Counted sign src top count r = (count ≤ r) × Redundant sign src top (r - count)

norm_from-Counted :
    (sign src top count : ℕ) → Counted sign src top count (norm_from sign src top count)
unfolding norm_from
norm_from-Counted sign src zero count =
    (omega arith, (omega arith, λ i p q. absurd (omega arith), inl (omega arith)))
norm_from-Counted sign src (suc i) count =
    if_keeps (Counted sign src (suc i) count) (bit_at src i != sign)
      (λ differs. (
        omega arith,
        (
          omega arith,
          λ j p q. absurd (omega arith),
          inr (λ e.
              differs_here differs
                (ap (bit_at src) {x = i} {y = suc i - 1 - (count - count)} (omega arith) ∙ e)),
        ),
      ))
      (λ equals. extend (ground (arith, equals)) (norm_from-Counted sign src i (count + 1)))
  where
    differs_here : (bit_at src i != sign) ≡ true → bit_at src i ≢ sign
    differs_here d = ground (arith, d)

    extend :
        {r : ℕ}
        → bit_at src i ≡ sign
        → Counted sign src i (count + 1) r
        → Counted sign src (suc i) count r
    extend {r} e (more, (fits, same, ends)) = (
      omega arith,
      (
        omega arith,
        λ j p q. elim (eq-cases j i) [
          | inl here ↦ ap (bit_at src) here ∙ e
          | inr other ↦ same j (omega arith) (omega arith)
        ],
        elim ends [
          | inl all ↦ inl (omega arith)
          | inr stop ↦ inr (λ f. stop (
              ap (bit_at src) {x = i - 1 - (r - (count + 1))} {y = suc i - 1 - (r - count)}
                (omega arith)
              ∙ f))
        ],
      ),
    )

-- LMBD finds the highest bit that equals the lowest bit of the first operand: the bit that its result
-- has above it in number is such a bit, unless the result is 32, and no bit further up is.
lmbd_lem :
    (a b i : ℕ)
    → i < 32
    → ((lmbd a b ≡ 32) ⊎ (bit_at b (31 - lmbd a b) ≡ a % 2))
      × ((lmbd a b + i ≤ 31) ⊎ (bit_at b i ≢ a % 2))
unfolding lmbd
lmbd_lem a b i h = rw (bit_and-mask 1 a) (elim (lmbd_from-Found (a % 2) b 32 (omega arith)) [
  | inl (none, all) ↦ (inl none, inr (all i h))
  | inr (some, at, all) ↦ (
    inr at,
    elim (Bool-cases (leb (lmbd_from (a % 2) b 32 + i) 31)) [
      | inl below ↦ inl (ground (arith, below))
      | inr above ↦ inr (all i (ground (arith, above)) h)
    ],
  )
])

-- A bit below the sign: it equals the sign, or lies below the redundant bits.
sign_or_below :
    (x top i : ℕ)
    → i < top
    → let count = norm_from (bit_at x top) x top 0 in
      (count ≤ top)
      × ((count ≡ top) ⊎ (bit_at x (top - 1 - count) ≢ bit_at x top))
      × ((count + i < top) ⊎ (bit_at x i ≡ bit_at x top))
sign_or_below x top i h =
    let count = norm_from (bit_at x top) x top 0 in
    let (fits, same, ends) =
      subst (Redundant (bit_at x top) x top) {x = count - 0} {y = count} (omega arith)
        (norm_from-Counted (bit_at x top) x top 0).1 in
    (
      fits,
      ends,
      elim (Bool-cases (ltb (count + i) top)) [
        | inl below ↦ inl (ground (arith, below))
        | inr above ↦ inr (same i (ground (arith, above)) h)
      ],
    )

-- NORM counts the redundant sign bits of a word and of a value of forty bits: a bit equals the sign unless
-- it lies below as many bits as the result, and the first one below them, if there is one, differs.
norm_lem :
    (x i j : ℕ)
    → i < 31
    → j < 39
    → (norm32 x ≤ 31)
      × ((norm32 x ≡ 31) ⊎ (bit_at x (30 - norm32 x) ≢ bit_at x 31))
      × ((norm32 x + i < 31) ⊎ (bit_at x i ≡ bit_at x 31))
      × (norm40 x ≤ 39)
      × ((norm40 x ≡ 39) ⊎ (bit_at x (38 - norm40 x) ≢ bit_at x 39))
      × ((norm40 x + j < 39) ⊎ (bit_at x j ≡ bit_at x 39))
unfolding norm32 norm40
norm_lem x i j h k =
    let word = sign_or_below x 31 i h in
    let long = sign_or_below x 39 j k in (word.0, word.1, word.2, long.0, long.1, long.2)
