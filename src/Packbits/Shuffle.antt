-- ===== src/Packbits/Shuffle.antt =====
-- DEAL, SHFL and BITR: where each bit of a word goes.
use Prim.Native.Nat.{bit_and}
use cdj2000_emulator.Prelude.{
  ℕ, zero, suc, ◌+◌, ◌-◌, ◌*◌, ◌/◌, ◌%◌, ◌^◌, ◌<◌, ◌≤◌, ◌==◌, ◌≡◌, ◌≢◌, refl, sym, ap, ◌∙◌, arith,
  eq-cases, Bool-cases, ltb, Bool, false, ◌&&◌, ◌||◌,
}
use native.Mathlib.Nat.{div-div-eq-div-mul, pow-suc}
use cdj2000_emulator.Prelude.Bits.{bit, bit-or, bit-pow, bit-zero, bit_and-mask}
use mathlib.Core.Path.{subst}
use mathlib.Core.Logic.{inl, inr}
use cdj2000_emulator.Prelude.Word.{IsWord, word_ext, or-IsWord, pow-IsWord}
use cdj2000_emulator.Packbits.{bit_at, place, bitr_from, bitr, deal_from, deal, shfl_from, shfl}

bit_at_lem : (i word : ℕ) → (bit_at word i == 1) ≡ bit word i
unfolding bit_at
bit_at_lem zero word = ground (arith, bit_and-mask 1 word)
bit_at_lem (suc i) word =
    ap (λ n. bit_and n 1 == 1)
      (ap (λ (p : ℕ). word / p) (omega (arith, pow-suc 2 i))
        ∙ sym (div-div-eq-div-mul word 2 (2 ^ i)))
    ∙ bit_at_lem i (word / 2)

one_bit : (b to j : ℕ) → b < 2 → bit (b * 2 ^ to) j ≡ ((b == 1) && (j == to))
one_bit zero to j h = ap (λ n. bit n j) {y = 0} (omega arith) ∙ bit-zero j
one_bit (suc zero) to j h = ap (λ n. bit n j) {y = 2 ^ to} (omega arith) ∙ bit-pow to j
one_bit (suc (suc b)) to j h = absurd (omega arith)

bit_at-lt : (word i : ℕ) → bit_at word i < 2
unfolding bit_at
bit_at-lt word i = omega (arith, bit_and-mask 1 (word / 2 ^ i))

-- A bit put in its place, and every other bit as it was.
bit-place :
    (word from to dst j : ℕ)
    → bit (place word from to dst) j ≡ (bit dst j || (bit word from && (j == to)))
unfolding place
bit-place word from to dst j =
    bit-or j dst (bit_at word from * 2 ^ to)
    ∙ ap (λ b. bit dst j || b)
        (one_bit (bit_at word from) to j (bit_at-lt word from)
          ∙ ap (λ b. b && (j == to)) (bit_at_lem from word))

-- Some index of a range passes a test.
any : (ℕ → Bool) → ℕ → ℕ → Bool
any test zero i = false
any test (suc rounds) i = test i || any test rounds (i + 1)

any-none :
    (test : ℕ → Bool) (rounds i : ℕ)
    → ((k : ℕ) → i ≤ k → k < i + rounds → test k ≡ false)
    → any test rounds i ≡ false
unfolding any
any-none test zero i h = refl
any-none test (suc rounds) i h =
    rw (h i (omega arith) (omega arith))
      (any-none test rounds (i + 1) (λ k p q. h k (omega arith) (omega arith)))

-- One index alone can pass.
any-only :
    (test : ℕ → Bool) (rounds i only : ℕ)
    → i ≤ only
    → only < i + rounds
    → ((k : ℕ) → i ≤ k → k < i + rounds → k ≢ only → test k ≡ false)
    → any test rounds i ≡ test only
unfolding any
any-only test zero i only p q h = absurd (omega arith)
any-only test (suc rounds) i only p q h = elim (eq-cases i only) [
  | inl here ↦
      ap (λ (k : ℕ). test k || any test rounds (i + 1)) here
      ∙ or_none (test only) _ (
          any-none test rounds (i + 1)
            (λ k m n. h k (omega arith) (omega arith) (λ e. omega arith)))
  | inr further ↦ rw (h i (omega arith) (omega arith) further) (
      any-only test rounds (i + 1) only (omega arith) (omega arith)
        (λ k m n e. h k (omega arith) (omega arith) e))
]
  where
    or_none : (a b : Bool) → b ≡ false → (a || b) ≡ a
    or_none a b e = ground arith

bitr_from-bit :
    (src rounds i dst j : ℕ)
    → bit (bitr_from src rounds i dst) j
      ≡ (bit dst j || any (λ k. bit src k && (j == 31 - k)) rounds i)
unfolding bitr_from any
bitr_from-bit src zero i dst j = ground arith
bitr_from-bit src (suc rounds) i dst j =
    bitr_from-bit src rounds (i + 1) (place src i (31 - i) dst) j
    ∙ ap (λ b. b || any (λ k. bit src k && (j == 31 - k)) rounds (i + 1))
        (bit-place src i (31 - i) dst j)
    ∙ ground arith

bitr-bit : (src j : ℕ) → j < 32 → bit (bitr src) j ≡ bit src (31 - j)
unfolding bitr
bitr-bit src j h =
    bitr_from-bit src 32 0 0 j
    ∙ ap (λ b. b || any (λ k. bit src k && (j == 31 - k)) 32 0) (bit-zero j)
    ∙ any-only _ 32 0 (31 - j) (omega arith) (omega arith) (λ k p q n. ground arith)
    ∙ ground arith

dealt : ℕ → ℕ → ℕ → Bool
dealt src j k = bit src (2 * k) && (j == k) || bit src (2 * k + 1) && (j == 16 + k)

deal_from-bit :
    (src rounds i dst j : ℕ)
    → bit (deal_from src rounds i dst) j ≡ (bit dst j || any (dealt src j) rounds i)
unfolding deal_from any dealt
deal_from-bit src zero i dst j = ground arith
deal_from-bit src (suc rounds) i dst j =
    deal_from-bit src rounds (i + 1) (place src (2 * i + 1) (16 + i) (place src (2 * i) i dst)) j
    ∙ ap (λ b. b || any (dealt src j) rounds (i + 1))
        (bit-place src (2 * i + 1) (16 + i) (place src (2 * i) i dst) j
          ∙ ap (λ b. b || bit src (2 * i + 1) && (j == 16 + i)) (bit-place src (2 * i) i dst j))
    ∙ ground arith

deal-bit :
    (src j : ℕ)
    → j < 16
    → (bit (deal src) j ≡ bit src (2 * j)) × (bit (deal src) (16 + j) ≡ bit src (2 * j + 1))
unfolding deal dealt
deal-bit src j h = (
  deal_from-bit src 16 0 0 j
      ∙ ap (λ b. b || any (dealt src j) 16 0) (bit-zero j)
      ∙ any-only (dealt src j) 16 0 j (omega arith) (omega arith) (λ k p q n. ground arith)
      ∙ ground arith,
  deal_from-bit src 16 0 0 (16 + j)
      ∙ ap (λ b. b || any (dealt src (16 + j)) 16 0) (bit-zero (16 + j))
      ∙ any-only (dealt src (16 + j)) 16 0 j (omega arith) (omega arith) (λ k p q n. ground arith)
      ∙ ground arith,
)

shuffled : ℕ → ℕ → ℕ → Bool
shuffled src j k = bit src k && (j == 2 * k) || bit src (16 + k) && (j == 2 * k + 1)

shfl_from-bit :
    (src rounds i dst j : ℕ)
    → bit (shfl_from src rounds i dst) j ≡ (bit dst j || any (shuffled src j) rounds i)
unfolding shfl_from any shuffled
shfl_from-bit src zero i dst j = ground arith
shfl_from-bit src (suc rounds) i dst j =
    shfl_from-bit src rounds (i + 1) (place src (16 + i) (2 * i + 1) (place src i (2 * i) dst)) j
    ∙ ap (λ b. b || any (shuffled src j) rounds (i + 1))
        (bit-place src (16 + i) (2 * i + 1) (place src i (2 * i) dst) j
          ∙ ap (λ b. b || bit src (16 + i) && (j == 2 * i + 1)) (bit-place src i (2 * i) dst j))
    ∙ ground arith

shfl-bit :
    (src j : ℕ)
    → j < 16
    → (bit (shfl src) (2 * j) ≡ bit src j) × (bit (shfl src) (2 * j + 1) ≡ bit src (16 + j))
unfolding shfl shuffled
shfl-bit src j h = (
  shfl_from-bit src 16 0 0 (2 * j)
      ∙ ap (λ b. b || any (shuffled src (2 * j)) 16 0) (bit-zero (2 * j))
      ∙ any-only (shuffled src (2 * j)) 16 0 j (omega arith) (omega arith) (λ k p q n. ground arith)
      ∙ ground arith,
  shfl_from-bit src 16 0 0 (2 * j + 1)
      ∙ ap (λ b. b || any (shuffled src (2 * j + 1)) 16 0) (bit-zero (2 * j + 1))
      ∙ any-only (shuffled src (2 * j + 1)) 16 0 j (omega arith) (omega arith)
          (λ k p q n. ground arith)
      ∙ ground arith,
)

place-IsWord : (word from to dst : ℕ) → IsWord dst → to < 32 → IsWord (place word from to dst)
unfolding place
place-IsWord word from to dst w h =
    or-IsWord dst (bit_at word from * 2 ^ to) w (shifted (bit_at word from) (bit_at-lt word from))
  where
    shifted : (b : ℕ) → b < 2 → IsWord (b * 2 ^ to)
    shifted zero p = omega arith
    shifted (suc zero) p = omega (arith, pow-IsWord to h)
    shifted (suc (suc b)) p = absurd (omega arith)

deal_from-IsWord :
    (src rounds i dst : ℕ) → IsWord dst → i + rounds ≤ 16 → IsWord (deal_from src rounds i dst)
unfolding deal_from
deal_from-IsWord src zero i dst w h = w
deal_from-IsWord src (suc rounds) i dst w h =
    deal_from-IsWord src rounds (i + 1) _
      (place-IsWord src _ _ _ (place-IsWord src _ _ dst w (omega arith)) (omega arith))
      (omega arith)

shfl_from-IsWord :
    (src rounds i dst : ℕ) → IsWord dst → i + rounds ≤ 16 → IsWord (shfl_from src rounds i dst)
unfolding shfl_from
shfl_from-IsWord src zero i dst w h = w
shfl_from-IsWord src (suc rounds) i dst w h =
    shfl_from-IsWord src rounds (i + 1) _
      (place-IsWord src _ _ _ (place-IsWord src _ _ dst w (omega arith)) (omega arith))
      (omega arith)

bitr_from-IsWord :
    (src rounds i dst : ℕ) → IsWord dst → i + rounds ≤ 32 → IsWord (bitr_from src rounds i dst)
unfolding bitr_from
bitr_from-IsWord src zero i dst w h = w
bitr_from-IsWord src (suc rounds) i dst w h =
    bitr_from-IsWord src rounds (i + 1) _ (place-IsWord src _ _ dst w (omega arith)) (omega arith)

deal-IsWord : (y : ℕ) → IsWord (deal y)
unfolding deal
deal-IsWord y = deal_from-IsWord y 16 0 0 (omega arith) (omega arith)

shfl-IsWord : (y : ℕ) → IsWord (shfl y)
unfolding shfl
shfl-IsWord y = shfl_from-IsWord y 16 0 0 (omega arith) (omega arith)

bitr-IsWord : (y : ℕ) → IsWord (bitr y)
unfolding bitr
bitr-IsWord y = bitr_from-IsWord y 32 0 0 (omega arith) (omega arith)

halved :
    (a b : ℕ)
    → ((m : ℕ) → m < 16 → (bit a (2 * m) ≡ bit b (2 * m)) × (bit a (2 * m + 1) ≡ bit b (2 * m + 1)))
    → (i : ℕ) → i < 32
    → bit a i ≡ bit b i
halved a b h i k = elim (eq-cases (i % 2) 0) [
  | inl even ↦
      subst (λ j. bit a j ≡ bit b j) {x = 2 * (i / 2)} {y = i} (omega arith)
        (h (i / 2) (omega arith)).0
  | inr odd ↦
      subst (λ j. bit a j ≡ bit b j) {x = 2 * (i / 2) + 1} {y = i} (omega arith)
        (h (i / 2) (omega arith)).1
]

split :
    (a b : ℕ)
    → ((m : ℕ) → m < 16 → (bit a m ≡ bit b m) × (bit a (16 + m) ≡ bit b (16 + m)))
    → (i : ℕ) → i < 32
    → bit a i ≡ bit b i
split a b h i k = elim (Bool-cases (ltb i 16)) [
  | inl low ↦ (h i (ground arith)).0
  | inr high ↦
      subst (λ j. bit a j ≡ bit b j) {x = 16 + (i - 16)} {y = i} (ground arith)
        (h (i - 16) (ground arith)).1
]

-- SHFL undoes DEAL and DEAL undoes SHFL, and BITR undoes itself.
pub shuffles_undone :
    (x : ℕ) → IsWord x → (shfl (deal x) ≡ x) × (deal (shfl x) ≡ x) × (bitr (bitr x) ≡ x)
shuffles_undone x w = (
  word_ext (shfl (deal x)) x (shfl-IsWord (deal x)) w (
      halved (shfl (deal x)) x (λ m h. (
        (shfl-bit (deal x) m h).0 ∙ (deal-bit x m h).0,
        (shfl-bit (deal x) m h).1 ∙ (deal-bit x m h).1,
      ))),
  word_ext (deal (shfl x)) x (deal-IsWord (shfl x)) w (
      split (deal (shfl x)) x (λ m h. (
        (deal-bit (shfl x) m h).0 ∙ (shfl-bit x m h).0,
        (deal-bit (shfl x) m h).1 ∙ (shfl-bit x m h).1,
      ))),
  word_ext (bitr (bitr x)) x (bitr-IsWord (bitr x)) w (λ i h.
      bitr-bit (bitr x) i h
      ∙ bitr-bit x (31 - i) (omega arith)
      ∙ ap (bit x) {x = 31 - (31 - i)} {y = i} (omega arith)),
)
