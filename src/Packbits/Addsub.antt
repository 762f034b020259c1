-- ===== src/Packbits/Addsub.antt =====
-- The instructions that return a sum and a difference in a pair of registers.
use Prim.Native.Nat.{bit_or}
use cdj2000_emulator.Prelude.{
  ℕ, zero, suc, ◌+◌, ◌-◌, ◌*◌, ◌/◌, ◌%◌, ◌^◌, ◌==◌, ◌<◌, if◌then◌else◌, Bool, true, false, ◌||◌,
  ◌≡◌, refl, arith, ap, ◌∙◌,
}
use cdj2000_emulator.Prelude.Cases.{if_keeps}
use cdj2000_emulator.Prelude.Fields.{bit_or-field'}
use cdj2000_emulator.Prelude.Integers.{ℤ, pos, negsuc, ◌+ℤ◌, ◌-ℤ◌, ltℤ, signed, to_word, clamp}
use cdj2000_emulator.Prelude.Word.{u32}

abbrev pub addsub_op : ℕ
addsub_op = 0x0c

abbrev pub addsub2_op : ℕ
addsub2_op = 0x0d

abbrev pub saddsub_op : ℕ
saddsub_op = 0x0e

abbrev pub saddsub2_op : ℕ
saddsub2_op = 0x0f

-- `CdjC674xAddsubResult`: the sum in the high word of `value`, the difference in the low one.
pub record AddsubResult : Type 0 where
  pub value : ℕ
  pub saturated : Bool
  pub valid : Bool

-- `sat32_signed`, with the flag that it may set.
pub sat32_signed : ℤ → Bool → ℤ × Bool
sat32_signed v saturated =
    if ltℤ (pos 0x7fffffff) v
    then (pos 0x7fffffff, true)
    else if ltℤ v (negsuc 0x7fffffff)
    then (negsuc 0x7fffffff, true)
    else (v, saturated)

pub limit16 : ℤ → ℤ
limit16 v =
    if ltℤ (pos 32767) v then pos 32767 else if ltℤ v (negsuc 32767) then negsuc 32767 else v

pub sat16_halves : ℤ → ℤ → ℕ
sat16_halves hi lo = bit_or (to_word 16 (limit16 hi) * 2 ^ 16) (to_word 16 (limit16 lo))

-- The signed halves of a word.
pub upper : ℕ → ℤ
upper word = signed 16 (word / 2 ^ 16 % 2 ^ 16)

pub lower : ℕ → ℤ
lower word = signed 16 (word % 2 ^ 16)

-- Two halves that wrap.
pub halves : ℤ → ℤ → ℕ
halves hi lo = bit_or (to_word 16 hi * 2 ^ 16) (to_word 16 lo)

pub pair : ℕ → ℕ → Bool → AddsubResult
pair add sub saturated = record {
  value = bit_or (add * 2 ^ 32) sub;
  saturated = saturated;
  valid = true;
}

pub addsub : ℕ → ℕ → ℕ → AddsubResult
addsub opfield src1 src2 =
    let h1 = upper src1 in
    let l1 = lower src1 in
    let h2 = upper src2 in
    let l2 = lower src2 in
    if opfield == addsub_op
    then pair (u32 (src1 + src2)) (to_word 32 (pos src1 -ℤ pos src2)) false
    else if opfield == addsub2_op
    then pair (halves (h1 +ℤ h2) (l1 +ℤ l2)) (halves (h1 -ℤ h2) (l1 -ℤ l2)) false
    else if opfield == saddsub_op
    then (let (sum, after_sum) = sat32_signed (signed 32 src1 +ℤ signed 32 src2) false in
        let (less, after_both) = sat32_signed (signed 32 src1 -ℤ signed 32 src2) after_sum in
        pair (to_word 32 sum) (to_word 32 less) after_both)
    else if opfield == saddsub2_op
    then pair (sat16_halves (h1 +ℤ h2) (l1 +ℤ l2)) (sat16_halves (h1 -ℤ h2) (l1 -ℤ l2)) false
    else record { value = 0; saturated = false; valid = false }

abbrev pub saturate : ℤ → ℤ
saturate = clamp (negsuc 0x7fffffff) (pos 0x7fffffff)

abbrev pub overflows : ℤ → Bool
overflows z = ltℤ (pos 0x7fffffff) z || ltℤ z (negsuc 0x7fffffff)

record Saturates (v : ℤ) (before : Bool) (r : ℤ × Bool) : Type 0 where
  nearest : signed 32 (to_word 32 r.0) ≡ saturate v
  flag : r.1 ≡ (overflows v || before)

sat32_signed-Saturates : (v : ℤ) (before : Bool) → Saturates v before (sat32_signed v before)
unfolding sat32_signed
sat32_signed-Saturates (pos n) before =
    if_keeps (Saturates (pos n) before) (ltℤ (pos 0x7fffffff) (pos n))
      (λ big. record { nearest = ground (arith, big); flag = ground (arith, big) })
      (λ small. record { nearest = ground (arith, small); flag = ground (arith, small) })
sat32_signed-Saturates (negsuc n) before =
    if_keeps (Saturates (negsuc n) before) (ltℤ (negsuc n) (negsuc 0x7fffffff))
      (λ big. record { nearest = ground (arith, big); flag = ground (arith, big) })
      (λ small. record { nearest = ground (arith, small); flag = ground (arith, small) })

word-lt : (z : ℤ) → to_word 32 z < 2 ^ 32
word-lt (pos n) = omega arith
word-lt (negsuc n) = omega arith

pair-words :
    (add sub : ℕ) (flag : Bool)
    → sub < 2 ^ 32
    → ((pair add sub flag).value / 2 ^ 32 ≡ add) × ((pair add sub flag).value % 2 ^ 32 ≡ sub)
unfolding pair
pair-words add sub flag h =
    (omega (arith, bit_or-field' 32 add sub h), omega (arith, bit_or-field' 32 add sub h))

or_false : (b : Bool) → (b || false) ≡ b
or_false true = refl
or_false false = refl

wrap_difference :
    (a b : ℕ) → a < 2 ^ 32 → b < 2 ^ 32 → to_word 32 (pos a -ℤ pos b) ≡ (a + 2 ^ 32 - b) % 2 ^ 32
wrap_difference a zero h k = omega arith
wrap_difference a (suc b) h k = ground arith

-- SADDSUB returns the sum and the difference of two signed words, each or the nearest that a word holds,
-- and reports saturation exactly if one of them overflows; ADDSUB wraps both and reports none.
pub addsub_lem :
    (a b : ℕ)
    → a < 2 ^ 32
    → b < 2 ^ 32
    → let exact = addsub saddsub_op a b in
      let wrapped = addsub addsub_op a b in
      (signed 32 (exact.value / 2 ^ 32) ≡ saturate (signed 32 a +ℤ signed 32 b))
      × (signed 32 (exact.value % 2 ^ 32) ≡ saturate (signed 32 a -ℤ signed 32 b))
      × (exact.saturated
          ≡ (overflows (signed 32 a -ℤ signed 32 b) || overflows (signed 32 a +ℤ signed 32 b)))
      × (wrapped.value / 2 ^ 32 ≡ (a + b) % 2 ^ 32)
      × (wrapped.value % 2 ^ 32 ≡ (a + 2 ^ 32 - b) % 2 ^ 32)
      × (wrapped.saturated ≡ false)
unfolding addsub pair
addsub_lem a b h k =
    let sum = sat32_signed-Saturates (signed 32 a +ℤ signed 32 b) false in
    let less = sat32_signed-Saturates (signed 32 a -ℤ signed 32 b) _ in
    let exact = pair-words _ _ false (word-lt _) in
    let wrapped = pair-words _ _ false (word-lt _) in
    (
      ap (signed 32) exact.0 ∙ sum.nearest,
      ap (signed 32) exact.1 ∙ less.nearest,
      less.flag ∙ ap (λ f. overflows (signed 32 a -ℤ signed 32 b) || f) (sum.flag ∙ or_false _),
      wrapped.0,
      wrapped.1 ∙ wrap_difference a b h k,
      refl,
    )
