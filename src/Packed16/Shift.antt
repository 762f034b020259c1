-- ===== src/Packed16/Shift.antt =====
-- SSHVL and SSHVR: the shift of a word by a signed count, which saturates.
use cdj2000_emulator.Prelude.{
  ℕ, ◌+◌, ◌^◌, ◌<◌, if◌then◌else◌, Bool, true, false, ◌||◌, ◌≡◌, arith, sym, ltb, ap, ◌∙◌,
}
use mathlib.Core.Path.{subst}
use cdj2000_emulator.Prelude.Cases.{if_keeps}
use native.Mathlib.Nat.{div-le_self}
use cdj2000_emulator.Prelude.Integers.{
  ℤ, pos, negsuc, negate, ltℤ, signed, to_word, times, clamp, shift_down, Fits,
}
use cdj2000_emulator.Packed16.{asr, shift_by, sshv, Packed16Sat}
use cdj2000_emulator.Packed16.Lanes.{shifted}

abbrev pub saturate_word : ℤ → ℤ
saturate_word = clamp (negsuc 0x7fffffff) (pos 0x7fffffff)

-- Whether 32 bits cannot hold an integer.
abbrev pub overflows : ℤ → Bool
overflows z = ltℤ (pos 0x7fffffff) z || ltℤ z (negsuc 0x7fffffff)

-- The shift without bounds.
abbrev pub exact : ℤ → ℤ → ℤ
exact x (pos n) = times x (2 ^ n)
exact x (negsuc n) = shift_down x (n + 1)

-- A result that holds the integer nearest to `z`, and says whether that is another one.
record Holds (r : Packed16Sat) (z : ℤ) : Type 0 where
  value : signed 32 r.value ≡ saturate_word z
  saturated : r.saturated ≡ overflows z

limited :
    (count : ℤ)
    → (let top = if ltℤ (pos 31) count then pos 31 else count in
        if ltℤ top (negsuc 30) then negsuc 30 else top)
      ≡ clamp (negsuc 30) (pos 31) count
limited (pos n) = ground arith
limited (negsuc n) = ground arith

saturating :
    (z : ℤ)
    → Holds
        (if ltℤ (pos 0x7fffffff) z
          then record { value = 0x7fffffff; saturated = true }
          else if ltℤ z (negsuc 0x7fffffff)
          then record { value = 0x80000000; saturated = true }
          else record { value = to_word 32 z; saturated = false })
        z
saturating (pos n) =
    if_keeps (λ r. Holds r (pos n)) (ltb 0x7fffffff n)
      (λ big. record { value = ground (arith, big); saturated = ground (arith, big) })
      (λ small. record { value = ground (arith, small); saturated = ground (arith, small) })
saturating (negsuc n) =
    if_keeps (λ r. Holds r (negsuc n)) (ltb 0x7fffffff n)
      (λ big. record { value = ground (arith, big); saturated = ground (arith, big) })
      (λ small. record { value = ground (arith, small); saturated = ground (arith, small) })

held : (z : ℤ) → Fits 32 z → Holds (record { value = to_word 32 z; saturated = false }) z
held (pos n) h = record { value = ground arith; saturated = ground arith }
held (negsuc n) h = record { value = ground arith; saturated = ground arith }

shift_down-Fits : (x : ℤ) (k : ℕ) → Fits 32 x → Fits 32 (shift_down x k)
shift_down-Fits (pos n) k h = omega (arith, div-le_self n (2 ^ k))
shift_down-Fits (negsuc n) k h = omega (arith, div-le_self n (2 ^ k))

right_Holds :
    (x : ℤ) (k : ℕ)
    → Fits 32 x
    → Holds (record { value = asr x k; saturated = false }) (shift_down x k)
right_Holds x k h =
    let f = held (shift_down x k) (shift_down-Fits x k h) in
    record { value = ap (signed 32) (shifted x k h) ∙ f.value; saturated = f.saturated }

word-Fits : (a : ℕ) → a < 2 ^ 32 → Fits 32 (signed 32 a)
word-Fits a h = ground arith

shift_by-Holds :
    (a : ℕ) (count : ℤ) → a < 2 ^ 32 → Holds (shift_by a count) (exact (signed 32 a) count)
unfolding shift_by
shift_by-Holds a (pos n) h = saturating (times (signed 32 a) (2 ^ n))
shift_by-Holds a (negsuc n) h = right_Holds (signed 32 a) (n + 1) (word-Fits a h)

-- SSHVL shifts a word left by a count, limited to -31 to 31, and SSHVR right by it; a negative count
-- shifts the other way. The result is the exact one, rounded down, or the nearest that a word holds,
-- and then it reports that it saturated.
pub sshv_lem :
    (a b : ℕ) (right : Bool)
    → a < 2 ^ 32
    → let count = if right then negate (signed 32 b) else signed 32 b in
      let shifted = exact (signed 32 a) (clamp (negsuc 30) (pos 31) count) in
      (signed 32 (sshv a b right).value ≡ saturate_word shifted)
      × ((sshv a b right).saturated ≡ overflows shifted)
unfolding sshv
sshv_lem a b right h =
    let count = if right then negate (signed 32 b) else signed 32 b in
    let f =
      subst (λ z. Holds (shift_by a z) (exact (signed 32 a) (clamp (negsuc 30) (pos 31) count)))
        (sym (limited count)) (shift_by-Holds a (clamp (negsuc 30) (pos 31) count) h) in
    (f.value, f.saturated)
