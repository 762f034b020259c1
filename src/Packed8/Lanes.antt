-- ===== src/Packed8/Lanes.antt =====
-- The bytes of what the instructions on four bytes return.

use cdj2000_emulator.Prelude.{
  ℕ, ◌+◌, ◌-◌, ◌*◌, ◌/◌, ◌%◌, ◌^◌, ◌<◌, min, max, ◌==◌, ltb, if◌then◌else◌, Bool, true, false, ◌≡◌,
  refl, arith, ap, ◌∙◌,
}
use mathlib.Core.Path.{subst}
use native.Mathlib.Nat.{mul-le-mul}
use cdj2000_emulator.Prelude.Bits.{bit_and-mask}
use cdj2000_emulator.Prelude.Fields.{bit_or-field}
use cdj2000_emulator.Prelude.Integers.{
  ℤ, pos, negsuc, ltℤ, eqℤ, signed, to_word, times, clamp, Fits, signed_low,
}
use cdj2000_emulator.Packed8.{
  ubyte, sbyte, pack_bytes, add4, sub4, subabs4, saddu4, avgu4, maxu4, minu4, flags, cmpeq4,
  cmpgtu4, products, mpyu4, mpysu4, spack_byte, spacku4,
}

-- The four bytes of a word.
pub record Bytes (word : ℕ) (byte : ℕ → ℕ) : Type 0 where
  pub byte_0 : ubyte word 0 ≡ byte 0
  pub byte_1 : ubyte word 1 ≡ byte 1
  pub byte_2 : ubyte word 2 ≡ byte 2
  pub byte_3 : ubyte word 3 ≡ byte 3

pack_bytes-sum :
    (b : ℕ → ℕ)
    → ((n : ℕ) → b n < 2 ^ 8)
    → pack_bytes b ≡ b 0 + b 1 * 2 ^ 8 + b 2 * 2 ^ 16 + b 3 * 2 ^ 24
unfolding pack_bytes
pack_bytes-sum b h =
    rw
      (
        bit_or-field 8 (b 1) (b 0) (h 0),
        bit_or-field 16 (b 2) (b 0 + b 1 * 2 ^ 8) (omega (arith, h 0, h 1)),
      )
      (bit_or-field 24 (b 3) _ (omega (arith, h 0, h 1, h 2)))

pack_bytes-Bytes :
    (b c : ℕ → ℕ) → ((n : ℕ) → b n < 2 ^ 8) → ((n : ℕ) → b n ≡ c n) → Bytes (pack_bytes b) c
unfolding ubyte
pack_bytes-Bytes b c h e = record {
  byte_0 = omega (arith, pack_bytes-sum b h, h 0, h 1, h 2, h 3) ∙ e 0;
  byte_1 = omega (arith, pack_bytes-sum b h, h 0, h 1, h 2, h 3) ∙ e 1;
  byte_2 = omega (arith, pack_bytes-sum b h, h 0, h 1, h 2, h 3) ∙ e 2;
  byte_3 = omega (arith, pack_bytes-sum b h, h 0, h 1, h 2, h 3) ∙ e 3;
}

ubyte-lt : (word n : ℕ) → ubyte word n < 2 ^ 8
unfolding ubyte
ubyte-lt word n = omega arith

abbrev pub BytesOf : ℕ → ℕ → Type 0
BytesOf a b =
    Bytes (add4 a b) (λ n. (ubyte a n + ubyte b n) % 2 ^ 8)
    × Bytes (sub4 a b) (λ n. (ubyte a n + 2 ^ 8 - ubyte b n) % 2 ^ 8)
    × Bytes (subabs4 a b) (λ n. max (ubyte a n) (ubyte b n) - min (ubyte a n) (ubyte b n))
    × Bytes (saddu4 a b) (λ n. min 255 (ubyte a n + ubyte b n))
    × Bytes (avgu4 a b) (λ n. (ubyte a n + ubyte b n + 1) / 2)
    × Bytes (maxu4 a b) (λ n. max (ubyte a n) (ubyte b n))
    × Bytes (minu4 a b) (λ n. min (ubyte a n) (ubyte b n))

module _ (a b : ℕ) where
  -- ADD4 and SUB4 wrap within each byte, SUBABS4 gives the distance, SADDU4 the sum or 255 if that is
  -- less, AVGU4 the half of the sum and one, MAXU4 and MINU4 the greater and the lesser byte; no byte
  -- disturbs another.
  pub bytes_of : BytesOf a b
  unfolding add4 sub4 subabs4 saddu4 avgu4 maxu4 minu4
  bytes_of = (
    pack_bytes-Bytes _ _ (λ n. omega arith) (λ n. refl),
    pack_bytes-Bytes _ _ (λ n. ground (arith, ubyte-lt a n, ubyte-lt b n))
        (λ n. ground (arith, ubyte-lt a n, ubyte-lt b n)),
    pack_bytes-Bytes _ _ (λ n. ground arith) (λ n. ground (arith, ubyte-lt a n, ubyte-lt b n)),
    pack_bytes-Bytes _ _ (λ n. omega arith) (λ n. ground (arith, ubyte-lt a n, ubyte-lt b n)),
    pack_bytes-Bytes _ _ (λ n. omega arith) (λ n. omega (arith, ubyte-lt a n, ubyte-lt b n)),
    pack_bytes-Bytes _ _ (λ n. ground (arith, ubyte-lt a n, ubyte-lt b n)) (λ n. ground arith),
    pack_bytes-Bytes _ _ (λ n. ground (arith, ubyte-lt a n, ubyte-lt b n)) (λ n. ground arith),
  )

abbrev truth : Bool → ℕ
truth b = if b then 1 else 0

-- A word with a flag for each of four bytes.
abbrev pub mask : (ℕ → Bool) → ℕ
mask test = truth (test 0) + truth (test 1) * 2 + truth (test 2) * 4 + truth (test 3) * 8

flags-mask : (test : ℕ → Bool) → flags test 4 0 0 ≡ mask test
unfolding flags
flags-mask test = ground arith

signed_eq : (x y : ℕ) → x < 2 ^ 8 → y < 2 ^ 8 → eqℤ (signed 8 x) (signed 8 y) ≡ (x == y)
signed_eq x y h k = ground arith

-- The fields of sixteen bits.
abbrev pub field : ℕ → ℕ → ℕ
field word n = word / 2 ^ (n * 16) % 2 ^ 16

products-sum :
    (f : ℕ → ℕ)
    → products f 4 0 0
      ≡ f 0 % 2 ^ 16 + f 1 % 2 ^ 16 * 2 ^ 16 + f 2 % 2 ^ 16 * 2 ^ 32 + f 3 % 2 ^ 16 * 2 ^ 48
unfolding products
products-sum f =
    rw
      (
        bit_and-mask 16 (f 0),
        bit_and-mask 16 (f 1),
        bit_and-mask 16 (f 2),
        bit_and-mask 16 (f 3),
        bit_or-field 0 (f 0 % 2 ^ 16) 0 (omega arith),
        bit_or-field 16 (f 1 % 2 ^ 16) (0 + f 0 % 2 ^ 16 * 2 ^ 0) (omega arith),
        bit_or-field 32 (f 2 % 2 ^ 16) (0 + f 0 % 2 ^ 16 * 2 ^ 0 + f 1 % 2 ^ 16 * 2 ^ 16)
            (omega arith),
      )
      (bit_or-field 48 (f 3 % 2 ^ 16) _ (omega arith) ∙ omega arith)

product-lt : (x y : ℕ) → x < 2 ^ 8 → y < 2 ^ 8 → x * y < 2 ^ 16
product-lt x y h k =
    omega (arith, mul-le-mul {n₁ = x} {m₁ = y} {n₂ = 255} {m₂ = 255} (omega arith) (omega arith))

times-Fits : (z : ℤ) (y : ℕ) → Fits 8 z → y < 2 ^ 8 → Fits 16 (times z y)
times-Fits (pos a) y h k =
    omega (arith, mul-le-mul {n₁ = a} {m₁ = y} {n₂ = 127} {m₂ = 255} (omega arith) (omega arith))
times-Fits (negsuc a) y h k =
    ground
      (arith, mul-le-mul {n₁ = a + 1} {m₁ = y} {n₂ = 128} {m₂ = 255} (omega arith) (omega arith))

byte-Fits : (x : ℕ) → x < 2 ^ 8 → Fits 8 (signed 8 x)
byte-Fits x h = ground arith

-- The four fields of a double word, and the same with a sign.
pub record Fields (word : ℕ) (value : ℕ → ℕ) : Type 0 where
  pub field_0 : field word 0 ≡ value 0
  pub field_1 : field word 1 ≡ value 1
  pub field_2 : field word 2 ≡ value 2
  pub field_3 : field word 3 ≡ value 3

pub record SignedFields (word : ℕ) (value : ℕ → ℤ) : Type 0 where
  pub field_0 : signed 16 (field word 0) ≡ value 0
  pub field_1 : signed 16 (field word 1) ≡ value 1
  pub field_2 : signed 16 (field word 2) ≡ value 2
  pub field_3 : signed 16 (field word 3) ≡ value 3

products-Fields : (f : ℕ → ℕ) → Fields (products f 4 0 0) (λ n. f n % 2 ^ 16)
products-Fields f = record {
  field_0 = omega (arith, products-sum f);
  field_1 = omega (arith, products-sum f);
  field_2 = omega (arith, products-sum f);
  field_3 = omega (arith, products-sum f);
}

-- The value from 0 to 255 nearest to an integer.
abbrev pub saturate_byte : ℤ → ℤ
saturate_byte = clamp (pos 0) (pos 255)

byte_of :
    (z : ℤ)
    → pos (to_word 8 (if ltℤ (pos 255) z then pos 255 else if ltℤ z (pos 0) then pos 0 else z))
      ≡ saturate_byte z
byte_of (pos n) = ground arith
byte_of (negsuc n) = refl

abbrev half : ℕ → Bool → ℤ
half word high = signed 16 ((if high then word / 2 ^ 16 else word) % 2 ^ 16)

spack_byte_lem :
    (word : ℕ) (high : Bool) → pos (spack_byte word high) ≡ saturate_byte (half word high)
unfolding spack_byte
spack_byte_lem word high = byte_of (half word high)

byte-lt : (z : ℤ) → to_word 8 z < 2 ^ 8
byte-lt (pos n) = omega arith
byte-lt (negsuc n) = omega arith

spack_byte-lt : (word : ℕ) (high : Bool) → spack_byte word high < 2 ^ 8
unfolding spack_byte
spack_byte-lt word high = byte-lt _

abbrev pub FieldsOf : ℕ → ℕ → Type 0
FieldsOf a b =
    (cmpeq4 a b ≡ mask (λ n. ubyte a n == ubyte b n))
    × (cmpgtu4 a b ≡ mask (λ n. ltb (ubyte b n) (ubyte a n)))
    × Fields (mpyu4 a b) (λ n. ubyte a n * ubyte b n)
    × SignedFields (mpysu4 a b) (λ n. times (sbyte a n) (ubyte b n))
    × (pos (ubyte (spacku4 a b) 3) ≡ saturate_byte (half a true))
    × (pos (ubyte (spacku4 a b) 2) ≡ saturate_byte (half a false))
    × (pos (ubyte (spacku4 a b) 1) ≡ saturate_byte (half b true))
    × (pos (ubyte (spacku4 a b) 0) ≡ saturate_byte (half b false))

module _ (a b : ℕ) where
  cmpeq4-mask : cmpeq4 a b ≡ mask (λ n. ubyte a n == ubyte b n)
  unfolding cmpeq4 sbyte
  cmpeq4-mask =
      flags-mask _
      ∙ ap mask (λ i n. signed_eq (ubyte a n) (ubyte b n) (ubyte-lt a n) (ubyte-lt b n) i)

  cmpgtu4-mask : cmpgtu4 a b ≡ mask (λ n. ltb (ubyte b n) (ubyte a n))
  unfolding cmpgtu4
  cmpgtu4-mask = flags-mask _

  mpyu4-Fields : Fields (mpyu4 a b) (λ n. ubyte a n * ubyte b n)
  unfolding mpyu4
  mpyu4-Fields =
      subst (Fields (mpyu4 a b))
        (λ i n.
          mod_id (ubyte a n * ubyte b n)
            (product-lt (ubyte a n) (ubyte b n) (ubyte-lt a n) (ubyte-lt b n)) i)
        (products-Fields _)
    where
      mod_id : (m : ℕ) → m < 2 ^ 16 → m % 2 ^ 16 ≡ m
      mod_id m h = omega arith

  sbyte-Fits : (n : ℕ) → Fits 8 (sbyte a n)
  unfolding sbyte
  sbyte-Fits n = byte-Fits (ubyte a n) (ubyte-lt a n)

  spacku4-Bytes : Bytes (spacku4 a b) (λ n.
      if n == 0
      then spack_byte b false
      else if n == 1
      then spack_byte b true
      else if n == 2
      then spack_byte a false
      else spack_byte a true)
  unfolding spacku4
  spacku4-Bytes =
      pack_bytes-Bytes _ _
        (λ n. ground (
          arith,
          spack_byte-lt b false,
          spack_byte-lt b true,
          spack_byte-lt a false,
          spack_byte-lt a true,
        ))
        (λ n. refl)

module _ (a b : ℕ) where
  mpysu4-SignedFields : SignedFields (mpysu4 a b) (λ n. times (sbyte a n) (ubyte b n))
  unfolding mpysu4
  mpysu4-SignedFields =
      let f = products-Fields (λ n. to_word 32 (times (sbyte a n) (ubyte b n))) in
      record {
        field_0 = ap (signed 16) f.field_0 ∙ read 0;
        field_1 = ap (signed 16) f.field_1 ∙ read 1;
        field_2 = ap (signed 16) f.field_2 ∙ read 2;
        field_3 = ap (signed 16) f.field_3 ∙ read 3;
      }
    where
      read :
          (n : ℕ)
          → signed 16 (to_word 32 (times (sbyte a n) (ubyte b n)) % 2 ^ 16)
            ≡ times (sbyte a n) (ubyte b n)
      read n = signed_low _ (times-Fits (sbyte a n) (ubyte b n) (sbyte-Fits a b n) (ubyte-lt b n))

  -- CMPEQ4 and CMPGTU4 compare byte by byte; MPYU4 and MPYSU4 multiply byte by byte, the second reading
  -- the first operand with a sign, and no product is cut off; SPACKU4 gives the value from 0 to 255
  -- nearest to each of four signed halves.
  pub fields_of : FieldsOf a b
  fields_of = (
    cmpeq4-mask a b,
    cmpgtu4-mask a b,
    mpyu4-Fields a b,
    mpysu4-SignedFields,
    ap pos (spacku4-Bytes a b).byte_3 ∙ spack_byte_lem a true,
    ap pos (spacku4-Bytes a b).byte_2 ∙ spack_byte_lem a false,
    ap pos (spacku4-Bytes a b).byte_1 ∙ spack_byte_lem b true,
    ap pos (spacku4-Bytes a b).byte_0 ∙ spack_byte_lem b false,
  )
