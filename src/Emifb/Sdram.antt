-- ===== src/Emifb/Sdram.antt =====
-- What `cdj_c6747_emifb_sdram_offset` computes: the aperture wraps round the populated memory.
use Prim.Native.Nat.{bit_and}
use native.Mathlib.Nat.{one-le-pow, mod-lt, mod_self}
use cdj2000_emulator.Prelude.{
  ℕ, ◌+◌, ◌-◌, ◌%◌, ◌^◌, ◌≤◌, ◌<◌, true, some, ◌≡◌, ◌≢◌, arith, ap, ◌∙◌, sym,
}
use cdj2000_emulator.Prelude.Bits.{bit_and-pred, bit_and-mask}
use cdj2000_emulator.Emifb.{Emifb, sdram_enabled, sdram_offset}

-- The mask of a populated size is a remainder.
masked : (p n : ℕ) → p ≢ 0 → bit_and p (p - 1) ≡ 0 → bit_and n (p - 1) ≡ n % p
masked p n z e =
    let (k, power) = bit_and-pred p z e in
    ap (λ q. bit_and n (q - 1)) power ∙ bit_and-mask k n ∙ ap (λ q. n % q) (sym power)

accepted :
    (s : Emifb) (address size populated_size : ℕ) {offset : ℕ}
    → sdram_offset s address size populated_size ≡ some offset
    → (bit_and populated_size (populated_size - 1) ≡ 0)
      × (populated_size ≢ 0)
      × (offset ≡ bit_and (address - 0xc0000000) (populated_size - 1))
      × (size ≤ populated_size - offset)
      × (0 < size)
      × (0xc0000000 ≤ address)
      × (address + size ≤ 0xe0000000)
      × (sdram_enabled s ≡ true)
      × (populated_size ≤ 0x20000000)
unfolding sdram_offset
accepted s address size populated_size h = ground arith

-- A translated transfer lies within the populated memory, at the address's offset in the aperture
-- wrapped round it; it is not empty, lies within the aperture, the controller is on and the populated
-- size is a power of two of half a gigabyte at most.
pub sdram_offset_sound :
    (s : Emifb) (address size populated_size : ℕ) {offset : ℕ}
    → sdram_offset s address size populated_size ≡ some offset
    → (offset ≡ (address - 0xc0000000) % populated_size)
      × (offset + size ≤ populated_size)
      × (0 < size)
      × (0xc0000000 ≤ address)
      × (address + size ≤ 0xe0000000)
      × (sdram_enabled s ≡ true)
      × (populated_size ≤ 0x20000000)
      × ((k : ℕ) × (populated_size ≡ 2 ^ k))
sdram_offset_sound s address size populated_size h =
    let (pow, pos, at, room, some_bytes, low, high, on, small) =
      accepted s address size populated_size h in
    let wrapped = masked populated_size (address - 0xc0000000) pos pow in
    (
      at ∙ wrapped,
      omega (arith, mod-lt (address - 0xc0000000) {m = populated_size} (omega arith)),
      some_bytes,
      low,
      high,
      on,
      small,
      bit_and-pred populated_size pos pow,
    )

power_test : (k : ℕ) → bit_and (2 ^ k) (2 ^ k - 1) ≡ 0
power_test k = bit_and-mask k (2 ^ k) ∙ mod_self (2 ^ k)

-- Every transfer within the aperture that fits the populated memory after the wrap is translated,
-- for each populated power of two up to half a gigabyte, while the controller is on.
sdram_offset_complete :
    (s : Emifb) (address size k : ℕ)
    → sdram_enabled s ≡ true
    → 0 < size
    → 2 ^ k ≤ 0x20000000
    → 0xc0000000 ≤ address
    → address + size ≤ 0xe0000000
    → (address - 0xc0000000) % 2 ^ k + size ≤ 2 ^ k
    → sdram_offset s address size (2 ^ k) ≡ some ((address - 0xc0000000) % 2 ^ k)
unfolding sdram_offset
sdram_offset_complete s address size k on p q r t f =
    ground
      (arith, power_test k, one-le-pow k 2 (omega arith), bit_and-mask k (address - 0xc0000000))
