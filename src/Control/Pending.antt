-- ===== src/Control/Pending.antt =====
-- Which interrupt ISTP names.
use Prim.Native.Nat.{bit_and, bit_or}
use cdj2000_emulator.Prelude.{
  ℕ, zero, suc, ◌+◌, ◌*◌, ◌/◌, ◌%◌, ◌^◌, ◌<◌, true, false, ◌≡◌, ◌≢◌, refl, arith, ◌⊎◌, inl, inr,
  ltb, ◌&&◌, Bool-cases,
}
use native.Mathlib.Nat.{pow-suc}
use cdj2000_emulator.Prelude.Bits.{bit, bit_and-le_right}
use cdj2000_emulator.Control.{Cpu, pending, lowest_from, istp, control_read, control_read_supported}

lowest-offset : (rounds n h : ℕ) → lowest_from rounds n h ≡ lowest_from rounds n 0 + h
unfolding lowest_from
lowest-offset zero n h = omega arith
lowest-offset (suc rounds) n h =
    ground (arith, lowest-offset rounds (n / 2) (h + 1), lowest-offset rounds (n / 2) 1)

-- The lowest bit of a number is one more than that of its half, if it is even.
lowest_even :
    (rounds n : ℕ)
    → n ≢ 0
    → n % 2 ≡ 0
    → lowest_from (suc rounds) n 0 ≡ suc (lowest_from rounds (n / 2) 0)
unfolding lowest_from
lowest_even rounds n p q = ground (arith, lowest-offset rounds (n / 2) 1)

lowest_odd : (rounds n : ℕ) → n % 2 ≡ 1 → lowest_from (suc rounds) n 0 ≡ 0
unfolding lowest_from
lowest_odd rounds n q = ground arith

parity : (n : ℕ) → (n % 2 ≡ 0) ⊎ (n % 2 ≡ 1)
parity n = ground arith

lowest-set : (rounds n : ℕ) → n ≢ 0 → n < 2 ^ rounds → bit n (lowest_from rounds n 0) ≡ true
lowest-set zero n p h = absurd (omega arith)
lowest-set (suc rounds) n p h = elim (parity n) [
  | inl even ↦
      rw (lowest_even rounds n p even)
        (lowest-set rounds (n / 2) (omega arith) (omega (arith, pow-suc 2 rounds)))
  | inr odd ↦ rw (lowest_odd rounds n odd) (ground arith)
]

lowest-clear : (rounds n i : ℕ) → n ≢ 0 → i < lowest_from rounds n 0 → bit n i ≡ false
unfolding lowest_from
lowest-clear zero n i p h = absurd (omega arith)
lowest-clear (suc rounds) n zero p h = elim (parity n) [
  | inl even ↦ ground arith
  | inr odd ↦ absurd (omega (arith, lowest_odd rounds n odd))
]
lowest-clear (suc rounds) n (suc i) p h = elim (parity n) [
  | inl even ↦
      lowest-clear rounds (n / 2) i (omega arith) (omega (arith, h, lowest_even rounds n p even))
  | inr odd ↦ absurd (omega (arith, h, lowest_odd rounds n odd))
]

-- A register that the CPU's reads do not support reads as zero.
pub control_read-unsupported :
    (cpu : Cpu) (id : ℕ) → control_read_supported id ≡ false → control_read cpu id ≡ 0
unfolding control_read control_read_supported
control_read-unsupported cpu id h = ground arith

-- While an enabled interrupt is raised, ISTP reads as its table's base with the number of an
-- interrupt that is enabled and raised, and no one of a lower number is.
pub istp_lem :
    (cpu : Cpu) (i : ℕ)
    → pending cpu ≢ 0
    → let number = lowest_from 32 (pending cpu) 0 in
      (control_read cpu 5 ≡ bit_or (bit_and (cpu.control 5) 0xfffffc00) (number * 2 ^ 5))
      × (bit (pending cpu) number ≡ true)
      × ((ltb i number && bit (pending cpu) i) ≡ false)
unfolding control_read istp
istp_lem cpu i p = (
  refl,
  lowest-set 32 (pending cpu) p (omega (arith, small)),
  elim (Bool-cases (ltb i (lowest_from 32 (pending cpu) 0))) [
    | inl lower ↦ rw (lower, lowest-clear 32 (pending cpu) i p (ground arith)) refl
    | inr other ↦ rw other refl
  ],
)
  where
    small : pending cpu < 2 ^ 16
    small = omega (arith, bit_and-le_right (bit_and (cpu.control 2) (cpu.control 4)) 0xfff2)
