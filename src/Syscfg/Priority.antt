-- ===== src/Syscfg/Priority.antt =====
-- `CdjC6747SyscfgPriority`: the three bus master priority registers, behind the same keys.
use Prim.Native.Nat.{bit_and}
use cdj2000_emulator.Prelude.{
  ℕ, ◌+◌, ◌-◌, ◌/◌, ◌==◌, ◌!=◌, ltb, if◌then◌else◌, Bool, true, false, not, ◌&&◌, ◌||◌, Option,
  none, some, ◌≡◌, refl, arith,
}
use cdj2000_emulator.Prelude.Arrays.{Array, update}
use cdj2000_emulator.Prelude.Word.{has, not32, u32_max}
use cdj2000_emulator.Syscfg.{Syscfg}

abbrev pub Priority : Type 0
Priority = Array ℕ

abbrev pub mstpri0 : ℕ
mstpri0 = 0x01c14110

abbrev pub mstpri_reset : ℕ → ℕ
mstpri_reset i = if i == 0 then 0x44442222 else if i == 1 then 0x44440000 else 0x54604404

abbrev pub mstpri_writable : ℕ → ℕ
mstpri_writable i = if i == 0 then 0x00007700 else if i == 1 then 0x00007777 else 0x77707707

pub priority_reset : Priority
priority_reset i = mstpri_reset i

-- Whether a word differs from the reset value outside the writable fields.
pub misfit : ℕ → ℕ → Bool
misfit i v =
    bit_and v (not32 (mstpri_writable i)) != bit_and (mstpri_reset i) (not32 (mstpri_writable i))

pub priority_valid : Priority → Bool
priority_valid s = not (misfit 0 (s 0) || misfit 1 (s 1) || misfit 2 (s 2))

abbrev pub unmapped : ℕ → Bool
unmapped address = ltb address mstpri0 || ltb (mstpri0 + 8) address || has (address - mstpri0) 3

pub priority_read : Priority → ℕ → Option ℕ
priority_read s address = if unmapped address then none else some (s ((address - mstpri0) / 4))

unfoldable pub priority_write : Syscfg → Priority → ℕ → ℕ → ℕ → Bool → Bool × Priority
priority_write syscfg s address value size commit =
    if size != 4 || ltb u32_max value || unmapped address
    then (false, s)
    else let index = (address - mstpri0) / 4 in
      if misfit index value
      then (false, s)
      else if commit && syscfg.unlocked
      then (true, update s index value)
      else (true, s)

-- Every write keeps a valid state valid, and leaves it unchanged while the keys are not in.
priority_write-valid :
    (syscfg : Syscfg) (s : Priority) (address value size : ℕ) (commit : Bool)
    → priority_valid s ≡ true
    → (priority_valid (priority_write syscfg s address value size commit).1 ≡ true)
      × ((priority_write syscfg s address value size commit).1
          ≡ (if syscfg.unlocked then (priority_write syscfg s address value size commit).1 else s))
unfolding priority_valid priority_write
priority_write-valid syscfg s address value size commit v = ground arith

pub reset_valid : priority_valid priority_reset ≡ true
unfolding priority_valid priority_reset misfit
reset_valid = refl
