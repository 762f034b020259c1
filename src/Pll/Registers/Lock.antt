-- ===== src/Pll/Registers/Lock.antt =====
-- The PLL is released, and drives the DSP, only at a valid operating point and after its reset time.
use Prim.Native.Nat.{bit_and, bit_or}
use cdj2000_emulator.Prelude.{
  ℕ, Bool, true, false, ◌&&◌, Option, none, some, ◌≡◌, arith, sym, ap, ◌∙◌, not, ◌||◌, leb,
}
use cdj2000_emulator.Prelude.Word.{has}
use cdj2000_emulator.Prelude.Bits.{bit, bit-and, bit_and-pow}
use cdj2000_emulator.Bus.{TwoPhase}
use cdj2000_emulator.Pll.{Pll, valid_operating_point, reset, default_of, tick, tick_age}
use cdj2000_emulator.Pll.Registers.{
  control_refused, commit_control, write_command, divider, write_config, write_at, write, index_of,
}

-- What holds of every state: a released PLL is at a valid operating point and has been in reset for
-- 17 periods, and a PLL that drives the DSP is released.
pub record IsSafe (s : Pll) : Type 0 where
  pub released :
      (not (has (s.config 0) 8) || (valid_operating_point s && leb 17 s.reset_age)) ≡ true
  pub driving : (not (has (s.config 0) 1) || has (s.config 0) 8) ≡ true

pub reset-IsSafe : IsSafe reset
unfolding reset default_of
reset-IsSafe = ground arith

tick-IsSafe : (s : Pll) → IsSafe s → IsSafe (tick s)
unfolding tick tick_age
tick-IsSafe s v = ground arith

driven_mask : (v : ℕ) → bit_and v 0x129 ≡ 0x109 → has v 8 ≡ true
driven_mask v h =
    bit_and-pow 3 v ∙ sym (bit-and 3 v 0x129 ∙ and_true (bit v 3)) ∙ ap (λ n. bit n 3) h
  where
    and_true : (b : Bool) → (b && true) ≡ b
    and_true b = ground arith

commit-IsSafe :
    (s : Pll) (value : ℕ)
    → IsSafe s
    → control_refused s value ≡ false
    → IsSafe (commit_control s value)
unfolding control_refused commit_control
commit-IsSafe s value v h = ground (arith, driven_mask value)

write_config-IsSafe :
    (s : Pll) (i value : ℕ) (commit : Bool) → IsSafe s → IsSafe (write_config s i value commit).1
unfolding write_config divider
write_config-IsSafe s i value commit v = ground (arith, commit-IsSafe s (bit_or value 0xc0) v)

write_command-IsSafe :
    (s : Pll) (value size : ℕ) (commit : Bool)
    → IsSafe s
    → IsSafe (write_command s value size commit).1
unfolding write_command
write_command-IsSafe s value size commit v = ground arith

write_at-IsSafe :
    (s : Pll) (value size : ℕ) (commit : Bool) (found : Option ℕ)
    → IsSafe s
    → IsSafe (write_at s value size commit found).1
unfolding write_at
write_at-IsSafe s value size commit none v = v
write_at-IsSafe s value size commit (some i) v =
    ground (arith, write_config-IsSafe s i value commit v)

-- From a state in which the PLL is released only at a valid operating point and after its reset
-- time, and drives the DSP only if it is released, every store and every tick lead to such a state.
pub operations-IsSafe :
    (s : Pll) (address value size : ℕ) (commit : Bool)
    → IsSafe s
    → IsSafe (write s address value size commit).1 × IsSafe (tick s)
unfolding write
operations-IsSafe s address value size commit v = (
  ground (
    arith,
    write_at-IsSafe s value size commit (index_of address) v,
    write_command-IsSafe s value size commit v,
  ),
  tick-IsSafe s v,
)

pub write-TwoPhase : (s : Pll) (address value size : ℕ) → TwoPhase write s address value size
unfolding write write_command write_config write_at
write-TwoPhase s address value size = ground arith
