-- ===== src/Pll/Registers.antt =====
-- `cdj_c6747_pll_read` and `cdj_c6747_pll_write`.
pub mod Lock
use Prim.Native.Nat.{bit_and, bit_or, bit_xor}
use cdj2000_emulator.Prelude.{
  ℕ, zero, suc, ◌+◌, ◌-◌, ◌*◌, ◌/◌, ◌%◌, ◌^◌, ◌==◌, ◌!=◌, ltb, leb, if◌then◌else◌, Bool, true,
  false, not, ◌&&◌, ◌||◌, Option, none, some,
}
use cdj2000_emulator.Prelude.Arrays.{Array, update}
use cdj2000_emulator.Prelude.Word.{has, not32, u32_max}
use cdj2000_emulator.Pll.{Pll, divider_index, lock_wait, valid_operating_point}

abbrev pub command_address : ℕ
command_address = 0x01c11138

-- The table `offsets`.
pub offset_of : ℕ → ℕ
offset_of i =
    if i == 0
    then 0x100
    else if i == 1
    then 0x104
    else if ltb i 9
    then 0x110 + 4 * (i - 2)
    else 0x160 + 4 * (i - 9)

-- `index_of`, whose loop runs over the thirteen registers.
pub index_from : ℕ → ℕ → ℕ → Option ℕ
index_from address zero i = none
index_from address (suc rounds) i = elim (address == 0x01c11000 + offset_of i) [
  | true ↦ some i
  | false ↦ index_from address rounds (i + 1)
]

pub index_of : ℕ → Option ℕ
index_of address = index_from address 13 0

pub write_mapped : ℕ → ℕ → Bool
write_mapped address size =
    size == 4
    && (address == command_address || elim (index_of address) [ none ↦ false | some i ↦ true ])

pub read : Pll → ℕ → Option ℕ
read s address =
    if address == command_address
    then some s.command
    else if address == 0x01c1113c
    then some (bit_or 4 (if s.go_remaining != 0 then 1 else 0))
    else elim (index_of address) [ none ↦ none | some i ↦ some (s.config i) ]

-- The registers that may change while the PLL is out of reset.
pub divider : ℕ → Bool
divider i = i == 4 || i == 5 || i == 6 || i == 9 || i == 10 || i == 11 || i == 12

-- The refusals of a value for PLLCTL, which has been given its reserved ones.
pub control_refused : Pll → ℕ → Bool
control_refused s value =
    (has value 1
      && (bit_and value 0x129 != 0x109 || ltb s.reset_age 17 || not (valid_operating_point s)))
    || (has value 8
        && (bit_and value 0x122 != 0x100
            || ltb s.reset_age 17
            || not (valid_operating_point s)
            || (has (s.config 0) 8 && has (bit_xor value (s.config 0)) (not32 1))))

-- The commit of PLLCTL.
pub commit_control : Pll → ℕ → Pll
commit_control s value =
    let released = has value 8 in
    let wait =
      if not released
      then 0
      else if not (has (s.config 0) 8)
      then lock_wait s
      else s.lock_wait_remaining in
    let enable = has value 1 && not (has (s.config 0) 1) in
    record s {
      lock_wait_remaining = wait;
      reset_age =
          if bit_and value 0x122 != 0x100 || (not released && has (s.config 0) 8)
          then 0
          else s.reset_age;
      oscin_phase = if has (bit_xor value (s.config 0)) 1 then 0 else s.oscin_phase;
      early_enable = if enable && wait != 0 then true else s.early_enable;
      config = update s.config 0 value;
      legacy_bit4_used = if not (has value 16) then true else s.legacy_bit4_used;
    }

-- A write to PLLCMD; a GO latches the dividers as targets.
pub write_command : Pll → ℕ → ℕ → Bool → Bool × Pll
write_command s value size commit =
    if size != 4 || ltb 1 value || (value != 0 && s.go_remaining != 0)
    then (false, s)
    else if not commit
    then (true, s)
    else if value == 0
    then (true, record s { command = value })
    else (
      true,
      record s {
        command = value;
        target_dividers = λ d. s.config (divider_index d);
        go_remaining = 8;
      },
    )

-- A write to one of the thirteen registers.
pub write_config : Pll → ℕ → ℕ → Bool → Bool × Pll
write_config s i value commit =
    if s.go_remaining != 0
    then (false, s)
    else if has value (not32 (if i == 0 then 0x1fb else if leb i 2 then 31 else 0x801f))
    then (false, s)
    else if i == 0
    then (let value' = bit_or value 0xc0 in
        if control_refused s value'
        then (false, s)
        else if commit
        then (true, commit_control s value')
        else (true, s))
    else if has (s.config 0) 8 && not (divider i)
    then (false, s)
    else if i == 1 && value != 0x14 && value != 0x1f && (ltb value 0x17 || ltb 0x1d value)
    then (false, s)
    else if commit
    then (true, record s { config = update s.config i value })
    else (true, s)

-- The rest of a write, at the register that the address has.
pub write_at : Pll → ℕ → ℕ → Bool → Option ℕ → Bool × Pll
write_at s value size commit none = (false, s)
write_at s value size commit (some i) =
    if size != 4 || ltb u32_max value then (false, s) else write_config s i value commit

pub write : Pll → ℕ → ℕ → ℕ → Bool → Bool × Pll
write s address value size commit =
    if address == command_address
    then write_command s value size commit
    else write_at s value size commit (index_of address)
