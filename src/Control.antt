-- ===== src/Control.antt =====
-- emulator/qemu/cdj_c674x_control.c: the CPU's control registers as an instruction reads them.
mod Tests
pub mod Pending
use Prim.Native.Nat.{bit_and, bit_or}
use cdj2000_emulator.Prelude.{
  ℕ, zero, suc, ◌+◌, ◌-◌, ◌*◌, ◌/◌, ◌%◌, ◌^◌, ◌==◌, ◌!=◌, ltb, leb, if◌then◌else◌, Bool, true,
  false, not, ◌&&◌, ◌||◌,
}
use cdj2000_emulator.Prelude.Arrays.{Array}
use cdj2000_emulator.Prelude.Word.{u32}

-- The fields of `CdjC674x` that these functions read.
pub record Cpu : Type 0 where
  pub control : Array ℕ
  pub control_ready : Array ℕ
  pub cycles : ℕ

pub timestamp : Cpu → ℕ
timestamp cpu =
    let origin = cpu.control_ready 16 in
    if origin == 0 || leb cpu.cycles origin then 0 else cpu.cycles - origin

-- The loop of ISTP: the number of the lowest pending interrupt. A word is used up in 32 rounds.
pub lowest_from : ℕ → ℕ → ℕ → ℕ
lowest_from zero pending highest = highest
lowest_from (suc rounds) pending highest =
    let rest = lowest_from rounds (pending / 2) (highest + 1) in
    if pending != 0 && pending % 2 == 0 then rest else highest

-- The interrupts that are raised and enabled.
abbrev pub pending : Cpu → ℕ
pending cpu = bit_and (bit_and (cpu.control 2) (cpu.control 4)) 0xfff2

pub istp : Cpu → ℕ
unfolding lowest_from
istp cpu = bit_or (bit_and (cpu.control 5) 0xfffffc00) (lowest_from 32 (pending cpu) 0 * 2 ^ 5)

pub control_read : Cpu → ℕ → ℕ
unfolding timestamp istp
control_read cpu id =
    let value = cpu.control id in
    if id == 0
    then bit_and value 0x03ffffff
    else if id == 1
    then bit_and value 0xffff03ff
    else if id == 2
    then bit_and value 0xfff2
    else if id == 21
    then bit_and value 0x3f
    else if id == 4
    then bit_or (bit_and value 0xfff2) 1
    else if id == 5
    then istp cpu
    else if id == 6 || id == 7 || id == 13 || id == 14 || id == 22 || id == 23
    then value
    else if id == 24
    then bit_and value 0x070000ff
    else if id == 11
    then cpu.control 16
    else if id == 10
    then u32 (timestamp cpu)
    else if id == 27
    then bit_or (bit_and value 0xc6de) (bit_and (cpu.control 1 / 2) 1)
    else if id == 18 || id == 19 || id == 20
    then bit_and value 0x07ff07ff
    else if id == 26
    then bit_or (bit_and value 0xc6de) (bit_and (cpu.control 1) 1)
    else 0

pub control_read_supported : ℕ → Bool
control_read_supported id =
    id == 0
    || id == 1
    || id == 2
    || id == 4
    || id == 5
    || id == 6
    || id == 7
    || id == 10
    || id == 11
    || id == 13
    || id == 14
    || id == 22
    || id == 23
    || id == 24
    || id == 26
    || id == 27
    || (leb 18 id && leb id 21)

pub control_write_supported : ℕ → Bool
control_write_supported id =
    leb id 7
    || id == 10
    || id == 13
    || id == 14
    || id == 22
    || id == 23
    || id == 24
    || id == 26
    || id == 27
    || (leb 18 id && leb id 21)
