-- ===== src/Hpi.antt =====
-- emulator/qemu/cdj_c6747_hpi.h and .c: the HPIC register that the host (the MAIN board) and the DSP
-- share, with its two interrupt bits.
pub mod Laws
mod Tests
use Prim.Native.Nat.{bit_and, bit_or}
use cdj2000_emulator.Prelude.{
  ℕ, ◌*◌, ◌/◌, ◌+◌, ◌%◌, ◌^◌, ◌==◌, ◌!=◌, ltb, if◌then◌else◌, Bool, true, false, not, ◌||◌, Option,
  none, some,
}
use cdj2000_emulator.Prelude.Word.{has, not32, u32_max}

-- `CdjC6747Hpi`
pub record Hpi : Type 0 where
  pub hpirst : Bool
  pub hwob : Bool
  pub dual_hpia : Bool
  pub hpiasel : Bool
  pub dspint : Bool
  pub hint : Bool

abbrev pub hpi_base : ℕ
hpi_base = 0x01e10000

abbrev pub hpic : ℕ
hpic = hpi_base + 0x30

-- `flag ? value : 0`
abbrev pub field : Bool → ℕ → ℕ
field flag value = if flag then value else 0

-- `host_value`
pub host_value : Hpi → ℕ
host_value s =
    bit_or
      (bit_or
        (bit_or
          (bit_or (bit_or (bit_or 0x48 (field s.hpirst 0x80)) (field s.hwob 0x101))
            (field s.dual_hpia 0x200))
          (field s.hpiasel 0x800))
        (field s.hint 4))
      (field s.dspint 2)

pub reset : Hpi
reset = record {
  hpirst = true;
  hwob = false;
  dual_hpia = false;
  hpiasel = false;
  dspint = false;
  hint = false;
}

pub rom_boot_ready : Hpi → Hpi
rom_boot_ready s = record s { hpirst = false; hint = true; dspint = false }

pub host_read : Hpi → ℕ
unfolding host_value
host_read s = let v = host_value s in bit_or v (v * 2 ^ 16)

-- The two statements that close both write paths: the reset bit, which clears both interrupts.
abbrev pub set_reset : Bool → Hpi → Hpi
set_reset reset s = record s {
  hpirst = reset;
  hint = if reset then false else s.hint;
  dspint = if reset then false else s.dspint;
}

pub host_write : Hpi → ℕ → Hpi
host_write s value =
    let v = bit_or value (value / 2 ^ 16) % 2 ^ 16 in
    set_reset (has v 0x80) (record s {
      hwob = has v 1;
      dual_hpia = has v 0x200;
      hpiasel = has v 0x800;
      hint = if has v 4 then false else s.hint;
      dspint = if has v 2 then true else s.dspint;
    })

pub cpu_read : Hpi → ℕ → Option ℕ
unfolding host_value
cpu_read s address =
    if address == hpi_base
    then some 0x4421210a
    else if address != hpic
    then none
    else some (bit_and (host_value s) (not32 1))

pub cpu_write : Hpi → ℕ → ℕ → ℕ → Bool → Bool × Hpi
cpu_write s address value size commit =
    if address != hpic || size != 4 || ltb u32_max value
    then (false, s)
    else if not commit
    then (true, s)
    else (
      true,
      set_reset (has value 0x80) (record s {
        dspint = if has value 2 then false else s.dspint;
        hint = if has value 4 then true else s.hint;
      }),
    )
