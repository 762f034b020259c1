-- ===== src/Syscfg.antt =====
-- emulator/qemu/cdj_c6747_syscfg.h and .c: pin multiplexing and chip configuration behind the KICK
-- keys. The master priorities, a state of their own that shares the keys, are in Syscfg/Priority.
pub mod Keys
pub mod Priority
mod Tests
use Prim.Native.Nat.{bit_and, bit_or}
use cdj2000_emulator.Prelude.{
  ℕ, ◌+◌, ◌-◌, ◌*◌, ◌/◌, ◌%◌, ◌^◌, ◌==◌, ◌!=◌, ltb, leb, if◌then◌else◌, Bool, true, false, not,
  ◌&&◌, ◌||◌, Option, none, some,
}
use cdj2000_emulator.Prelude.Arrays.{Array, update}
use cdj2000_emulator.Prelude.Word.{has, not32, u32, u32_max}

-- `CdjC6747Syscfg`
pub record Syscfg : Type 0 where
  pub kick : Array ℕ
  pub pinmux : Array ℕ
  pub cfgchip : Array ℕ
  pub amute_clear_pulses : ℕ
  pub unlocked : Bool

abbrev pub kick0 : ℕ
kick0 = 0x01c14038

abbrev pub kick1 : ℕ
kick1 = 0x01c1403c

abbrev pub pinmux0 : ℕ
pinmux0 = 0x01c14120

abbrev pub cfgchip0 : ℕ
cfgchip0 = 0x01c1417c

abbrev pub key0 : ℕ
key0 = 0x83e70b13

abbrev pub key1 : ℕ
key1 = 0x95a4f1e0

pub pinmux_address : ℕ → Bool
pinmux_address address =
    leb pinmux0 address && leb address (pinmux0 + 19 * 4) && not (has address 3)

-- The guard of CFGCHIP0 to CFGCHIP4.
pub cfgchip_address : ℕ → Bool
cfgchip_address address = leb cfgchip0 address && leb address (cfgchip0 + 16) && not (has address 3)

pub reset : Syscfg
reset = record {
  kick = λ i. 0;
  pinmux = λ i. 0;
  cfgchip = λ i. if i == 2 then 0xef00 else if i == 3 then 0xff00 else 0;
  amute_clear_pulses = 0;
  unlocked = false;
}

pub read : Syscfg → ℕ → Option ℕ
read s address =
    if pinmux_address address
    then some (s.pinmux ((address - pinmux0) / 4))
    else if cfgchip_address address
    then (let index = (address - cfgchip0) / 4 in some (if index == 4 then 0 else s.cfgchip index))
    else if address != kick0 && address != kick1
    then none
    else some (s.kick ((address - kick0) / 4))

-- The refusals of a CFGCHIP write.
pub cfgchip_refused : ℕ → ℕ → Bool
cfgchip_refused index v =
    (index == 0 && (has v (not32 0x1f) || bit_and v 3 == 3 || bit_and (v / 2 ^ 2) 3 == 3))
    || (index == 1
        && (has v 0x6000
            || ltb 8 (bit_and v 15)
            || ltb 8 (bit_and (v / 2 ^ 4) 15)
            || ltb 8 (bit_and (v / 2 ^ 8) 15)
            || ltb 0x12 (bit_and (v / 2 ^ 17) 31)
            || ltb 0x12 (bit_and (v / 2 ^ 22) 31)
            || ltb 0x12 (bit_and (v / 2 ^ 27) 31)))
    || (index == 2 && (has v 0xfffc0000 || ltb 9 (bit_and v 15)))
    || ((index == 3 || index == 4) && (has v (not32 0xff07) || bit_and v 0xff00 != 0xff00))

pub store_cfgchip : Syscfg → ℕ → ℕ → Syscfg
store_cfgchip s index v =
    if ltb index 4
    then record s { cfgchip = update s.cfgchip index (if index == 2 then bit_and v 0xffff else v) }
    else record s { amute_clear_pulses = bit_or s.amute_clear_pulses (bit_and v 7) }

-- A committed write to KICK0 or KICK1.
pub store_kick : Syscfg → ℕ → ℕ → Syscfg
store_kick s index v =
    let kick = update s.kick index v in
    record s {
      kick = kick;
      unlocked =
          if v != (if index != 0 then key1 else key0)
          then false
          else if index != 0 && kick 0 == key0
          then true
          else s.unlocked;
    }

unfoldable pub write : Syscfg → ℕ → ℕ → ℕ → Bool → Bool × Syscfg
write s address value size commit =
    if size == 4 && cfgchip_address address
    then (let index = (address - cfgchip0) / 4 in
        if ltb u32_max value || cfgchip_refused index (u32 value)
        then (false, s)
        else if commit && s.unlocked
        then (true, store_cfgchip s index (u32 value))
        else (true, s))
    else if size == 4 && pinmux_address address
    then (if address == pinmux0 + 19 * 4 && has value 0xfffffff0
        then (false, s)
        else if commit && s.unlocked
        then (true, record s { pinmux = update s.pinmux ((address - pinmux0) / 4) (u32 value) })
        else (true, s))
    else if size != 4 || (address != kick0 && address != kick1)
    then (false, s)
    else if not commit
    then (true, s)
    else (true, store_kick s ((address - kick0) / 4) (u32 value))

pub pll_locked : Syscfg → Bool
pll_locked s = has (s.cfgchip 0) 16
