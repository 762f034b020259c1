-- ===== src/Phy/Registers.antt =====
-- emulator/qemu/cdj_rtl8201fl.c: the registers of the PHY.
use Prim.Native.Nat.{bit_and, bit_or, bit_xor}
use cdj2000_emulator.Prelude.{
  ℕ, ◌==◌, ◌!=◌, if◌then◌else◌, true, false, not, ◌&&◌, ◌||◌, Option, none, some,
}
use cdj2000_emulator.Prelude.Word.{has, not32}
use cdj2000_emulator.Phy.{Phy, negotiate, down, arm, reset_ns, advertises}

-- BMSR, whose link bit holds a loss until it is read, but for the CP.
pub bmsr : Phy → ℕ
bmsr s =
    bit_or (bit_or 0x7849 (if s.link then 0x20 else 0))
      (if s.link && (s.cp || not s.latch_low) then 4 else 0)

unfoldable pub read_basic : Phy → ℕ → Option (ℕ × Phy)
unfolding bmsr
read_basic s reg =
    if reg == 0
    then some (s.bmcr, s)
    else if reg == 1
    then some (bmsr s, record s { latch_low = false })
    else if reg == 2
    then some (if s.cp then 0 else 0x001c, s)
    else if reg == 3
    then some (if s.cp then 0x8201 else 0xc816, s)
    else if reg == 4
    then some (s.anar, s)
    else if reg == 5
    then some (s.anlpar, s)
    else if reg == 6
    then some (s.aner, record s { aner = bit_and s.aner (not32 2) })
    else if reg == 13
    then some (0, s)
    else if reg == 14 && not (has s.mmd_control 0x4000)
    then some (s.mmd_address, s)
    else if reg == 14 && s.mmd_control == 0x4007 && s.mmd_address == 0x3c
    then some (s.eee_advert, s)
    else none

unfoldable pub read : Phy → ℕ → Option (ℕ × Phy)
unfolding read_basic
read s reg =
    if reg == 31
    then some (s.page, s)
    else if s.page == 7
    then (if reg == 17
        then some (s.led_config, s)
        else if reg == 19
        then some (s.led_control, s)
        else none)
    else if s.page == 4
    then if reg != 16 then none else some (s.eee_config, s)
    else read_basic s reg

-- A store to BMCR.
unfoldable pub write_bmcr : Phy → ℕ → Option Phy
unfolding down arm negotiate
write_bmcr n value =
    if has value (not32 0xbf00) || has value 0x4000
    then none
    else if has value 0x8000
    then arm
        (record (down n) {
          bmcr = 0xb100;
          reset_pending = true;
          synchronized = false;
          preamble = 0;
        })
        reset_ns
    else if not (has value 0x1000) || n.reset_pending
    then none
    else if has value 0x0200 || has (bit_xor n.bmcr value) 0x0c00
    then negotiate (record n { bmcr = value })
    else some (record n { bmcr = value })

unfoldable pub write_mmd : Phy → ℕ → Option Phy
write_mmd n value =
    if n.mmd_control == 7 && value == 0x3c
    then some (record n { mmd_address = value })
    else if n.mmd_control == 0x4007 && n.mmd_address == 0x3c && not (has value (not32 2))
    then some (record n { eee_advert = value })
    else none

unfoldable pub write_basic : Phy → ℕ → ℕ → Option Phy
unfolding advertises write_bmcr write_mmd
write_basic n reg value =
    if reg == 13
    then (if value != 7 && value != 0x4007 then none else some (record n { mmd_control = value }))
    else if reg == 14
    then write_mmd n value
    else if reg == 4
    then (if not (advertises value) || n.reset_pending
        then none
        else some (record n { anar = value }))
    else if reg == 0
    then write_bmcr n value
    else none

unfoldable pub write : Phy → ℕ → ℕ → Option Phy
unfolding write_basic
write n reg value =
    if reg == 31
    then (if value != 0 && value != 4 && value != 7 then none else some (record n { page = value }))
    else if n.page == 7
    then (if reg == 17 && not (has value (not32 0x0033))
        then some (record n { led_config = value })
        else if reg == 19 && not (has value (not32 0x0038))
        then some (record n { led_control = value })
        else none)
    else if n.page == 4
    then (if reg != 16 || has value (not32 0x3300)
        then none
        else some (record n { eee_config = value }))
    else write_basic n reg value
