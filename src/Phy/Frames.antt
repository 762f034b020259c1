-- ===== src/Phy/Frames.antt =====
-- emulator/qemu/cdj_rtl8201fl.c: the serial frames, a bit for each rising edge of the MAC's clock.
use Prim.Native.Nat.{bit_and, bit_or}
use cdj2000_emulator.Prelude.{
  ℕ, ◌+◌, ◌-◌, ◌*◌, ◌/◌, ◌%◌, ◌^◌, ◌==◌, ◌!=◌, ltb, leb, if◌then◌else◌, Bool, true, false, not,
  ◌&&◌, ◌||◌, Option, none, some,
}
use cdj2000_emulator.Prelude.Word.{has, not32, u32}
use cdj2000_emulator.Phy.{Phy}
use cdj2000_emulator.Phy.Registers.{read, write}

-- A bit outside a frame: idle, the preamble, or the start of a frame.
unfoldable pub idle_bit : Phy → Bool → ℕ → Option Phy
idle_bit s drive bit =
    let released = record s { idle_needed = false } in
    if s.idle_needed && bit == 0
    then none
    else if bit != 0
    then some (
        if ltb released.preamble 32
        then record released { preamble = s.preamble + 1 }
        else released)
    else if not drive || (not s.synchronized && ltb s.preamble 32)
    then none
    else some
        (record released { synchronized = true; frame = true; bits = 1; header = 0; preamble = 0 })

-- A bit of the frame's header.
unfoldable pub header_bit : Phy → Bool → ℕ → Option Phy
header_bit s drive bit =
    let n = record s { header = bit_or (u32 (s.header * 2)) bit; bits = s.bits + 1 } in
    if not drive
    then none
    else if n.bits == 2 && n.header != 1
    then none
    else if n.bits == 4 && bit_and n.header 3 != 1 && bit_and n.header 3 != 2
    then none
    else some n

abbrev pub op : Phy → ℕ
op s = bit_and (s.header / 2 ^ 10) 3

abbrev pub address : Phy → ℕ
address s = bit_and (s.header / 2 ^ 5) 31

abbrev pub target : Phy → ℕ
target s = bit_and s.header 31

-- `++bits`, and the end of the frame.
unfoldable pub next_bit : Phy → Phy
next_bit s =
    let n = record s { bits = s.bits + 1 } in
    if n.bits == 32 then record n { frame = false; idle_needed = true } else n

-- A bit of the data of a write.
unfoldable pub shift_in : Phy → ℕ → Phy
shift_in s bit = if leb 16 s.bits then record s { data' = bit_or (s.data' * 2) bit % 2 ^ 16 } else s

-- A bit of the turnaround or of the data of a write, the last of which stores it.
unfoldable pub write_bit : Phy → Bool → ℕ → Option Phy
unfolding shift_in next_bit
write_bit s drive bit =
    let taken = shift_in s bit in
    if not drive || (s.bits == 14 && bit != 1) || (s.bits == 15 && bit != 0)
    then none
    else if s.bits == 31 && address s == 1
    then elim (write taken (target s) taken.data') [ none ↦ none | some n ↦ some (next_bit n) ]
    else some (next_bit taken)

unfoldable pub clock_bit : Phy → Bool → ℕ → Option Phy
unfolding idle_bit header_bit write_bit next_bit
clock_bit s drive bit =
    if not s.frame
    then idle_bit s drive bit
    else if ltb s.bits 14
    then header_bit s drive bit
    else if op s == 2
    then if drive then none else some (next_bit s)
    else write_bit s drive bit

unfoldable pub falling_edge : Phy → Option Phy
unfolding read
falling_edge s =
    let n = record s { mdi = 1 } in
    if not s.frame || ltb s.bits 14 || op s != 2
    then some n
    else if s.bits == 15
    then (if address s == 1
        then elim (read (record n { mdi = 0; data' = 0xffff }) (target s)) [
          | none ↦ none
          | some (value, m) ↦ some (record m { data' = value })
        ]
        else some (record n { data' = 0xffff }))
    else if leb 16 s.bits
    then some (record n { mdi = bit_and (s.data' / 2 ^ (31 - s.bits)) 1 })
    else some n

-- What an edge of the clock does, if the store has one.
unfoldable pub edge : Phy → ℕ → Option Phy
unfolding clock_bit falling_edge
edge s value =
    if not (has s.pir 1) && has value 1
    then clock_bit s (has value 2) (if has value 2 then if has value 4 then 1 else 0 else 1)
    else if has s.pir 1 && not (has value 1)
    then falling_edge s
    else some s

-- `cdj_rtl8201fl_pir_write`
unfoldable pub pir_write : Phy → ℕ → Option Phy
unfolding edge
pir_write s value =
    if has value (not32 15)
    then none
    else elim (edge s value) [ none ↦ none | some n ↦ some (record n { pir = bit_and value 7 }) ]

unfoldable pub pir_read : Phy → ℕ
pir_read s = bit_or s.pir ((if has s.pir 2 then if has s.pir 4 then 1 else 0 else s.mdi) * 2 ^ 3)
