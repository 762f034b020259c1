-- ===== src/Spi/Registers.antt =====
-- emulator/qemu/cdj_c6747_spi.c: the stores to the serial ports' registers, and the converter's words in
-- the mode that collapses their transfer into the store.
pub mod Laws
use Prim.Native.Nat.{bit_and, bit_or}
use cdj2000_emulator.Prelude.{
  ℕ, ◌+◌, ◌-◌, ◌*◌, ◌/◌, ◌%◌, ◌^◌, ◌==◌, ◌!=◌, ltb, leb, if◌then◌else◌, Bool, true, false, not,
  ◌&&◌, ◌||◌, Option, none, some,
}
use cdj2000_emulator.Prelude.Arrays.{Array, update}
use cdj2000_emulator.Prelude.Word.{has, not32, u32, u32_max}
use cdj2000_emulator.Spi.{
  Spi, Spis, enable, pin_mask, gcr1_write_mask, interrupt_write_mask, level_write_mask,
  flag_w1c_mask, dat1_write_mask, format_write_mask, tx_flag, rx_flag, overrun_flag,
  rx_overrun_status, decode, reset_one, consume_receive, disable,
}
use cdj2000_emulator.Spi.Dac.{Wm8740}
use cdj2000_emulator.Spi.Dac

-- The pins that a store to SPIPC3, SPIPC4 or SPIPC5 drives.
pub outputs : Spi → ℕ
outputs s = bit_and (bit_and (not32 s.pin_function) s.pin_direction) pin_mask

pub write_pins : Spi → ℕ → ℕ → Spi
unfolding outputs
write_pins s offset word =
    let out = outputs s in
    let level =
      if offset == 0x20
      then bit_or (bit_and s.pin_output (not32 out)) (bit_and word out)
      else if offset == 0x24
      then bit_or s.pin_output (bit_and word out)
      else bit_and s.pin_output (not32 (bit_and word out)) in
    record s {
      pin_output = level;
      pin_input = bit_or (bit_and s.pin_input (not32 out)) (bit_and level out);
      pin_input_valid = bit_or s.pin_input_valid out;
    }

pub clear_flags : Spi → ℕ → Spi
unfolding consume_receive
clear_flags s word =
    let cleared = record s { flags = bit_and s.flags (not32 (bit_and word flag_w1c_mask)) } in
    if has word (2 ^ 8) then consume_receive cleared else cleared

pub write_gcr1 : Spi → ℕ → Spi
unfolding disable
write_gcr1 s word =
    let s' = record s { gcr1 = bit_and word gcr1_write_mask } in
    if has s'.gcr1 enable then s' else disable s'

pub is_format : ℕ → Bool
is_format offset = offset == 0x50 || offset == 0x54 || offset == 0x58 || offset == 0x5c

-- The stores that the `switch` refuses.
pub refused : Spi → ℕ → ℕ → Bool
unfolding is_format
refused s offset word =
    if offset == 4
    then bit_and word 3 == 1 || bit_and word 3 == 2
    else if offset == 0x38 || offset == 0x3c
    then has s.gcr1 enable
    else not (
        offset == 0
        || offset == 8
        || offset == 0xc
        || offset == 0x10
        || offset == 0x14
        || offset == 0x18
        || offset == 0x20
        || offset == 0x24
        || offset == 0x28
        || offset == 0x48
        || offset == 0x4c
        || is_format offset)

-- The port after a store that is not refused; each register looks at `commit` itself.
pub stored : Spi → ℕ → ℕ → Bool → Spi
unfolding reset_one write_gcr1 clear_flags write_pins
stored s offset word commit =
    if offset == 0
    then if commit then if has word 1 then record s { gcr0 = 1 } else reset_one s else s
    else if offset == 4
    then if commit then write_gcr1 s word else s
    else if offset == 8
    then if commit then record s { interrupt_enable = bit_and word interrupt_write_mask } else s
    else if offset == 0xc
    then if commit then record s { interrupt_level = bit_and word level_write_mask } else s
    else if offset == 0x10
    then if commit then clear_flags s word else s
    else if offset == 0x14
    then if commit then record s { pin_function = bit_and word pin_mask } else s
    else if offset == 0x18
    then if commit then record s { pin_direction = bit_and word pin_mask } else s
    else if offset == 0x20 || offset == 0x24 || offset == 0x28
    then if commit then write_pins s offset word else s
    else if offset == 0x38
    then (if commit then record s { dat0 = 0; flags = bit_and s.flags (not32 tx_flag) } else s)
    else if offset == 0x3c
    then (if commit
        then record s {
          dat1 = bit_and word (bit_and dat1_write_mask 0xffff0000);
          flags = bit_and s.flags (not32 tx_flag);
        }
        else s)
    else if offset == 0x48
    then if commit then record s { delay = word } else s
    else if offset == 0x4c
    then if commit then record s { chip_select_default = bit_and word 0xff } else s
    else if commit
    then record s {
      format = update s.format ((offset - 0x50) / 4) (bit_and word format_write_mask);
    }
    else s

pub write_at : Spis → ℕ × ℕ → ℕ → Bool → Bool × Spis
unfolding refused stored
write_at spis (i, offset) word commit =
    if offset % 4 != 0 || refused (spis i) offset word
    then (false, spis)
    else (true, update spis i (stored (spis i) offset word commit))

-- `cdj_c6747_spis_write`
pub write : Spis → ℕ → ℕ → ℕ → Bool → Bool × Spis
unfolding decode write_at
write spis address value size commit = elim (decode address) [
  | none ↦ (false, spis)
  | some place ↦
      if size != 4 || ltb u32_max value then (false, spis) else write_at spis place value commit
]

-- SOMI is pulled up: a word of ones enters the receive buffer, unless both of its places are taken.
pub receive_pulled_up_word : Spi → Spi
receive_pulled_up_word s =
    if s.receive_empty
    then record s {
      receive_data = 0xffff;
      receive_status = bit_and s.receive_status rx_overrun_status;
      receive_empty = false;
      flags = bit_or s.flags rx_flag;
    }
    else if not s.receive_buffer_full
    then record s { receive_buffer_data = 0xffff; receive_buffer_full = true }
    else record s {
      flags = bit_or s.flags overrun_flag;
      receive_status = bit_or s.receive_status rx_overrun_status;
    }

-- The pins that the converter needs.
abbrev pub wm8740_function_pins : ℕ
wm8740_function_pins = 0x601

-- `cdj_c6747_spis_write_wm8740`: the topology that it needs, by the port, the offset and the word.
pub routed : Spi → ℕ → ℕ → Bool
routed s offset word =
    let control = if offset == 0x3c then word else s.dat1 in
    let format = s.format (bit_and (control / 2 ^ 24) 3) in
    has s.gcr1 enable
    && bit_and s.gcr1 3 == 3
    && not (has s.gcr1 (2 ^ 8))
    && bit_and s.pin_function wm8740_function_pins == wm8740_function_pins
    && not (has control (bit_or (2 ^ 28) (2 ^ 16)))
    && bit_and format 0x1f == 16
    && not (has format (bit_or (bit_or (2 ^ 22) (2 ^ 21)) (2 ^ 20)))

-- The port after the collapsed transfer.
pub transferred : Spi → ℕ → ℕ → Spi
unfolding receive_pulled_up_word
transferred s offset word =
    let loaded =
      if offset == 0x38
      then record s { dat0 = bit_and word 0xffff }
      else record s { dat1 = bit_and word dat1_write_mask } in
    receive_pulled_up_word
      (record loaded { flags = bit_or (bit_and loaded.flags (not32 tx_flag)) tx_flag })

pub functional_at : Spis → Wm8740 → ℕ × ℕ → ℕ → Bool → Bool × Spis × Wm8740
unfolding routed transferred
functional_at spis dac (i, offset) word commit =
    if i != 1 || (offset != 0x38 && offset != 0x3c) || not (routed (spis 1) offset word)
    then (false, spis, dac)
    else let (taken, dac') = Dac.write dac word commit in
      if not taken
      then (false, spis, dac)
      else if commit
      then (true, update spis 1 (transferred (spis 1) offset word), dac')
      else (true, spis, dac)

-- `cdj_c6747_spis_write_wm8740`
pub write_wm8740 : Spis → Wm8740 → ℕ → ℕ → ℕ → Bool → Bool → Bool × Spis × Wm8740
unfolding decode functional_at
write_wm8740 spis dac address value size functional_timing commit = elim (decode address) [
  | none ↦ (false, spis, dac)
  | some place ↦
      if size != 4 || ltb u32_max value || not functional_timing
      then (false, spis, dac)
      else functional_at spis dac place value commit
]
