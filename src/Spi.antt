-- ===== src/Spi.antt =====
-- emulator/qemu/cdj_c6747_spi.h and .c: the registers of the two serial ports, with the receive buffer of
-- two words. The converter on port 1 is in Spi/Dac, its transfers are in Spi/Transfer, and
-- Spi/Clock runs them from the PLL.
pub mod Dac
pub mod Registers
pub mod Transfer
use Prim.Native.Nat.{bit_and, bit_or}
use cdj2000_emulator.Prelude.{
  ℕ, ◌+◌, ◌-◌, ◌*◌, ◌/◌, ◌%◌, ◌^◌, ◌==◌, ◌!=◌, ltb, leb, if◌then◌else◌, Bool, true, false, not,
  ◌&&◌, ◌||◌, Option, none, some,
}
use cdj2000_emulator.Prelude.Arrays.{Array, update}
use cdj2000_emulator.Prelude.Word.{has, not32, u32, u32_max}

abbrev pub spi0_base : ℕ
spi0_base = 0x01c41000

abbrev pub spi1_base : ℕ
spi1_base = 0x01e12000

abbrev pub pin_mask : ℕ
pin_mask = 0xf01

abbrev pub gcr1_write_mask : ℕ
gcr1_write_mask = 0x01010103

abbrev pub interrupt_write_mask : ℕ
interrupt_write_mask = 0x0101035f

abbrev pub level_write_mask : ℕ
level_write_mask = 0x35f

abbrev pub flag_w1c_mask : ℕ
flag_w1c_mask = 0x15f

abbrev pub flag_reset_reserved : ℕ
flag_reset_reserved = 0x01000000

abbrev pub dat1_write_mask : ℕ
dat1_write_mask = 0x1701ffff

abbrev pub format_write_mask : ℕ
format_write_mask = 0x3ff7ff1f

abbrev pub rx_status_mask : ℕ
rx_status_mask = 0x5f000000

abbrev pub rx_overrun_status : ℕ
rx_overrun_status = 2 ^ 30

abbrev pub tx_flag : ℕ
tx_flag = 2 ^ 9

abbrev pub rx_flag : ℕ
rx_flag = 2 ^ 8

abbrev pub overrun_flag : ℕ
overrun_flag = 2 ^ 6

-- The bit of GCR1 that enables the port.
abbrev pub enable : ℕ
enable = 2 ^ 24

-- `CdjC6747Spi`
pub record Spi : Type 0 where
  pub gcr0 : ℕ
  pub gcr1 : ℕ
  pub interrupt_enable : ℕ
  pub interrupt_level : ℕ
  pub flags : ℕ
  pub pin_function : ℕ
  pub pin_direction : ℕ
  pub pin_input : ℕ
  pub pin_input_valid : ℕ
  pub pin_output : ℕ
  pub dat0 : ℕ
  pub dat1 : ℕ
  pub receive_data : ℕ
  pub receive_status : ℕ
  pub delay : ℕ
  pub chip_select_default : ℕ
  pub format : Array ℕ
  pub receive_empty : Bool
  pub receive_buffer_full : Bool
  pub receive_buffer_data : ℕ

-- `spis[CDJ_C6747_SPI_COUNT]`
abbrev pub Spis : Type 0
Spis = Array Spi

-- `decode`, the port and the offset; `none` for a null pointer.
pub decode : ℕ → Option (ℕ × ℕ)
decode address =
    if leb spi0_base address && ltb address (spi0_base + 0x1000)
    then some (0, address - spi0_base)
    else if leb spi1_base address && ltb address (spi1_base + 0x1000)
    then some (1, address - spi1_base)
    else none

-- A port after `memset` to 0, `chip_select_default` and `receive_empty` set, and its pins.
pub initial : ℕ → ℕ → Spi
initial input input_valid = record {
  gcr0 = 0;
  gcr1 = 0;
  interrupt_enable = 0;
  interrupt_level = 0;
  flags = 0;
  pin_function = 0;
  pin_direction = 0;
  pin_input = input;
  pin_input_valid = input_valid;
  pin_output = 0;
  dat0 = 0;
  dat1 = 0;
  receive_data = 0;
  receive_status = 0;
  delay = 0;
  chip_select_default = 0xff;
  format = λ i. 0;
  receive_empty = true;
  receive_buffer_full = false;
  receive_buffer_data = 0;
}

pub reset_one : Spi → Spi
unfolding initial
reset_one s = initial s.pin_input s.pin_input_valid

-- The reset of both ports, from memory that is cleared.
pub reset : Spis
unfolding initial
reset i = initial 0 0

pub set_pins : Spis → ℕ → ℕ → ℕ → Spis
set_pins spis index valid value =
    if leb 2 index
    then spis
    else let driven = bit_and valid pin_mask in
      let s = spis index in
      update spis index (record s {
        pin_input = bit_or (bit_and s.pin_input (not32 driven)) (bit_and value driven);
        pin_input_valid = bit_or s.pin_input_valid driven;
      })

pub read_pins : Spi → Option ℕ
read_pins s =
    if bit_and s.pin_input_valid pin_mask != pin_mask
    then none
    else some (bit_and s.pin_input pin_mask)

pub consume_receive : Spi → Spi
consume_receive s =
    if s.receive_buffer_full
    then record s {
      receive_data = s.receive_buffer_data;
      receive_buffer_full = false;
      receive_empty = false;
      flags = bit_or s.flags rx_flag;
    }
    else record s { receive_empty = true; flags = bit_and s.flags (not32 rx_flag) }

-- `interrupt_vector`, the vector and the port that the read leaves.
pub interrupt_vector : Spi → ℕ × Spi
unfolding consume_receive
interrupt_vector s =
    let pending = bit_and (bit_and s.flags s.interrupt_enable) s.interrupt_level in
    if has pending 0x1f
    then (0x11 * 2, s)
    else if has pending overrun_flag
    then (0x13 * 2, record s { flags = bit_and s.flags (not32 overrun_flag) })
    else if has pending rx_flag
    then (0x12 * 2, consume_receive (record s { flags = bit_and s.flags (not32 rx_flag) }))
    else if has pending tx_flag
    then (0x14 * 2, s)
    else (0, s)

-- SPIBUF: the value, and the port with the word consumed.
pub read_buffer : Spi → ℕ × Spi
unfolding consume_receive
read_buffer s =
    let value =
      bit_or
        (bit_or (if s.receive_empty then 0x80000000 else 0)
          (bit_and s.receive_status rx_status_mask))
        (bit_and s.receive_data 0xffff) in
    let consumed = consume_receive s in
    (value, record consumed { receive_status = bit_and consumed.receive_status rx_overrun_status })

-- The registers whose read has no effect, by offset.
pub read_plain : Spi → ℕ → Option ℕ
unfolding read_pins
read_plain s offset =
    if offset == 0
    then some s.gcr0
    else if offset == 4
    then some s.gcr1
    else if offset == 8
    then some s.interrupt_enable
    else if offset == 0xc
    then some s.interrupt_level
    else if offset == 0x10
    then some (bit_or s.flags flag_reset_reserved)
    else if offset == 0x14
    then some s.pin_function
    else if offset == 0x18
    then some s.pin_direction
    else if offset == 0x1c || offset == 0x24 || offset == 0x28
    then read_pins s
    else if offset == 0x20
    then some s.pin_output
    else if offset == 0x38
    then some s.dat0
    else if offset == 0x3c
    then some s.dat1
    else if offset == 0x44
    then some (bit_and s.receive_data 0xffff)
    else if offset == 0x48
    then some s.delay
    else if offset == 0x4c
    then some s.chip_select_default
    else if offset == 0x50 || offset == 0x54 || offset == 0x58 || offset == 0x5c
    then some (s.format ((offset - 0x50) / 4))
    else none

-- The `switch` of a read; `none` where it returns false.
pub read_one : Spi → ℕ → Option (ℕ × Spi)
unfolding read_plain read_buffer interrupt_vector
read_one s offset =
    if offset == 0x40
    then some (read_buffer s)
    else if offset == 0x64
    then some (interrupt_vector s)
    else elim (read_plain s offset) [ none ↦ none | some value ↦ some (value, s) ]

pub read_at : Spis → ℕ × ℕ → Option (ℕ × Spis)
unfolding read_one
read_at spis (i, offset) = if offset % 4 != 0 then none else elim (read_one (spis i) offset) [
  | none ↦ none
  | some (value, s) ↦ some (value, update spis i s)
]

pub read : Spis → ℕ → Option (ℕ × Spis)
unfolding decode read_at
read spis address = elim (decode address) [ none ↦ none | some place ↦ read_at spis place ]

pub disable : Spi → Spi
disable s = record s {
  dat0 = 0;
  dat1 = bit_and s.dat1 0xffff0000;
  flags = 0;
  receive_data = 0;
  receive_status = 0;
  receive_empty = true;
  receive_buffer_full = false;
  receive_buffer_data = 0;
}
