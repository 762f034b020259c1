-- ===== src/Spi/Transfer.antt =====
-- emulator/qemu/cdj_c6747_spi.h and .c: the transfers of port 1 to the converter, counted in half
-- periods of the port's module clock. A word passes from C2T (chip select to the first edge) through SHIFT
-- and T2C (last edge to chip select) into GAP; a second word may wait for the first.
pub mod Split
pub mod Timed
pub mod Deliver
pub mod Valid
use Prim.Native.Nat.{bit_and, bit_or}
use cdj2000_emulator.Prelude.{
  ℕ, zero, suc, ◌+◌, ◌-◌, ◌*◌, ◌/◌, ◌%◌, ◌^◌, ◌==◌, ◌!=◌, ltb, leb, if◌then◌else◌, Bool, true,
  false, not, ◌&&◌, ◌||◌, Option, none, some,
}
use cdj2000_emulator.Prelude.Arrays.{Array, update}
use cdj2000_emulator.Prelude.Word.{has, not32, u32_max}
use cdj2000_emulator.Spi.{Spi, Spis, enable, spi1_base, dat1_write_mask, tx_flag, read}
use cdj2000_emulator.Spi.Registers
use cdj2000_emulator.Spi.Registers.{receive_pulled_up_word}
use cdj2000_emulator.Spi.Dac
use cdj2000_emulator.Spi.Dac.{Wm8740, word_valid}

abbrev pub strict_pins : ℕ
strict_pins = 0xe01

abbrev pub strict_gcr1 : ℕ
strict_gcr1 = 0x01000003

abbrev pub strict_format : ℕ
strict_format = 0x00021810

abbrev pub strict_delay : ℕ
strict_delay = 0x02020408

-- `SPI_TRANSFER_*`
abbrev pub idle : ℕ
idle = 0

abbrev pub c2t : ℕ
c2t = 1

abbrev pub shift : ℕ
shift = 2

abbrev pub t2c : ℕ
t2c = 3

abbrev pub gap : ℕ
gap = 4

-- `CdjC6747SpiTransfer`
pub record Transfer : Type 0 where
  pub clock_phase : ℕ
  pub half_ticks_remaining : ℕ
  pub active_control : ℕ
  pub active_format : ℕ
  pub active_delay : ℕ
  pub queued_control : ℕ
  pub queued_format : ℕ
  pub queued_delay : ℕ
  pub phase : ℕ
  pub queued_valid : ℕ
  pub tx_full : ℕ
  pub previous_cshold : ℕ
  pub fault : ℕ
  pub reserved : Array ℕ

-- `cdj_c6747_spi_transfer_reset`, and `discard_transfer`, which keeps the clock's phase.
pub cleared : ℕ → Transfer
cleared clock_phase = record {
  clock_phase = clock_phase;
  half_ticks_remaining = 0;
  active_control = 0;
  active_format = 0;
  active_delay = 0;
  queued_control = 0;
  queued_format = 0;
  queued_delay = 0;
  phase = idle;
  queued_valid = 0;
  tx_full = 0;
  previous_cshold = 0;
  fault = 0;
  reserved = λ i. 0;
}

pub transfer_reset : Transfer
unfolding cleared
transfer_reset = cleared 0

pub discard_transfer : Transfer → Transfer
unfolding cleared
discard_transfer t = cleared t.clock_phase

pub transfer_active : Transfer → Bool
transfer_active t = t.phase != idle || t.queued_valid != 0 || t.tx_full != 0

pub transfer_word_valid : ℕ → ℕ → ℕ → Bool
unfolding word_valid
transfer_word_valid control format delay =
    word_valid control && format == strict_format && delay == strict_delay

-- `a == b` of two Booleans.
abbrev pub same : Bool → Bool → Bool
same true b = b
same false b = not b

-- `cdj_c6747_spi_transfer_valid`
pub transfer_valid : Transfer → Bool
unfolding transfer_word_valid
transfer_valid t =
    let active = t.phase != idle in
    let shifting_word = leb c2t t.phase && leb t.phase t2c in
    leb t.phase gap
    && leb t.queued_valid 1
    && leb t.tx_full 1
    && leb t.previous_cshold 1
    && leb t.fault 1
    && t.reserved 0 == 0
    && t.reserved 1 == 0
    && t.reserved 2 == 0
    && same active (t.half_ticks_remaining != 0)
    && same shifting_word (transfer_word_valid t.active_control t.active_format t.active_delay)
    && (shifting_word || (t.active_control == 0 && t.active_format == 0 && t.active_delay == 0))
    && same (t.queued_valid != 0)
        (transfer_word_valid t.queued_control t.queued_format t.queued_delay)
    && (t.queued_valid != 0
        || (t.queued_control == 0 && t.queued_format == 0 && t.queued_delay == 0 && t.tx_full == 0))
    && (t.queued_valid == 0 || active)
    && (t.tx_full == 0 || ltb t.phase t2c)

pub shift_half_ticks : ℕ → ℕ
shift_half_ticks format =
    let bits = bit_and format 0x1f in
    let prescale = bit_and (format / 2 ^ 8) 0xff in
    (2 * bits + 2 ^ 32 - 1) % 2 ^ 32 * (prescale + 1) % 2 ^ 32

pub c2t_half_ticks : ℕ → ℕ
c2t_half_ticks delay = let n = delay / 2 ^ 24 in if n == 0 then 0 else 2 * (n + 2)

pub t2c_half_ticks : ℕ → ℕ → ℕ
t2c_half_ticks format delay =
    let n = bit_and (delay / 2 ^ 16) 0xff in
    let prescale = bit_and (format / 2 ^ 8) 0xff in
    (if n == 0 then 0 else 2 * (n + 1)) + prescale + 1

pub start_transfer : Transfer → ℕ → ℕ → ℕ → Transfer
unfolding c2t_half_ticks shift_half_ticks
start_transfer t control format delay =
    let wait = c2t_half_ticks delay in
    record t {
      active_control = control;
      active_format = format;
      active_delay = delay;
      phase = if wait == 0 then shift else c2t;
      half_ticks_remaining = if wait == 0 then shift_half_ticks format else wait;
    }

-- What a round changes: port 1, the converter and the transfer.
pub record Line : Type 0 where
  pub spi : Spi
  pub dac : Wm8740
  pub transfer : Transfer

abbrev pub raise_tx : Spi → Spi
raise_tx s = record s { flags = bit_or s.flags tx_flag }

-- The four ends of a phase, each the code after `half_ticks_remaining = 0`.
pub finish_c2t : Line → Line
unfolding shift_half_ticks
finish_c2t l = record l {
  transfer = record l.transfer {
    phase = shift;
    half_ticks_remaining = shift_half_ticks l.transfer.active_format;
  };
}

pub finish_shift : Line → Line
unfolding t2c_half_ticks
finish_shift l =
    let t = l.transfer in
    let received = receive_pulled_up_word l.spi in
    record l {
      spi = if t.queued_valid != 0 then raise_tx received else received;
      transfer = record t {
        tx_full = if t.queued_valid != 0 then 0 else t.tx_full;
        phase = t2c;
        half_ticks_remaining = t2c_half_ticks t.active_format t.active_delay;
      };
    }

-- `finish_chip_select` and its caller: the converter latches the word, or the transfer is at fault.
pub finish_chip_select : Line → Bool × Line
finish_chip_select l =
    let t = l.transfer in
    let (taken, dac') = Dac.write l.dac t.active_control true in
    if not taken
    then (false, record l { transfer = record t { fault = 1; half_ticks_remaining = 0 } })
    else (
      true,
      record l {
        spi = if t.queued_valid == 0 then raise_tx l.spi else l.spi;
        dac = dac';
        transfer = record t {
          previous_cshold = bit_and (t.active_control / 2 ^ 28) 1;
          active_control = 0;
          active_format = 0;
          active_delay = 0;
          phase = gap;
          half_ticks_remaining = 4;
        };
      },
    )

-- The transfer whose waiting word is taken away.
abbrev pub emptied : Transfer → Transfer
emptied t = record t {
  queued_control = 0;
  queued_format = 0;
  queued_delay = 0;
  queued_valid = 0;
  tx_full = 0;
}

pub finish_gap : Line → Line
unfolding start_transfer
finish_gap l =
    let t = l.transfer in
    if t.queued_valid != 0
    then record l {
      spi = raise_tx l.spi;
      transfer = start_transfer (emptied t) t.queued_control t.queued_format t.queued_delay;
    }
    else record l { transfer = record t { phase = idle; half_ticks_remaining = 0 } }

-- The end of the phase that the transfer is in; false where the code sets `fault`.
pub phase_end : Line → Bool × Line
unfolding finish_c2t finish_shift finish_chip_select finish_gap
phase_end l =
    let t = l.transfer in
    if t.phase == c2t
    then (true, finish_c2t l)
    else if t.phase == shift
    then (true, finish_shift l)
    else if t.phase == t2c
    then finish_chip_select l
    else if t.phase == gap
    then (true, finish_gap l)
    else (false, record l { transfer = record t { fault = 1; half_ticks_remaining = 0 } })

-- The loop of `cdj_c6747_spi_wm8740_advance`, on fuel: `none` where it runs out.
pub rounds : ℕ → ℕ → Line → Option (Bool × Line)
unfolding phase_end
rounds zero ticks l = none
rounds (suc fuel) ticks l =
    let t = l.transfer in
    let (going, l') = phase_end l in
    let rest = rounds fuel (ticks - t.half_ticks_remaining) l' in
    if ticks == 0 || t.phase == idle
    then some (true, l)
    else if ltb ticks t.half_ticks_remaining
    then some (
      true,
      record l { transfer = record t { half_ticks_remaining = t.half_ticks_remaining - ticks } },
    )
    else if not going
    then some (false, l')
    else rest

-- `cdj_c6747_spi_wm8740_advance`. Each round of a valid transfer spends a half tick or more, so that
-- one more than their number is fuel enough.
pub advance : Line → ℕ → Option (Bool × Line)
unfolding transfer_valid rounds
advance l ticks =
    if not (Dac.valid l.dac) || not (transfer_valid l.transfer) || l.transfer.fault != 0
    then some (false, record l { transfer = record l.transfer { fault = 1 } })
    else rounds (ticks + 1) ticks l
