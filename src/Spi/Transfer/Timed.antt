-- ===== src/Spi/Transfer/Timed.antt =====
-- emulator/qemu/cdj_c6747_spi.c and cdj_c6747_spi_clock.h: the CPU's side of port 1 while its transfers
-- take time, and the tick of the CPU's clock that moves them.
pub mod Accept
pub mod Collapse
pub mod Clock
mod Tests
pub mod Arrive
use Prim.Native.Nat.{bit_and, bit_or}
use cdj2000_emulator.Prelude.{
  ℕ, ◌+◌, ◌-◌, ◌*◌, ◌/◌, ◌%◌, ◌^◌, ◌==◌, ◌!=◌, ltb, leb, if◌then◌else◌, Bool, true, false, not,
  ◌&&◌, ◌||◌, Option, none, some,
}
use cdj2000_emulator.Prelude.Arrays.{update}
use cdj2000_emulator.Prelude.Word.{has, not32, u32, u32_max}
use cdj2000_emulator.Pll.{Pll}
use cdj2000_emulator.Spi.{Spi, Spis, enable, spi1_base, dat1_write_mask, tx_flag}
use cdj2000_emulator.Spi
use cdj2000_emulator.Spi.Registers
use cdj2000_emulator.Spi.Dac
use cdj2000_emulator.Spi.Dac.{Wm8740, word_valid}
use cdj2000_emulator.Spi.Transfer.{
  Transfer, Line, raise_tx, strict_pins, strict_gcr1, strict_format, strict_delay, t2c, gap,
  transfer_valid, transfer_active, discard_transfer, start_transfer, advance,
}

-- `cdj_c6747_spi_wm8740_timed_mapped`
pub timed_mapped : ℕ → Bool
timed_mapped address = leb spi1_base address && ltb address (spi1_base + 0x1000)

-- `cdj_c6747_spi_wm8740_read_timed`
pub read_timed : Spis → Transfer → ℕ → Option (ℕ × Spis)
unfolding timed_mapped
read_timed spis t address =
    if not (timed_mapped address) || not (transfer_valid t) || t.fault != 0
    then none
    else elim (Spi.read spis address) [
      | none ↦ none
      | some (value, spis') ↦ some (
        if address - spi1_base == 0x40 && t.tx_full != 0 then bit_or value (2 ^ 29) else value,
        spis',
      )
    ]

-- `strict_wm8740_configuration`
pub strict_configuration : Spi → Wm8740 → ℕ → Bool
strict_configuration s dac control =
    Dac.valid dac
    && s.gcr1 == strict_gcr1
    && s.pin_function == strict_pins
    && s.interrupt_enable == 0
    && s.interrupt_level == 0
    && s.chip_select_default == 0xff
    && s.format 0 == strict_format
    && s.delay == strict_delay
    && word_valid control

-- The ports and the transfer, which a store changes; the converter changes as time passes.
pub record Timed : Type 0 where
  pub spis : Spis
  pub transfer : Transfer

-- A store of the configuration: the register's, and what it does to the transfer.
pub configure : Timed → ℕ → ℕ → Bool → Bool × Timed
configure s address word commit =
    let offset = address - spi1_base in
    let reset = offset == 0 && not (has word 1) in
    let disable = offset == 4 && not (has word enable) in
    let (taken, spis') = Registers.write s.spis address word 4 commit in
    let t = if commit && (reset || disable) then discard_transfer s.transfer else s.transfer in
    let t' =
      if commit && offset == 0x3c
      then record t { previous_cshold = bit_and (word / 2 ^ 28) 1 }
      else t in
    (taken, record { spis = spis'; transfer = if taken then t' else s.transfer })

-- The word enters the shift register of an idle port, or waits.
pub accept : Timed → ℕ → Timed
unfolding transfer_active start_transfer
accept s word =
    let port = s.spis 1 in
    let t = s.transfer in
    let loaded = record port {
      dat1 = bit_and word dat1_write_mask;
      flags = bit_and port.flags (not32 tx_flag);
    } in
    if not (transfer_active t)
    then record {
      spis = update s.spis 1 (raise_tx loaded);
      transfer = start_transfer t word (port.format 0) port.delay;
    }
    else let vacated = t.phase == t2c || t.phase == gap in
      record {
        spis = update s.spis 1 (if vacated then raise_tx loaded else loaded);
        transfer = record t {
          queued_control = word;
          queued_format = port.format 0;
          queued_delay = port.delay;
          queued_valid = 1;
          tx_full = if vacated then 0 else 1;
        };
      }

-- What is asked of a word for the converter.
pub acceptable : Timed → Wm8740 → ℕ → Bool
unfolding strict_configuration
acceptable s dac word =
    strict_configuration (s.spis 1) dac word
    && s.transfer.previous_cshold == 0
    && s.transfer.queued_valid == 0
    && (Dac.write dac word false).0

-- A store that a busy port refuses.
pub busy_refuses : Timed → ℕ → ℕ → Bool
unfolding transfer_active
busy_refuses s offset word =
    transfer_active s.transfer
    && not (offset == 0 && not (has word 1))
    && not (offset == 4 && not (has word enable))
    && offset != 0x10
    && offset != 0x3c

-- The store of a word to port 1's window, with the guards passed.
pub write_window : Timed → Wm8740 → ℕ → ℕ → Bool → Bool × Timed
unfolding busy_refuses configure acceptable accept
write_window s dac address word commit =
    let offset = address - spi1_base in
    if busy_refuses s offset word
    then (false, s)
    else if offset != 0x3c || not (has (s.spis 1).gcr1 enable)
    then configure s address word commit
    else if not (acceptable s dac word)
    then (false, s)
    else (true, if commit then accept s word else s)

-- The stores that are no words to port 1's window, or that a transfer at fault refuses.
pub barred : Timed → ℕ → ℕ → ℕ → Bool
unfolding timed_mapped
barred s address value size =
    not (timed_mapped address)
    || not (transfer_valid s.transfer)
    || s.transfer.fault != 0
    || size != 4
    || ltb u32_max value
    || address % 4 != 0

-- `cdj_c6747_spi_wm8740_write_timed`
pub write_timed : Wm8740 → Timed → ℕ → ℕ → ℕ → Bool → Bool × Timed
unfolding barred write_window
write_timed dac s address value size commit =
    if barred s address value size then (false, s) else write_window s dac address value commit

-- `cdj_spi_divider`
pub spi_divider : ℕ → ℕ
spi_divider value = if has value 0x8000 then bit_and value 31 + 1 else 1

-- `cdj_spi_clock_ready`
pub clock_ready : Pll → Bool
unfolding spi_divider
clock_ready pll =
    pll.go_remaining == 0
    && has (pll.active_dividers 0) 0x8000
    && has (pll.active_dividers 1) 0x8000
    && spi_divider (pll.active_dividers 1) == 2 * spi_divider (pll.active_dividers 0)

-- A run that returned false is at fault.
abbrev pub faulted : Option (Bool × Line) → Option Line
faulted none = none
faulted (some (true, l)) = some l
faulted (some (false, l)) = some (record l { transfer = record l.transfer { fault = 1 } })

-- `cdj_spi_core_tick`; `none` only where `advance` has none.
pub core_tick : Pll → Line → Option Line
unfolding clock_ready spi_divider
core_tick pll l =
    let t = l.transfer in
    if t.fault != 0
    then some l
    else if not (clock_ready pll)
    then some (record l {
      transfer =
          if t.phase != 0 || t.queued_valid != 0
          then record t { fault = 1 }
          else record t { clock_phase = 0 };
    })
    else let denominator = spi_divider (pll.active_dividers 1) in
      let sum = u32 (t.clock_phase + 2 * spi_divider (pll.active_dividers 0)) in
      faulted (
        advance (record l { transfer = record t { clock_phase = sum % denominator } })
          (sum / denominator))
