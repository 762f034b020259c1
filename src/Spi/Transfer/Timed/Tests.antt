-- ===== src/Spi/Transfer/Timed/Tests.antt =====
-- The serial port and its converter on concrete runs, and the theorems at concrete states.
use cdj2000_emulator.Prelude.{
  ℕ, ◌+◌, ◌%◌, ◌^◌, ◌<◌, ◌==◌, leb, if◌then◌else◌, true, false, ◌≡◌, refl, arith, some,
}
use cdj2000_emulator.Prelude.Arrays.{update}
use cdj2000_emulator.Prelude.Word.{has, IsWord}
use cdj2000_emulator.Pll
use cdj2000_emulator.Pll.{Pll}
use cdj2000_emulator.Spi
use cdj2000_emulator.Spi.{Spis, spi1_base, enable}
use cdj2000_emulator.Spi.Dac
use cdj2000_emulator.Spi.Dac.{word_valid, addressed, latch}
use cdj2000_emulator.Spi.Registers.{write_wm8740}
use cdj2000_emulator.Spi.Transfer.{
  Line, transfer_reset, transfer_valid, transfer_active, strict_gcr1, strict_pins, strict_format,
  strict_delay, idle, advance,
}
use cdj2000_emulator.Spi.Transfer.Valid.{IsReady}
use cdj2000_emulator.Spi.Transfer.Deliver.{busy, pending, delivered, Result, advance_lem}
use cdj2000_emulator.Spi.Transfer.Split.{advance-add}
use cdj2000_emulator.Spi.Transfer.Timed.{Timed, spi_divider, clock_ready, write_timed}
use cdj2000_emulator.Spi.Transfer.Timed.Accept.{write_timed-valid}
use cdj2000_emulator.Spi.Transfer.Timed.Arrive.{after_store, word_arrives}
use cdj2000_emulator.Spi.Transfer.Timed.Clock.{ticks, ticks_lem}
use cdj2000_emulator.Spi.Transfer.Timed.Collapse.{collapsed}

-- Both ports reset, and port 1 set up for the converter.
strict_ports : Spis
unfolding Spi.reset
strict_ports = update Spi.reset 1 (record (Spi.reset 1) {
  gcr0 = 1;
  gcr1 = strict_gcr1;
  pin_function = strict_pins;
  format = update (λ i. 0) 0 strict_format;
  delay = strict_delay;
})

idle_port : Timed
unfolding strict_ports transfer_reset
idle_port = record { spis = strict_ports; transfer = transfer_reset }

-- The word 0x123 sets register 0 and updates the attenuation of both channels.
abbrev volume : ℕ
volume = 0x123

idle_port-valid : transfer_valid idle_port.transfer ≡ true
unfolding idle_port transfer_valid word_valid
idle_port-valid = refl

volume_taken : (write_timed Dac.reset idle_port (spi1_base + 0x3c) volume 4 true).0 ≡ true
unfolding write_timed idle_port transfer_valid Dac.reset Dac.valid word_valid Dac.write
volume_taken = refl

idle_port_enabled : has (idle_port.spis 1).gcr1 enable ≡ true
unfolding idle_port
idle_port_enabled = refl

idle_port_idle : transfer_active idle_port.transfer ≡ false
unfolding idle_port transfer_active
idle_port_idle = refl

idle_port_flags : IsWord (idle_port.spis 1).flags
unfolding idle_port
idle_port_flags = omega arith

word_arrives_example :
    let before = delivered 814 (pending idle_port.transfer) Dac.reset in
    (l : Line) × (advance (after_store Dac.reset idle_port volume) 814 ≡ some (true, l))
    × (l.dac ≡ (
        if leb (busy idle_port.transfer + 814) 814 then latch before (volume % 2 ^ 16) else before))
    × ((l.transfer.phase == idle) ≡ leb (busy idle_port.transfer + 818) 814)
word_arrives_example =
    word_arrives Dac.reset idle_port volume 814 idle_port-valid idle_port_enabled volume_taken

collapsed_example :
    (l : Line) × (advance (after_store Dac.reset idle_port volume) 818 ≡ some (true, l))
    × (write_wm8740 idle_port.spis Dac.reset (spi1_base + 0x3c) volume 4 true true
        ≡ (true, update idle_port.spis 1 l.spi, l.dac))
collapsed_example =
    collapsed Dac.reset idle_port volume idle_port-valid idle_port_idle idle_port_flags
      idle_port_enabled volume_taken

-- The line just after the store.
busy_line : Line
unfolding idle_port
busy_line = after_store Dac.reset idle_port volume

busy_line-IsReady : IsReady busy_line
unfolding busy_line write_timed transfer_valid Dac.reset Dac.valid word_valid Dac.write
busy_line-IsReady = (refl, refl, refl)

advance_lem_example : Result 500 busy_line (advance busy_line 500)
advance_lem_example = advance_lem busy_line 500 busy_line-IsReady

advance-add_example :
    (m : Line) × (advance busy_line 500 ≡ some (true, m))
    × IsReady m
    × (advance m 318 ≡ advance busy_line (500 + 318))
advance-add_example = advance-add busy_line 500 318 busy_line-IsReady

-- The CPU's clock undivided, and SYSCLK2 at half of it.
settled_pll : Pll
settled_pll = record Pll.reset { active_dividers = λ i. 0x8000 + i; go_remaining = 0 }

settled : clock_ready settled_pll ≡ true
unfolding clock_ready settled_pll
settled = refl

busy_line_phase : busy_line.transfer.clock_phase < spi_divider (settled_pll.active_dividers 1)
unfolding busy_line spi_divider settled_pll write_timed transfer_valid Dac.reset Dac.valid
    word_valid Dac.write
busy_line_phase = omega arith

ticks_lem_example :
    (m : Line) × (ticks 818 settled_pll busy_line ≡ some m)
    × (advance busy_line 818 ≡ some (true, m))
ticks_lem_example = ticks_lem 818 settled_pll busy_line busy_line-IsReady settled busy_line_phase

write_timed-valid_example :
    transfer_valid (write_timed Dac.reset idle_port (spi1_base + 0x3c) volume 4 true).1.transfer
    ≡ true
write_timed-valid_example =
    write_timed-valid Dac.reset idle_port (spi1_base + 0x3c) volume 4 true idle_port-valid
