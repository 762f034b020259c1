-- ===== src/Hpi/Tests.antt =====
-- HPIC after reset and boot, and the theorems at concrete states.
use cdj2000_emulator.Prelude.{◌≡◌, refl, true, false, some}
use cdj2000_emulator.Hpi.{
  Hpi, hpic, reset, rom_boot_ready, host_read, host_write, cpu_read, cpu_write,
}
use cdj2000_emulator.Hpi.Laws.{Quiet, Unanswered, rung, hosted, stored, doorbell}

booted_value : host_read (rom_boot_ready reset) ≡ 0x4c004c
unfolding host_read rom_boot_ready reset
booted_value = refl

cpu_view : cpu_read (rom_boot_ready reset) hpic ≡ some 0x4c
unfolding cpu_read rom_boot_ready reset
cpu_view = refl

reset-Quiet : Quiet reset
unfolding reset
reset-Quiet = refl

-- The DSP's own interrupt, raised and cleared, leaves the doorbell.
abbrev rung_host : Hpi
rung_host = host_write reset 2

abbrev raised : Hpi
raised = (cpu_write rung_host hpic 4 4 true).1

waiting : Unanswered rung_host (host_write raised 4)
waiting = hosted 4 refl (stored hpic 4 4 true refl refl rung)

doorbell_example :
    let n = host_write raised 4 in
    (n.dspint ≡ true) × (cpu_write n hpic 2 4 true ≡ (true, record n { dspint = false }))
doorbell_example = doorbell reset (host_write raised 4) waiting
