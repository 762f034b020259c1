-- ===== src/Protocol/Tests.antt =====
-- The two-phase protocol at a store that every device answers.

use cdj2000_emulator.Bus.{TwoPhase}
use cdj2000_emulator.Protocol.{two_phase}
use cdj2000_emulator.Cache
use cdj2000_emulator.Emifb
use cdj2000_emulator.Gpio
use cdj2000_emulator.Hpi
use cdj2000_emulator.I2c
use cdj2000_emulator.Pll
use cdj2000_emulator.Intc
use cdj2000_emulator.Mcasp
use cdj2000_emulator.Psc
use cdj2000_emulator.Spi
use cdj2000_emulator.Spi.Transfer.{transfer_reset}
use cdj2000_emulator.Spi.Transfer.Timed.{Timed}
use cdj2000_emulator.Syscfg
use cdj2000_emulator.Syscfg.Priority.{priority_write, priority_reset}

-- The serial ports after reset, and no transfer.
idle_ports : Timed
idle_ports = record { spis = Spi.reset; transfer = transfer_reset }

two_phase_example :
    TwoPhase Intc.write Intc.reset 0x01800040 5 4
    × TwoPhase Psc.write Psc.reset 0x01800040 5 4
    × TwoPhase Emifb.write Emifb.reset 0x01800040 5 4
    × TwoPhase Gpio.write Gpio.reset 0x01800040 5 4
    × TwoPhase Syscfg.write Syscfg.reset 0x01800040 5 4
    × TwoPhase (priority_write Syscfg.reset) priority_reset 0x01800040 5 4
    × TwoPhase Cache.write Cache.reset 0x01800040 5 4
    × TwoPhase Hpi.cpu_write Hpi.reset 0x01800040 5 4
    × TwoPhase I2c.write I2c.reset 0x01800040 5 4
    × TwoPhase Pll.Registers.write Pll.reset 0x01800040 5 4
    × TwoPhase Spi.Registers.write Spi.reset 0x01800040 5 4
    × TwoPhase (Spi.Transfer.Timed.write_timed Spi.Dac.reset) idle_ports 0x01800040 5 4
    × TwoPhase Mcasp.write Mcasp.reset 0x01800040 5 4
    × TwoPhase Mcasp.Stores.control_write Mcasp.control_reset 0x01800040 5 4
two_phase_example =
    two_phase Intc.reset Psc.reset Emifb.reset Gpio.reset Syscfg.reset priority_reset Cache.reset
      Hpi.reset I2c.reset Pll.reset Spi.reset Spi.Dac.reset idle_ports Mcasp.reset
      Mcasp.control_reset 0x01800040 5 4
