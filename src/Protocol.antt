-- ===== src/Protocol.antt =====
-- The devices that emulator/qemu/cdj_dsp_model.c puts on the DSP's bus, under the one protocol of
-- Bus.antt.
mod Tests
use cdj2000_emulator.Prelude.{ℕ, ◌≡◌, refl, true, false, arith, if◌then◌else◌, Bool}
use cdj2000_emulator.Bus.{TwoPhase}
use cdj2000_emulator.Cache
use cdj2000_emulator.Emifb
use cdj2000_emulator.Gpio
use cdj2000_emulator.Hpi
use cdj2000_emulator.I2c
use cdj2000_emulator.Pll
use cdj2000_emulator.Intc
use cdj2000_emulator.Mcasp
use cdj2000_emulator.Psc
use cdj2000_emulator.Spi
use cdj2000_emulator.Syscfg
use cdj2000_emulator.Syscfg.Priority.{Priority, priority_write}

syscfg : (s : Syscfg.Syscfg) (address value size : ℕ) → TwoPhase Syscfg.write s address value size
unfolding Syscfg.write
syscfg s address value size = ground arith

priority :
    (keys : Syscfg.Syscfg) (s : Priority) (address value size : ℕ)
    → TwoPhase (priority_write keys) s address value size
unfolding priority_write
priority keys s address value size = ground arith

-- Each device's write, at any state, address, value and size: the check phase answers as the commit
-- does and changes nothing, and a refused commit changes nothing either.
pub two_phase :
    (intc : Intc.Intc) (psc : Psc.Psc) (emifb : Emifb.Emifb) (gpio : Gpio.Gpio)
    (keys : Syscfg.Syscfg) (masters : Priority) (l1 : Cache.Cache) (hpi : Hpi.Hpi) (i2c : I2c.I2c)
    (pll : Pll.Pll) (spis : Spi.Spis) (dac : Spi.Dac.Wm8740) (timed : Spi.Transfer.Timed.Timed)
    (pins : Mcasp.Pins) (ports : Mcasp.Control) (address value size : ℕ)
    → TwoPhase Intc.write intc address value size
      × TwoPhase Psc.write psc address value size
      × TwoPhase Emifb.write emifb address value size
      × TwoPhase Gpio.write gpio address value size
      × TwoPhase Syscfg.write keys address value size
      × TwoPhase (priority_write keys) masters address value size
      × TwoPhase Cache.write l1 address value size
      × TwoPhase Hpi.cpu_write hpi address value size
      × TwoPhase I2c.write i2c address value size
      × TwoPhase Pll.Registers.write pll address value size
      × TwoPhase Spi.Registers.write spis address value size
      × TwoPhase (Spi.Transfer.Timed.write_timed dac) timed address value size
      × TwoPhase Mcasp.write pins address value size
      × TwoPhase Mcasp.Stores.control_write ports address value size
two_phase intc psc emifb gpio keys masters l1 hpi i2c pll spis dac timed pins ports address value
      size =
    (
      Intc.Registers.write-TwoPhase intc address value size,
      Psc.Go.write-TwoPhase psc address value size,
      Emifb.Config.write-TwoPhase emifb address value size,
      Gpio.Pins.write-TwoPhase gpio address value size,
      syscfg keys address value size,
      priority keys masters address value size,
      Cache.Phases.write-TwoPhase l1 address value size,
      Hpi.Laws.cpu_write-TwoPhase hpi address value size,
      I2c.Hold.write-TwoPhase i2c address value size,
      Pll.Registers.Lock.write-TwoPhase pll address value size,
      Spi.Registers.Laws.write-TwoPhase spis address value size,
      Spi.Transfer.Timed.Accept.write_timed-TwoPhase dac timed address value size,
      Mcasp.Stores.Phases.write-TwoPhase pins address value size,
      Mcasp.Stores.Phases.control_write-TwoPhase ports address value size,
    )
