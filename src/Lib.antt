-- ===== src/Lib.antt =====
-- A verification library for the register-level models of the CDJ-2000 emulator, whose C sources are
-- in emulator/qemu. Its DSP is a TI C6747: a C674x core, whose loop buffer and host scheduling are
-- modelled, and the devices on its bus.
--
-- The parts, and the files that model them:
--
--   Scheduler   cdj_dsp_scheduler.c    activations of the DSP, in slices
--   Loop        cdj_c674x_loop.c       the software pipelined loop buffer
--   Intc        cdj_c6747_intc.c       events to CPU interrupts
--   Timer       cdj_c6747_timer.c      two 64-bit timers
--   Psc         cdj_c6747_psc.c        power and sleep controllers
--   Emifb       cdj_c6747_emifb.c      the SDRAM controller
--   Syscfg      cdj_c6747_syscfg.c     keys, pin multiplexing, chip configuration, priorities
--   Hpi         cdj_c6747_hpi.c        the host port's control register
--   Gpio        cdj_c6747_gpio.c       pins
--   Cache       cdj_c6747_cache.c      cache control and level 1 data memory
--   Pll         cdj_c6747_pll.c        the PLL controller and its clocks
--   I2c         cdj_c6747_i2c.c        two I2C controllers in their GPIO mode
--   Edma        cdj_c6747_edma.c       the DMA engine: transfers, linking, chaining, registers
--   Packed8     cdj_c674x_packed8.c    instructions on four bytes of a word
--   Packed16    cdj_c674x_packed16.c   instructions on two halfwords of a word
--   Packbits    cdj_c674x_packbits.c   packing, shuffling and counting bits
--   Multiply    cdj_c674x_mpy.c, cdj_c674x_mpy32.c  products and values of forty bits
--   Spi         cdj_c6747_spi.c, cdj_c6747_spi_clock.h  serial ports, their converter, its transfers
--   Dotp        cdj_c674x_dotp.c       dot products, complex and rounding products
--   Uncond      cdj_c674x_uncond.c     instruction words that take no condition
--   Control     cdj_c674x_control.c    control registers as instructions read them
--   Phy         cdj_rtl8201fl.c        registers, link and serial frames of the Ethernet PHY
--   Mcasp       cdj_c6747_mcasp.c      three audio ports: registers, buffers, slots, clock rates
--   Bus, Protocol                      the two-phase store protocol of these devices
--   Prelude                            shared names, Boolean tests, arrays, bits, words, integers
--
-- The devices meet in three places. The CPU reaches each one through a read and a two-phase write: a
-- store is offered with `commit` clear and repeated with it set. The timers' outputs become events
-- of the interrupt controller. The PLL's dividers say how far a tick of the CPU moves the serial port's
-- transfer. A struct is a record, an array in it a function from the index, an
-- out-parameter a component of the result, and an operation takes the state before and returns the
-- state after; a pointer that may be null is an option. A function that the C code calls by a prefix
-- such as `cdj_c6747_intc_` drops it.
--
-- Unsigned integers are natural numbers, and wrap where the C code's operations can: u32 and u64 are
-- the remainders, the mask tests are on the bits. Loops run for a number of rounds that the code
-- fixes (32 modules, 12 CPU interrupts, 8 compare registers); the loop over the buffer's entries has
-- one round for every entry, and its stride is positive, and the loop of the PLL's lock wait has 2000
-- rounds for each unit of the divider, so the rounds are enough. The loop of an EDMA service has as many
-- rounds as events can ever be queued. The loop that moves a serial transfer has a round more than the half
-- ticks it is given, since each round of a transfer that the code accepts spends one or more.
--
-- The memory that the EDMA moves is its client's: the bus is a parameter, and that a check of
-- a write changes nothing, which its header asks, is a hypothesis, which a memory of a page meets (Edma/Tests).
--
-- Signed values of the instructions are integers (Prelude/Integers), stored by their remainder in two's
-- complement.
--
-- Not modelled: null pointers that the callers never pass; the floating-point instructions and the core
-- that executes them; the other devices and boards, which are register models of the same kind, or calls
-- of QEMU, sockets and the host's floating point.
pub mod Bus
pub mod Cache
pub mod Control
pub mod Dotp
pub mod Edma
pub mod Emifb
pub mod Gpio
pub mod Hpi
pub mod I2c
pub mod Intc
pub mod Loop
pub mod Mcasp
pub mod Multiply
pub mod Packbits
pub mod Packed16
pub mod Packed8
pub mod Phy
pub mod Pll
pub mod Prelude
pub mod Protocol
pub mod Psc
pub mod Scheduler
pub mod Spi
pub mod Syscfg
pub mod Timer
pub mod Uncond
