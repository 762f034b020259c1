-- ===== src/Hpi/Laws.antt =====
-- The handshake over HPIC: what each side sees of the other's writes.

use Prim.Native.Nat.{bit_or}
use cdj2000_emulator.Prelude.{
  ℕ, ◌*◌, ◌/◌, ◌+◌, ◌%◌, ◌^◌, ◌<◌, ◌≡◌, Bool, true, false, ◌&&◌, ◌||◌, arith,
}
use cdj2000_emulator.Prelude.Bits.{merge_halves}
use cdj2000_emulator.Prelude.Word.{has}
use cdj2000_emulator.Bus.{TwoPhase}
use cdj2000_emulator.Hpi.{Hpi, hpic, rom_boot_ready, host_read, host_write, cpu_write}

-- While the interface is held in reset neither interrupt is raised.
abbrev pub Quiet : Hpi → Type 0
Quiet s = (s.hpirst && (s.hint || s.dspint)) ≡ false

-- The host reads the register's sixteen bits twice over, and finds the two interrupts, the reset and
-- its own controls at their places.
pub host_read_fields :
    (s : Hpi)
    → (host_read s % 2 ^ 16 ≡ host_read s / 2 ^ 16)
      × (has (host_read s) 4 ≡ s.hint)
      × (has (host_read s) 2 ≡ s.dspint)
      × (has (host_read s) 0x80 ≡ s.hpirst)
      × (has (host_read s) 1 ≡ s.hwob)
      × (has (host_read s) 0x200 ≡ s.dual_hpia)
      × (has (host_read s) 0x800 ≡ s.hpiasel)
unfolding host_read
host_read_fields s = ground arith

-- From a state with no interrupt raised in reset, every write of either side, and the boot ROM's
-- release, leaves such a state.
writes-Quiet :
    (s : Hpi) (value address size : ℕ) (commit : Bool)
    → Quiet s
    → Quiet (host_write s value)
      × Quiet (cpu_write s address value size commit).1
      × Quiet (rom_boot_ready s)
unfolding host_write cpu_write rom_boot_ready
writes-Quiet s value address size commit q = ground arith

-- A store to the DSP's side follows the two-phase protocol.
pub cpu_write-TwoPhase :
    (s : Hpi) (address value size : ℕ) → TwoPhase cpu_write s address value size
unfolding cpu_write
cpu_write-TwoPhase s address value size = ground arith

-- A 16-bit host value has the same effect in the low halfword, in the high one and in both.
host_write_halves :
    (s : Hpi) (v : ℕ)
    → v < 2 ^ 16
    → (host_write s (v * 2 ^ 16) ≡ host_write s v)
      × (host_write s (v + v * 2 ^ 16) ≡ host_write s v)
unfolding host_write
host_write_halves s v h =
    let (low, high, both) = merge_halves v h in (rw (low, high), rw (low, both))

-- What the port may be after any writes of either side of which none resets the port and none of the
-- DSP's is the answer to a doorbell.
pub data Unanswered (s : Hpi) : Hpi → Type 0 where
  rung : Unanswered s s
  hosted :
      {n : Hpi} (value : ℕ)
      → has (bit_or value (value / 2 ^ 16) % 2 ^ 16) 0x80 ≡ false
      → Unanswered s n
      → Unanswered s (host_write n value)
  stored :
      {n : Hpi} (address value size : ℕ) (commit : Bool)
      → has value 2 ≡ false
      → has value 0x80 ≡ false
      → Unanswered s n
      → Unanswered s (cpu_write n address value size commit).1

abbrev Ringing : Hpi → Type 0
Ringing s = (s.dspint ≡ true) × (s.hpirst ≡ false)

host_write-Ringing :
    (s : Hpi) (value : ℕ)
    → has (bit_or value (value / 2 ^ 16) % 2 ^ 16) 0x80 ≡ false
    → Ringing s
    → Ringing (host_write s value)
unfolding host_write
host_write-Ringing s value h r = ground arith

cpu_write-Ringing :
    (s : Hpi) (address value size : ℕ) (commit : Bool)
    → has value 2 ≡ false
    → has value 0x80 ≡ false
    → Ringing s
    → Ringing (cpu_write s address value size commit).1
unfolding cpu_write
cpu_write-Ringing s address value size commit h k r = ground arith

Unanswered-Ringing : {s n : Hpi} → Ringing s → Unanswered s n → Ringing n
Unanswered-Ringing r rung = r
Unanswered-Ringing r (hosted {n = n} value h u) =
    host_write-Ringing n value h (Unanswered-Ringing r u)
Unanswered-Ringing r (stored {n = n} address value size commit h k u) =
    cpu_write-Ringing n address value size commit h k (Unanswered-Ringing r u)

rings : (s : Hpi) → Ringing (host_write s 2)
unfolding host_write
rings s = ground arith

answered :
    (n : Hpi) → n.hpirst ≡ false → cpu_write n hpic 2 4 true ≡ (true, record n { dspint = false })
unfolding cpu_write
answered n h = ground arith

-- The host's doorbell (a write of 2, which leaves reset too) stays with the DSP, whatever either side
-- writes that neither resets the port nor is the DSP's answer to it; the DSP's store of 2 then takes it
-- away, and changes nothing else.
pub doorbell :
    (s n : Hpi)
    → Unanswered (host_write s 2) n
    → (n.dspint ≡ true) × (cpu_write n hpic 2 4 true ≡ (true, record n { dspint = false }))
doorbell s n u = let r = Unanswered-Ringing (rings s) u in (r.0, answered n r.1)

-- The other way round: the DSP's store of 4 raises the interrupt that the host reads as bit 2, and
-- the host's write of 4 clears it and rings no doorbell.
host_interrupt :
    (s : Hpi)
    → let (accepted, raised) = cpu_write s hpic 4 4 true in
      let cleared = host_write raised 4 in
      (accepted ≡ true)
      × (has (host_read raised) 4 ≡ true)
      × (has (host_read cleared) 4 ≡ false)
      × (cleared.dspint ≡ s.dspint)
unfolding host_write cpu_write host_read
host_interrupt s = ground arith
