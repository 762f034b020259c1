-- ===== src/Control/Tests.antt =====
-- ISTP with interrupts 4 and 5 raised and enabled.
use cdj2000_emulator.Prelude.{
  ◌*◌, ◌^◌, ltb, ◌&&◌, ◌==◌, ◌≡◌, ◌≢◌, refl, arith, if◌then◌else◌, true, false,
}
use Prim.Native.Nat.{bit_and, bit_or}
use cdj2000_emulator.Prelude.Bits.{bit}
use cdj2000_emulator.Control.{Cpu, pending, lowest_from, control_read}
use cdj2000_emulator.Control.Pending.{istp_lem}

raised : Cpu
raised = record {
  control = λ i. if i == 2 then 0x30 else if i == 4 then 0x33 else if i == 5 then 0x11800000 else 0;
  control_ready = λ i. 0;
  cycles = 0;
}

raised_istp : control_read raised 5 ≡ 0x11800080
unfolding control_read raised
raised_istp = refl

raised_some : pending raised ≢ 0
unfolding raised
raised_some = omega arith

istp_lem_example :
    let number = lowest_from 32 (pending raised) 0 in
    (control_read raised 5 ≡ bit_or (bit_and (raised.control 5) 0xfffffc00) (number * 2 ^ 5))
    × (bit (pending raised) number ≡ true)
    × ((ltb 2 number && bit (pending raised) 2) ≡ false)
istp_lem_example = istp_lem raised 2 raised_some
