-- ===== src/Intc/Tests.antt =====
-- Events delivered and cleared after reset, and the theorems there.

use cdj2000_emulator.Prelude.{◌+◌, ◌*◌, ◌≡◌, refl, true, arith, ◌&&◌, ◌||◌, ◌==◌, not, some}
use mathlib.Core.Option
use cdj2000_emulator.Prelude.Bits.{bit}
use cdj2000_emulator.Intc.{
  reset, combined_active, event, request_if_risen, request_selected_event, request_from,
  deliver_event, write, read, evtflag0, evtclr0, mevtflag0,
}
use cdj2000_emulator.Intc.Select.{selects, requests}
use cdj2000_emulator.Intc.Delivery.{risen, deliver_event_lem}
use cdj2000_emulator.Intc.Registers.{reset-IsFormed, read-clear}

-- After reset CPU interrupt 4 selects event 4.
timer_request : requests (deliver_event reset (some 0) 4).2 ≡ 0x10
unfolding deliver_event request_if_risen combined_active reset event request_selected_event
    request_from
timer_request = refl

deliver_event_lem_example :
    let (accepted, s', delivery) = deliver_event reset (some 0) 40 in
    (accepted ≡ true)
    × (bit (s'.event_flag 1) 8 ≡ (bit (reset.event_flag 1) 8 || 1 * 32 + 8 == 40))
    × (s' ≡ record reset { event_flag = s'.event_flag })
    × (bit (requests delivery) 5
        ≡ ((bit 0 5 || selects reset 40 5) || (risen reset s' 1 && selects reset 1 5)))
deliver_event_lem_example =
    deliver_event_lem reset 0 40 1 8 5 (omega arith) (omega arith) (omega arith)

read-clear_example :
    let (accepted, s') = write reset (evtclr0 + 4 * 1) 6 4 true in
    (accepted ≡ true)
    × (Option.map (λ n. bit n 2) (read s' (evtflag0 + 4 * 1))
        ≡ some (bit (reset.event_flag 1) 2 && not (bit 6 2)))
    × (Option.map (λ n. bit n 2) (read s' (mevtflag0 + 4 * 1))
        ≡ some ((bit (reset.event_flag 1) 2 && not (bit 6 2)) && not (bit (reset.event_mask 1) 2)))
read-clear_example = read-clear reset 1 6 2 reset-IsFormed (omega arith) (omega arith) (omega arith)
