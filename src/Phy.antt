-- ===== src/Phy.antt =====
-- emulator/qemu/cdj_rtl8201fl.h and .c: the Ethernet PHY, its virtual link, its registers
-- (Phy/Registers), and the serial frames by which the MAC reads and writes it (Phy/Frames).
pub mod Frames
pub mod Link
pub mod Registers
pub mod Steps
mod Tests
use Prim.Native.Nat.{bit_and, bit_or, bit_xor}
use cdj2000_emulator.Prelude.{
  ℕ, ◌+◌, ◌-◌, ◌*◌, ◌/◌, ◌%◌, ◌^◌, ◌==◌, ◌!=◌, ltb, leb, if◌then◌else◌, Bool, true, false, not,
  ◌&&◌, ◌||◌, Option, none, some,
}
use cdj2000_emulator.Prelude.Word.{has, not32}

abbrev pub no_deadline : ℕ
no_deadline = 2 ^ 64 - 1

abbrev pub reset_ns : ℕ
reset_ns = 1000000

abbrev pub negotiate_ns : ℕ
negotiate_ns = 100000000

-- `CdjRtl8201fl`
pub record Phy : Type 0 where
  pub bmcr : ℕ
  pub anar : ℕ
  pub partner : ℕ
  pub anlpar : ℕ
  pub aner : ℕ
  pub data' : ℕ
  pub page : ℕ
  pub led_config : ℕ
  pub led_control : ℕ
  pub eee_config : ℕ
  pub mmd_control : ℕ
  pub mmd_address : ℕ
  pub eee_advert : ℕ
  pub now : ℕ
  pub deadline : ℕ
  pub header : ℕ
  pub pir : ℕ
  pub mdi : ℕ
  pub preamble : ℕ
  pub bits : ℕ
  pub peer : Bool
  pub link : Bool
  pub latch_low : Bool
  pub reset_pending : Bool
  pub synchronized : Bool
  pub frame : Bool
  pub idle_needed : Bool
  pub cp : Bool

pub down : Phy → Phy
down s = record s { link = false; latch_low = true; anlpar = 1; aner = 0 }

-- `none` where the code returns false, here and below.
pub arm : Phy → ℕ → Option Phy
arm s delay =
    if leb (2 ^ 64 - 1 - delay) s.now then none else some (record s { deadline = s.now + delay })

pub negotiate : Phy → Option Phy
unfolding down arm
negotiate s =
    let n = record (down s) { deadline = no_deadline } in
    if n.peer && not (has n.bmcr 0x0c00)
    then arm n negotiate_ns
    else some (record n { bmcr = bit_and n.bmcr (not32 0x0200) })

unfoldable pub reset : ℕ → Phy
reset now = record {
  bmcr = 0x3100;
  anar = 0x01e1;
  partner = 0;
  anlpar = 1;
  aner = 0;
  data' = 0;
  page = 0;
  led_config = 0;
  led_control = 0x30;
  eee_config = 0x3300;
  mmd_control = 0;
  mmd_address = 0;
  eee_advert = 2;
  now = now;
  deadline = no_deadline;
  header = 0;
  pir = 0;
  mdi = 1;
  preamble = 0;
  bits = 0;
  peer = false;
  link = false;
  latch_low = true;
  reset_pending = false;
  synchronized = false;
  frame = false;
  idle_needed = false;
  cp = false;
}

-- The registers' defaults after a software reset.
pub restored : Phy → Phy
restored n = record n {
  reset_pending = false;
  bmcr = 0x3100;
  anar = 0x01e1;
  page = 0;
  led_config = 0;
  led_control = 0x30;
  eee_config = 0x3300;
  eee_advert = 2;
  mmd_control = 0;
  mmd_address = 0;
}

-- The end of a software reset, which negotiates anew.
pub end_reset : Phy → Option Phy
unfolding restored negotiate
end_reset n = if n.reset_pending then negotiate (restored n) else some n

-- The best of the abilities that both sides have.
pub best_of : ℕ → ℕ
best_of common =
    if has common 0x100
    then 0x100
    else if has common 0x80
    then 0x80
    else if has common 0x40
    then 0x40
    else 0x20

-- The end of a negotiation: the link comes up if the sides have an ability in common.
pub connect : Phy → Phy
unfolding best_of
connect n =
    let common = bit_and (bit_and n.anar n.partner) 0x1e0 in
    let best = best_of common in
    let cleared = bit_and n.bmcr (not32 0x2300) in
    let fast = if has best 0x180 then bit_or cleared 0x2000 else cleared in
    let full = if has best 0x140 then bit_or fast 0x0100 else fast in
    let up = record n { link = true; anlpar = bit_or n.partner 0x4000; aner = 3; bmcr = full } in
    let settled = if common != 0 then up else n in
    record settled { bmcr = bit_and settled.bmcr (not32 0x0200) }

-- The deadline of a reset that ended, if it has passed too.
pub expire : Phy → ℕ → Phy
expire n now =
    if not n.reset_pending && n.deadline != no_deadline && leb n.deadline now
    then record n { deadline = no_deadline }
    else n

-- What is left of a deadline that has passed.
pub settle : Phy → ℕ → Phy
unfolding expire connect
settle n now =
    let expired = expire n now in
    if expired.deadline == no_deadline && expired.peer && not (has expired.bmcr 0x0c00)
    then connect expired
    else expired

pub advance : Phy → ℕ → Option Phy
unfolding end_reset settle
advance s now =
    if ltb now s.now || now == 2 ^ 64 - 1
    then none
    else if s.deadline != no_deadline && leb s.deadline now
    then elim (end_reset (record s { now = s.deadline; deadline = no_deadline })) [
      | none ↦ none
      | some n ↦ some (record (settle n now) { now = now })
    ]
    else some (record s { now = now })

-- An advertisement that is supported.
pub advertises : ℕ → Bool
advertises word = not (has word (not32 0x0de1)) && bit_and word 31 == 1

pub set_peer : Phy → Bool → ℕ → ℕ → Option Phy
unfolding advertises advance negotiate down
set_peer s present advertisement now =
    if not (advertises advertisement) then none else elim (advance s now) [
      | none ↦ none
      | some n ↦
          let joined = record n { peer = present; partner = advertisement } in
          if (if n.peer then present else not present) && n.partner == advertisement
          then some n
          else if joined.reset_pending
          then some (down joined)
          else negotiate joined
    ]

-- The level of LED0; `none` for a mode that is not modelled.
unfoldable pub led0 : Phy → Option Bool
led0 s =
    let mode = bit_and s.led_config 15 in
    if s.cp
    then some (not s.link)
    else if has s.led_control 8
    then (if has mode (not32 3)
        then none
        else some (not (s.link && has mode (if has s.bmcr 0x2000 then 2 else 1))))
    else if bit_and s.led_control 0x30 != 0x30
    then none
    else some (not (s.link && not (has s.bmcr 0x2000)))
