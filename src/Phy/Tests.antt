-- ===== src/Phy/Tests.antt =====
-- The PHY on concrete links and frames, and the witness of its theorem.
use cdj2000_emulator.Prelude.{
  ℕ, zero, suc, ◌+◌, ◌*◌, true, false, Option, none, some, List, [], ◌∷◌, ◌≡◌, refl,
}
use cdj2000_emulator.Phy.{Phy, reset, advance, set_peer, led0}
use cdj2000_emulator.Phy.Registers.{write}
use cdj2000_emulator.Phy.Frames.{pir_write}
use cdj2000_emulator.Phy.Link.{IsLinked}
use cdj2000_emulator.Phy.Steps.{Reached, after_reset, timed, peered, Reached-IsLinked}

abbrev or_reset : Option Phy → Phy
or_reset none = reset 0
or_reset (some s) = s

abbrev plugged : Phy
plugged = or_reset (set_peer (reset 0) true 0x01e1 0)

-- A tenth of a second after the peer is there.
abbrev up : Phy
up = or_reset (advance plugged 100000000)

up_link : up.link ≡ true
unfolding reset set_peer advance
up_link = refl

up_bmcr : up.bmcr ≡ 0x3100
unfolding reset set_peer advance
up_bmcr = refl

up_anlpar : up.anlpar ≡ 0x41e1
unfolding reset set_peer advance
up_anlpar = refl

led_off : led0 up ≡ some true
unfolding reset set_peer advance led0
led_off = refl

too_early : (or_reset (advance plugged 99999999)).link ≡ false
unfolding reset set_peer advance
too_early = refl

-- A bit that the MAC sends.
abbrev send_bit : ℕ → Option Phy → Option Phy
send_bit bit none = none
send_bit bit (some s) = elim (pir_write s (2 + 4 * bit)) [
  | none ↦ none
  | some n ↦ pir_write n (3 + 4 * bit)
]

abbrev send : List ℕ → Option Phy → Option Phy
send [] s = s
send (bit ∷ rest) s = send rest (send_bit bit s)

abbrev ones : ℕ → Option Phy → Option Phy
ones zero s = s
ones (suc n) s = ones n (send_bit 1 s)

-- A frame that writes 0x61 to ANAR of the PHY 1.
abbrev frame : List ℕ
frame =
    0 ∷ 1 ∷ 0 ∷ 1 ∷ 0 ∷ 0 ∷ 0 ∷ 0 ∷ 1 ∷ 0 ∷ 0 ∷ 1 ∷ 0 ∷ 0 ∷ 1 ∷ 0 ∷ 0 ∷ 0 ∷ 0 ∷ 0 ∷ 0 ∷ 0 ∷ 0 ∷ 0
    ∷ 0 ∷ 1 ∷ 1 ∷ 0 ∷ 0 ∷ 0 ∷ 0 ∷ 1 ∷ []

written : (or_reset (send frame (ones 32 (some (reset 0))))).anar ≡ 0x61
unfolding reset pir_write write
written = refl

short_preamble : send frame (ones 31 (some (reset 0))) ≡ none
unfolding reset pir_write write
short_preamble = refl

up-Reached : Reached up
unfolding reset set_peer advance
up-Reached = timed 100000000 (peered true 0x01e1 0 (after_reset 0) refl) refl

Reached-IsLinked_example : IsLinked up
Reached-IsLinked_example = Reached-IsLinked up-Reached
