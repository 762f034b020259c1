-- ===== src/Mcasp/Stores/Phases.antt =====
-- The stores to the audio ports under the two-phase protocol.
use cdj2000_emulator.Prelude.{
  ℕ, ◌!=◌, ltb, if◌then◌else◌, Bool, true, false, ◌&&◌, ◌||◌, ◌≡◌, refl, arith, ap, not, leb, ◌==◌,
  ◌∙◌, ◌-◌, ◌/◌, Option, none, some,
}
use cdj2000_emulator.Prelude.Arrays.{update, update_same}
use cdj2000_emulator.Bus.{TwoPhase}
use cdj2000_emulator.Mcasp.{serializer_count, Port, Control, Pins, locate, write_at, write}
use cdj2000_emulator.Mcasp.Stores.{
  legal, legal_srctl, write_dma, write_xbuf, write_port, control_write_at, control_write,
}
use cdj2000_emulator.Prelude.Word.{u32_max}

-- Whether a store to a place follows the protocol.
abbrev Phases : {S : Type 0} → S → Bool × S → Bool × S → Type 0
Phases s checked committed =
    (checked ≡ (committed.0, s)) × (committed.1 ≡ (if committed.0 then committed.1 else s))

if_Phases :
    {S : Type 0} {s : S} (b : Bool) {x y x' y' : Bool × S}
    → Phases s x x'
    → Phases s y y'
    → Phases s (if b then x else y) (if b then x' else y')
if_Phases true f g = f
if_Phases false f g = g

undocumented-Phases :
    (p : Port) (v : ℕ)
    → Phases p
        (v == 1, if v == 1 && false then record p { undocumented04 = 1 } else p)
        (v == 1, if v == 1 && true then record p { undocumented04 = 1 } else p)
undocumented-Phases p v = ground arith

-- Each store to a port, with its own guard.
write_dma-Phases : (p : Port) (b v : ℕ) → Phases p (write_dma p b v false) (write_dma p b v true)
unfolding write_dma
write_dma-Phases p b v = ground arith

write_xbuf-Phases :
    (p : Port) (b n v : ℕ) → Phases p (write_xbuf p b n v false) (write_xbuf p b n v true)
unfolding write_xbuf
write_xbuf-Phases p b n v = ground arith

write_port-Phases :
    (p : Port) (b o v : ℕ) → Phases p (write_port p b o v false) (write_port p b o v true)
unfolding write_port
write_port-Phases p b o v = if_Phases (o == 0x04) (undocumented-Phases p v) (
    if_Phases (o == 0x2000) (write_dma-Phases p b v) (
      if_Phases (leb 0x200 o && ltb o 0x240) (write_xbuf-Phases p b ((o - 0x200) / 4) v) (
        if_Phases (leb 0x100 o && ltb o 0x160) (refl, refl)
          (if_Phases (leb 0x180 o && ltb o 0x1c0)
            (if_Phases (leb (serializer_count b) ((o - 0x180) / 4) || not (legal_srctl v))
              (refl, refl) (refl, refl))
            (if_Phases (not (legal p o v)) (refl, refl) (refl, refl))))))

-- A store to one port is one to the ports.
in_place :
    (s : Control) (b : ℕ) (checked committed : Bool × Port)
    → Phases (s b) checked committed
    → Phases s (checked.0, update s b checked.1) (committed.0, update s b committed.1)
in_place s b checked (taken, p) h = (
  ap (λ (x : Bool × Port). (x.0, update s b x.1)) h.0
      ∙ ap (λ (u : Control). (taken, u)) (update_same s b),
  placed taken p h.1,
)
  where
    placed :
        (w : Bool) (q : Port)
        → q ≡ (if w then q else s b)
        → update s b q ≡ (if w then update s b q else s)
    placed true q e = refl
    placed false q e = ap (update s b) e ∙ update_same s b

control_write_at-Phases :
    (s : Control) (place : ℕ × ℕ) (v : ℕ)
    → Phases s (control_write_at s place v false) (control_write_at s place v true)
unfolding control_write_at
control_write_at-Phases s (b, o) v =
    in_place s b (write_port (s b) b o v false) (write_port (s b) b o v true)
      (write_port-Phases (s b) b o v)

write_at-Phases :
    (s : Pins) (place : ℕ × ℕ) (v : ℕ)
    → Phases s (write_at s place v false) (write_at s place v true)
unfolding write_at
write_at-Phases s (b, o) v = ground arith

guarded :
    {S : Type 0} (s : S) (size value : ℕ) (write : ℕ × ℕ → Bool → Bool × S)
    → ((place : ℕ × ℕ) → Phases s (write place false) (write place true))
    → (found : Option (ℕ × ℕ))
    → let run = λ (c : Bool).
      if◌then◌else◌ {A = Bool × S}
        (size != 4 || ltb u32_max value)
        (false, s)
        (elim found [ none ↦ (false, s) | some place ↦ write place c ]) in
      Phases s (run false) (run true)
guarded s size value write h none = ground arith
guarded s size value write h (some place) = ground (arith, h place)

-- A store to the pins, or to the control window, follows the two-phase protocol.
pub write-TwoPhase : (s : Pins) (address value size : ℕ) → TwoPhase write s address value size
unfolding write
write-TwoPhase s address value size =
    guarded s size value (λ place c. write_at s place value c)
      (λ place. write_at-Phases s place value) (locate address)

pub control_write-TwoPhase :
    (s : Control) (address value size : ℕ) → TwoPhase control_write s address value size
unfolding control_write
control_write-TwoPhase s address value size =
    guarded s size value (λ place c. control_write_at s place value c)
      (λ place. control_write_at-Phases s place value) (locate address)
