-- ===== src/Pll/Phase.antt =====
-- The clock arithmetic of `cdj_c6747_pll_tick`: no fraction of an input period is lost.

use native.Mathlib.Nat.{div-add-mod', mod-lt, div-le_self}
use cdj2000_emulator.Prelude.{
  ℕ, zero, suc, ◌+◌, ◌*◌, ◌/◌, ◌%◌, ◌^◌, ◌≤◌, ◌<◌, true, ◌≡◌, refl, arith, ap, ◌∙◌,
}
use cdj2000_emulator.Prelude.Word.{has}
use cdj2000_emulator.Pll.{Pll, ratio, elapse, tick}
use cdj2000_emulator.Pll.Wait.{ratio_range}
use mathlib.Core.Path.{ap₂}
use native.Mathlib.Nat.{mul-le-mul}

-- The divisor between the multiplied clock and a DSP cycle.
abbrev pub divisor : Pll → ℕ
divisor s = ratio (s.config 3) * ratio (s.config 8) * ratio (s.active_dividers 0)

divisor-le : (s : Pll) → divisor s ≤ 32 * 32 * 32
divisor-le s =
    mul-le-mul (mul-le-mul (ratio_range (s.config 3)).1 (ratio_range (s.config 8)).1)
      (ratio_range (s.active_dividers 0)).1

pub ticks : ℕ → Pll → Pll
ticks zero s = s
ticks (suc n) s = ticks n (tick s)

-- A PLL that drives the DSP, with its fields in range, and no divider change under way.
pub record IsDriving (s : Pll) : Type 0 where
  pub enabled : has (s.config 0) 1 ≡ true
  pub field : s.config 2 < 32
  pub steady : s.go_remaining ≡ 0
  pub phase : s.oscin_phase < s.config 2 + 1

-- The input time, in fractions of an input period.
abbrev pub time : Pll → ℕ
time s = s.oscin_cycles * (s.config 2 + 1) + s.oscin_phase

elapse-driving :
    (s : Pll)
    → IsDriving s
    → elapse s ≡ (
      (s.oscin_phase + divisor s) / (s.config 2 + 1),
      (s.oscin_phase + divisor s) % (s.config 2 + 1),
    )
unfolding elapse
elapse-driving s d = rw d.enabled (
    ap₂ (λ p m. (p / m, p % m)) (omega (arith, divisor-le s, d.phase, d.field))
      (omega (arith, d.field)))

tick-IsDriving : (s : Pll) → IsDriving s → IsDriving (tick s)
unfolding tick
tick-IsDriving s d = rw (elapse-driving s d) (record {
  enabled = d.enabled;
  field = d.field;
  steady = omega (arith, d.steady);
  phase = mod-lt (s.oscin_phase + divisor s) (omega arith);
})

carry : (c q m r t : ℕ) → q * m + r ≡ t → (c + q) * m + r ≡ c * m + t
carry c q m r t h = grind arith

quotient-le : (p m : ℕ) → 0 < m → p / m ≤ p
quotient-le p m h = div-le_self p m

module _ (s : Pll) (d : IsDriving s) (room : s.oscin_cycles + 2 ^ 16 ≤ 2 ^ 64) where
  elapsed-le : (s.oscin_phase + divisor s) / (s.config 2 + 1) < 2 ^ 16
  elapsed-le = omega (
    arith,
    quotient-le (s.oscin_phase + divisor s) (s.config 2 + 1),
    divisor-le s,
    d.phase,
    d.field,
  )

  tick-cycles :
      (tick s).oscin_cycles ≡ s.oscin_cycles + (s.oscin_phase + divisor s) / (s.config 2 + 1)
  unfolding tick
  tick-cycles = rw (elapse-driving s d) (omega (arith, elapsed-le))

  tick-phase : (tick s).oscin_phase ≡ (s.oscin_phase + divisor s) % (s.config 2 + 1)
  unfolding tick
  tick-phase = ap (λ t. t.1) (elapse-driving s d)

  tick-fields : ((tick s).config ≡ s.config) × ((tick s).active_dividers ≡ s.active_dividers)
  unfolding tick
  tick-fields = (refl, rw d.steady refl)

  tick-divisor : divisor (tick s) ≡ divisor s
  tick-divisor = rw (tick-fields.0, tick-fields.1) refl

  tick-time : time (tick s) ≡ time s + divisor s
  tick-time =
      rw (tick-fields.0, tick-cycles, tick-phase)
        (carry s.oscin_cycles _ _ _ _ (div-add-mod' (s.oscin_phase + divisor s) (s.config 2 + 1))
          ∙ omega arith)

one_more : (t d n : ℕ) → t + d + n * d ≡ t + suc n * d
one_more t d n = grind arith

-- A PLL that drives the DSP, with its fields in range, no divider change under way and room in its
-- counter: after `n` DSP cycles it still does, and has counted exactly `n` times the divisor in
-- fractions of an input period, of which the phase is less than one period.
pub phase_exact :
    (n : ℕ) (s : Pll)
    → IsDriving s
    → s.oscin_cycles + n * 2 ^ 16 ≤ 2 ^ 64
    → (time (ticks n s) ≡ time s + n * divisor s) × IsDriving (ticks n s)
unfolding ticks
phase_exact zero s d r = (omega arith, d)
phase_exact (suc n) s d r =
    let room : s.oscin_cycles + 2 ^ 16 ≤ 2 ^ 64 = omega arith in
    let (total, drives) =
      phase_exact n (tick s) (tick-IsDriving s d)
        (omega (arith, tick-cycles s d room, elapsed-le s d room)) in
    (
      total
          ∙ ap₂ (λ t e. t + n * e) (tick-time s d room) (tick-divisor s d room)
          ∙ one_more (time s) (divisor s) n,
      drives,
    )
