-- ===== src/Spi/Transfer/Timed/Clock.antt =====
-- The CPU's clock and the port's half ticks: while the PLL is settled, one of each.
use cdj2000_emulator.Prelude.{
  ℕ, zero, suc, ◌+◌, ◌-◌, ◌*◌, ◌/◌, ◌%◌, ◌≤◌, ◌<◌, ◌==◌, ltb, Bool, true, not, ◌||◌, ◌≡◌, refl,
  arith, ap, ◌∙◌, sym, Option, some, none,
}
use native.Mathlib.Nat.{add-div_right, add-mod_right, div-eq_of_lt, mod-eq_of_lt}
use mathlib.Core.Path.{ap₂, subst}
use cdj2000_emulator.Prelude.Bits.{bit_and-mask}
use cdj2000_emulator.Prelude.Cases.{if_keeps}
use cdj2000_emulator.Prelude.Word.{u32}
use cdj2000_emulator.Pll.{Pll}
use cdj2000_emulator.Spi.Transfer.{
  Line, idle, start_transfer, finish_c2t, finish_shift, finish_chip_select, finish_gap, phase_end,
  rounds, advance,
}
use cdj2000_emulator.Spi.Transfer.Valid.{IsReady}
use cdj2000_emulator.Spi.Transfer.Deliver.{advance-rounds}
use cdj2000_emulator.Spi.Transfer.Split.{advance-add, rounds_none}
use cdj2000_emulator.Spi.Transfer.Timed.{spi_divider, clock_ready, faulted, core_tick}

-- The clock's phase is the board's: no round touches it.
phase_end-clock : (l : Line) → (phase_end l).1.transfer.clock_phase ≡ l.transfer.clock_phase
unfolding phase_end finish_c2t finish_shift finish_chip_select finish_gap start_transfer
phase_end-clock l = ground arith

abbrev SameClock : ℕ → Option (Bool × Line) → Type 0
SameClock c none = Unit
SameClock c (some (ok, m)) = m.transfer.clock_phase ≡ c

rounds-clock : (f n c : ℕ) (l : Line) → l.transfer.clock_phase ≡ c → SameClock c (rounds f n l)
unfolding rounds
rounds-clock zero n c l e = tt
rounds-clock (suc f) n c l e =
    if_keeps (SameClock c) (n == 0 || l.transfer.phase == idle) (λ _. e)
      (λ _.
        if_keeps (SameClock c) (ltb n l.transfer.half_ticks_remaining) (λ _. e)
          (λ _.
            if_keeps (SameClock c) (not (phase_end l).0) (λ _. phase_end-clock l ∙ e)
              (λ _.
                rounds-clock f (n - l.transfer.half_ticks_remaining) c (phase_end l).1
                  (phase_end-clock l ∙ e))))

divider_range : (v : ℕ) → (0 < spi_divider v) × (spi_divider v ≤ 32)
unfolding spi_divider
divider_range v = ground (arith, bit_and-mask 5 v)

clock_ratio :
    (pll : Pll)
    → clock_ready pll ≡ true
    → spi_divider (pll.active_dividers 1) ≡ 2 * spi_divider (pll.active_dividers 0)
unfolding clock_ready
clock_ratio pll h = ground arith

-- What one tick adds to the phase.
tick_sum : (p d : ℕ) → p < d → d ≤ 32 → (u32 (p + d) / d ≡ 1) × (u32 (p + d) % d ≡ p)
tick_sum p d h k = (
  ap (λ (n : ℕ). n / d) unwrapped
      ∙ add-div_right p (omega arith)
      ∙ ap (λ (n : ℕ). n + 1) (div-eq_of_lt h),
  ap (λ (n : ℕ). n % d) unwrapped ∙ add-mod_right p d ∙ mod-eq_of_lt h,
)
  where
    unwrapped : u32 (p + d) ≡ p + d
    unwrapped = omega arith

module _ (pll : Pll) (l : Line) (settled : clock_ready pll ≡ true) (fine : l.transfer.fault ≡ 0)
    (inside : l.transfer.clock_phase < spi_divider (pll.active_dividers 1)) where
  tick-advance : core_tick pll l ≡ faulted (advance l 1)
  unfolding core_tick
  tick-advance =
      let d = spi_divider (pll.active_dividers 1) in
      let sum =
        tick_sum l.transfer.clock_phase d inside (divider_range (pll.active_dividers 1)).1 in
      let doubled : u32 (l.transfer.clock_phase + 2 * spi_divider (pll.active_dividers 0))
          ≡ u32 (l.transfer.clock_phase + d) =
        ap (λ (n : ℕ). u32 (l.transfer.clock_phase + n)) (sym (clock_ratio pll settled)) in
      unguarded
      ∙ ap₂
          (λ (c n : ℕ).
            faulted (advance (record l { transfer = record l.transfer { clock_phase = c } }) n))
          (ap (λ (n : ℕ). n % d) doubled ∙ sum.1) (ap (λ (n : ℕ). n / d) doubled ∙ sum.0)
    where
      unguarded : core_tick pll l ≡ (
          let d = spi_divider (pll.active_dividers 1) in
          let total = u32 (l.transfer.clock_phase + 2 * spi_divider (pll.active_dividers 0)) in
          faulted (
            advance
              (record l { transfer = record l.transfer { clock_phase = total % d } })
              (total / d)))
      unguarded = ground (arith, settled)

-- `n` ticks of the CPU's clock.
pub ticks : ℕ → Pll → Line → Option Line
unfolding core_tick
ticks zero pll l = some l
ticks (suc n) pll l = elim (core_tick pll l) [ none ↦ none | some m ↦ ticks n pll m ]

carry : ℕ → Pll → Option Line → Option Line
carry n pll r = elim r [ none ↦ none | some m ↦ ticks n pll m ]

no_ticks : (l : Line) → IsReady l → advance l 0 ≡ some (true, l)
no_ticks l ready = advance-rounds l 0 ready ∙ rounds_none 0 0 l refl

clock-kept :
    (l m : Line) (n : ℕ)
    → IsReady l
    → advance l n ≡ some (true, m)
    → m.transfer.clock_phase ≡ l.transfer.clock_phase
clock-kept l m n ready e =
    subst (SameClock l.transfer.clock_phase) (sym (advance-rounds l n ready) ∙ e)
      (rounds-clock (n + 1) n l.transfer.clock_phase l refl)

-- While the PLL's dividers are settled and enabled with SYSCLK2 at half the CPU's clock, and the port's phase lies
-- within a period, `n` ticks of the CPU's clock move an accepted line by `n` half ticks of the port,
-- and put nothing at fault.
pub ticks_lem :
    (n : ℕ) (pll : Pll) (l : Line)
    → IsReady l
    → clock_ready pll ≡ true
    → l.transfer.clock_phase < spi_divider (pll.active_dividers 1)
    → (m : Line) × (ticks n pll l ≡ some m) × (advance l n ≡ some (true, m))
unfolding ticks carry
ticks_lem zero pll l ready settled inside = (l, refl, no_ticks l ready)
ticks_lem (suc n) pll l ready settled inside =
    let (next, e, ready', adds) = advance-add l 1 n ready in
    let kept = clock-kept l next 1 ready e in
    let ticked : core_tick pll l ≡ some next =
      tick-advance pll l settled ready.2 inside ∙ ap faulted e in
    let rest = ticks_lem n pll next ready' settled (omega (arith, kept, inside)) in
    (
      rest.0,
      ap (carry n pll) ticked ∙ rest.1,
      ap (advance l) {x = suc n} {y = 1 + n} (omega arith) ∙ sym adds ∙ rest.2,
    )
