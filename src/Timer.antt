-- ===== src/Timer.antt =====
-- emulator/qemu/cdj_c6747_timer.h and .c: the two 64-bit timers, counted by one tick at a time. The
-- reads and writes of their registers are in Timer/Registers.
pub mod Registers
pub mod Period
pub mod Status
pub mod Latch
mod Tests
use Prim.Native.Nat.{bit_and, bit_or}
use cdj2000_emulator.Prelude.{
  ℕ, zero, suc, ◌+◌, ◌-◌, ◌*◌, ◌/◌, ◌%◌, ◌^◌, ◌==◌, ◌!=◌, ltb, leb, if◌then◌else◌, Bool, true,
  false, not, ◌&&◌, ◌||◌, Option, none, some,
}
use cdj2000_emulator.Prelude.Arrays.{Array, update}
use cdj2000_emulator.Prelude.Word.{has, not32, u32, u64}

-- `CdjC6747Timer`
pub record Timer : Type 0 where
  pub emumgt : ℕ
  pub gpintgpen : ℕ
  pub gpdatgpdir : ℕ
  pub tim12 : ℕ
  pub tim34 : ℕ
  pub tim34_shadow : ℕ
  pub prd12 : ℕ
  pub prd34 : ℕ
  pub tcr : ℕ
  pub tgcr : ℕ
  pub wdtcr : ℕ
  pub rel12 : ℕ
  pub rel34 : ℕ
  pub cap12 : ℕ
  pub cap34 : ℕ
  pub intctlstat : ℕ
  pub compare_at : Array ℕ
  pub tim34_shadow_valid : Bool

-- `cdj_c6747_timers_reset`, of one timer.
pub reset : Timer
reset = record {
  emumgt = 0;
  gpintgpen = 0;
  gpdatgpdir = 0;
  tim12 = 0;
  tim34 = 0;
  tim34_shadow = 0;
  prd12 = 0;
  prd34 = 0;
  tcr = 0;
  tgcr = 0;
  wdtcr = 0;
  rel12 = 0;
  rel34 = 0;
  cap12 = 0;
  cap34 = 0;
  intctlstat = 0;
  compare_at = λ n. 0;
  tim34_shadow_valid = false;
}

-- TGCR's TIMMODE, and TCR's ENAMODE12 and ENAMODE34.
abbrev pub mode : Timer → ℕ
mode s = bit_and (s.tgcr / 2 ^ 2) 3

abbrev pub enamode12 : Timer → ℕ
enamode12 s = bit_and (s.tcr / 2 ^ 6) 3

abbrev pub enamode34 : Timer → ℕ
enamode34 s = bit_and (s.tcr / 2 ^ 22) 3

abbrev pub half_12 : ℕ
half_12 = 0

abbrev pub half_34 : ℕ
half_34 = 1

-- `cdj_c6747_timer_input_hz`: numerator and denominator.
pub input_hz : Timer → ℕ → ℕ → Option (ℕ × ℕ)
input_hz s auxclk_hz half =
    let dual_unchained = mode s == 1 in
    if auxclk_hz == 0 || ltb half_34 half
    then none
    else if has s.tcr (2 ^ 8) && (half == half_12 || not dual_unchained)
    then none
    else if half == half_12
    then some (auxclk_hz, 1)
    else if not dual_unchained
    then none
    else some (auxclk_hz, bit_and (s.tgcr / 2 ^ 8) 15 + 1)

pub input_clock_known : Timer → ℕ → Bool
unfolding input_hz
input_clock_known s half =
    if has s.tcr (2 ^ 9) && (half == half_12 || mode s != 1)
    then false
    else elim (input_hz s 1 half) [ none ↦ false | some rate ↦ true ]

-- `advance`: whether the period matches, the counter and the period.
pub advance : ℕ → ℕ → ℕ → ℕ → Bool × ℕ × ℕ
advance counter period reload enamode =
    if enamode == 0 || period == 0
    then (false, counter, period)
    else if counter == period
    then (if enamode == 1
        then (false, counter, period)
        else (false, 0, if enamode == 3 then reload else period))
    else (u64 (counter + 1) == period, u64 (counter + 1), period)

-- The loop of `compare_matches` over the compare registers.
pub matches_from : Timer → ℕ → ℕ → ℕ → ℕ
matches_from s zero n fired = fired
matches_from s (suc rounds) n fired =
    matches_from s rounds (n + 1) (
      if s.compare_at n != 0 && s.compare_at n == s.tim12
      then bit_or fired (2 ^ (2 + n))
      else fired)

pub compare_matches : Timer → ℕ
unfolding matches_from
compare_matches s = if not (has s.tgcr (2 ^ 4)) || mode s != 1 then 0 else matches_from s 8 0 0

-- The bits of the two period interrupts among the outputs.
abbrev pub tint12 : ℕ
tint12 = 2 ^ 0

abbrev pub tint34 : ℕ
tint34 = 2 ^ 1

-- Timer 1:2 of the dual 32-bit mode.
pub tick_12 : Timer → ℕ × Timer
unfolding input_clock_known compare_matches
tick_12 s =
    if has s.tgcr 1 && input_clock_known s half_12
    then (let (matched, counter, period) = advance s.tim12 s.prd12 s.rel12 (enamode12 s) in
        let s' = record s { tim12 = u32 counter; prd12 = u32 period } in
        let fired : ℕ = if matched then tint12 else 0 in
        (if s'.tim12 != s.tim12 then bit_or fired (compare_matches s') else fired, s'))
    else (0, s)

-- Timer 3:4 of the dual 32-bit mode, behind its prescaler.
pub tick_34 : Timer → ℕ × Timer
unfolding input_clock_known
tick_34 s =
    if has s.tgcr 2 && enamode34 s != 0 && input_clock_known s half_34
    then (let tddr = bit_and (s.tgcr / 2 ^ 12) 15 in
        if tddr == bit_and (s.tgcr / 2 ^ 8) 15
        then (let (matched, counter, period) = advance s.tim34 s.prd34 s.rel34 (enamode34 s) in
            (
              if matched then tint34 else 0,
              record s {
                tgcr = bit_and s.tgcr (not32 0xf000);
                tim34 = u32 counter;
                prd34 = u32 period;
              },
            ))
        else (0, record s { tgcr = bit_or (bit_and s.tgcr (not32 0xf000)) ((tddr + 1) * 2 ^ 12) }))
    else (0, s)

-- The chained mode: TIM34 is a prescaler of TIM12.
pub tick_chained : Timer → ℕ × Timer
tick_chained s =
    if s.tim34 == s.prd34
    then (let reload_prd34 = enamode12 s == 3 && s.prd12 != 0 && s.tim12 == s.prd12 in
        let (matched, counter, period) = advance s.tim12 s.prd12 s.rel12 (enamode12 s) in
        (
          if matched then tint12 else 0,
          record s {
            tim34 = 0;
            tim12 = u32 counter;
            prd12 = u32 period;
            prd34 = if reload_prd34 then s.rel34 else s.prd34;
          },
        ))
    else (0, record s { tim34 = u32 (s.tim34 + 1) })

-- The 64-bit mode. The words of a pair do not overlap, so `|` is their sum.
abbrev pub pair : ℕ → ℕ → ℕ
pair high low = high * 2 ^ 32 + low

pub tick_64 : Timer → ℕ × Timer
tick_64 s =
    let (matched, counter, period) =
      advance (pair s.tim34 s.tim12) (pair s.prd34 s.prd12) (pair s.rel34 s.rel12) (enamode12 s) in
    (
      if matched then tint12 else 0,
      record s {
        tim12 = u32 counter;
        tim34 = u32 (counter / 2 ^ 32);
        prd12 = u32 period;
        prd34 = u32 (period / 2 ^ 32);
      },
    )

-- `tick_one`
pub tick_one : Timer → ℕ × Timer
unfolding tick_12 tick_34
tick_one s =
    if mode s == 2
    then (0, s)
    else if mode s == 1
    then (let (fired, s') = tick_12 s in
        let (fired', s'') = tick_34 s' in (bit_or fired fired', s''))
    else if bit_and s.tgcr 3 != 3 || not (input_clock_known s half_12) || enamode12 s == 0
    then (0, s)
    else if mode s == 3
    then tick_chained s
    else tick_64 s

-- One period output: its status bit is latched, and the output passes only if it is enabled.
pub gate : ℕ → ℕ → ℕ → ℕ × Timer → ℕ × Timer
gate output status enable (outputs, s) =
    if has outputs output
    then (let s' = record s { intctlstat = bit_or s.intctlstat status } in
        (if has s'.intctlstat enable then outputs else bit_and outputs (not32 output), s'))
    else (outputs, s)

-- The body of the loop of `cdj_c6747_timers_tick`: what the timer adds to the result, and the timer.
pub tick_timer : Timer → ℕ × Timer
unfolding gate
tick_timer s =
    if not (has s.tgcr 3)
    then (0, s)
    else let (outputs, s') = tick_one s in
      if outputs == 0
      then (0, s')
      else gate tint34 (2 ^ 17) (2 ^ 16) (gate tint12 (2 ^ 1) 1 (outputs, s'))

-- `cdj_c6747_timers_tick`
pub timers_tick : Timer → Timer → ℕ × Timer × Timer
timers_tick a b =
    let (outputs, a') = tick_timer a in
    let (outputs', b') = tick_timer b in (bit_or (u32 outputs) (u32 (outputs' * 2 ^ 10)), a', b')

-- `cdj_c6747_timer_event`: the interrupt-map event of an output bit, 0 for none.
pub timer_event : ℕ → ℕ
timer_event bit =
    if leb 20 bit
    then 0
    else if ltb bit 10
    then (if bit == 0 then 4 else if bit == 1 then 64 else 76 + bit)
    else (if bit == 10 then 40 else if bit == 11 then 48 else 74 + bit)
