-- ===== src/Timer/Latch.antt =====
-- Reading the two halves of the 64-bit counter one after the other gives one value.
use cdj2000_emulator.Prelude.{ℕ, zero, suc, true, false, ◌≡◌, refl, arith}
use cdj2000_emulator.Timer.{Timer, mode, gate, tick_chained, tick_64, tick_one, tick_timer}
use cdj2000_emulator.Timer.Registers.{read_tim12, read_tim34}

-- The shadow of TIM34 and the word that selects the mode.
abbrev Kept : Timer → Timer → Type 0
Kept s s' = (s'.tim34_shadow ≡ s.tim34_shadow) × (s'.tim34_shadow_valid ≡ s.tim34_shadow_valid)

tick_one-Kept : (s : Timer) → Kept s (tick_one s).1
unfolding tick_one tick_chained tick_64
tick_one-Kept s = ground arith

gate-Kept : (o st e outputs : ℕ) (s : Timer) → Kept s (gate o st e (outputs, s)).1
unfolding gate
gate-Kept o st e outputs s = ground arith

tick_timer-Kept : (s : Timer) → Kept s (tick_timer s).1
unfolding tick_timer
tick_timer-Kept s = ground (arith, tick_one-Kept s)

pub ticks : ℕ → Timer → Timer
ticks zero s = s
ticks (suc n) s = ticks n (tick_timer s).1

ticks-Kept : (n : ℕ) (s : Timer) → Kept s (ticks n s)
unfolding ticks
ticks-Kept zero s = (refl, refl)
ticks-Kept (suc n) s = ground (arith, tick_timer-Kept s, ticks-Kept n (tick_timer s).1)

-- In the 64-bit mode a read of TIM12, any number of ticks and a read of TIM34 return the two halves
-- of the counter as it was at the first read.
pub read_atomic :
    (n : ℕ) (s : Timer)
    → mode s ≡ 0
    → let (low, s') = read_tim12 s in
      let (high, s'') = read_tim34 (ticks n s') in
      (low ≡ s.tim12) × (high ≡ s.tim34) × (s''.tim34_shadow_valid ≡ false)
unfolding read_tim12 read_tim34
read_atomic n s m =
    ground (arith, ticks-Kept n (record s { tim34_shadow = s.tim34; tim34_shadow_valid = true }))
