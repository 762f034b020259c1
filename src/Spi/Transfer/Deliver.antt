-- ===== src/Spi/Transfer/Deliver.antt =====
-- When the converter has each word: the specification of `cdj_c6747_spi_wm8740_advance` as a list of words
-- with the half ticks that they are due in.
use cdj2000_emulator.Prelude.{
  ℕ, zero, suc, ◌+◌, ◌-◌, ◌%◌, ◌^◌, ◌≤◌, ◌<◌, ◌==◌, ◌!=◌, ltb, leb, if◌then◌else◌, Bool, true,
  false, not, ◌||◌, ◌≡◌, ◌≢◌, refl, arith, ap, ◌∙◌, Option, some, List, [], ◌∷◌, Bool-cases,
  eq-cases, sym, inl, inr,
}
use cdj2000_emulator.Prelude.Cases.{if_keeps}
use cdj2000_emulator.Spi.Dac.{Wm8740, latch}
use cdj2000_emulator.Spi.Dac.Laws.{write-valid_word}
use cdj2000_emulator.Spi.Transfer.{
  Line, Transfer, idle, c2t, shift, t2c, gap, start_transfer, c2t_half_ticks, finish_c2t,
  finish_shift, finish_chip_select, finish_gap, phase_end, rounds, advance,
}
use cdj2000_emulator.Spi.Transfer.Valid.{
  IsReady, active_remaining, queued_word, valid_word, strict_c2t, shift_time, t2c_time,
  phase_end-IsReady, spent-IsReady, active_strict, phase_range,
}

-- Words with the half ticks until the converter latches them, the next one first.
abbrev pub Words : Type 0
Words = List (ℕ × ℕ)

-- Half ticks from the start of a word to its latch: C2T 8, SHIFT 775, T2C 31. The gap takes 4 more.
abbrev pub word_time : ℕ
word_time = 814

abbrev pub gap_time : ℕ
gap_time = 4

-- The waiting word, which starts `n` half ticks from now.
pub waiting : Transfer → ℕ → Words
waiting t n = if t.queued_valid != 0 then (n + word_time, t.queued_control) ∷ [] else []

-- The half ticks until the active word is latched; those until the gap's end.
pub latch_in : Transfer → ℕ
latch_in t =
    let n = t.half_ticks_remaining in
    if t.phase == c2t then n + 775 + 31 else if t.phase == shift then n + 31 else n

-- The words that a transfer still owes the converter.
unfoldable pub pending : Transfer → Words
unfolding waiting latch_in
pending t =
    if t.phase == idle
    then []
    else if t.phase == gap
    then waiting t t.half_ticks_remaining
    else (latch_in t, t.active_control) ∷ waiting t (latch_in t + gap_time)

-- The half ticks until the port is idle.
unfoldable pub busy : Transfer → ℕ
unfolding latch_in
busy t =
    if t.phase == idle
    then 0
    else (if t.phase == gap then t.half_ticks_remaining else latch_in t + gap_time)
      + (if t.queued_valid != 0 then word_time + gap_time else 0)

-- The converter after `n` half ticks, and the words that are left.
unfoldable pub delivered : ℕ → Words → Wm8740 → Wm8740
delivered n [] d = d
delivered n ((due, word) ∷ ws) d = delivered n ws (if leb due n then latch d (word % 2 ^ 16) else d)

pub later : ℕ → Words → Words
later n [] = []
later n ((due, word) ∷ ws) = if leb due n then later n ws else (due - n, word) ∷ later n ws

-- A line that has spent `n` half ticks from another.
pub record Runs (n : ℕ) (l l' : Line) : Type 0 where
  pub converter : l'.dac ≡ delivered n (pending l.transfer) l.dac
  pub left : pending l'.transfer ≡ later n (pending l.transfer)
  pub time : busy l'.transfer ≡ busy l.transfer - n

-- What `n` half ticks make of a line is what `n - m` make of the line at the end of a phase of `m`.
abbrev Follows : ℕ → Line → Line → Type 0
Follows n l l' =
    let m = l.transfer.half_ticks_remaining in
    (delivered n (pending l.transfer) l.dac ≡ delivered (n - m) (pending l'.transfer) l'.dac)
    × (later n (pending l.transfer) ≡ later (n - m) (pending l'.transfer))
    × (busy l.transfer ≡ busy l'.transfer + m)

module _ (n : ℕ) (l : Line) (ready : IsReady l) (h : l.transfer.half_ticks_remaining ≤ n) where
  c2t-Follows : l.transfer.phase ≡ c2t → Follows n l (finish_c2t l)
  unfolding pending busy delivered later finish_c2t
  c2t-Follows p = ground (arith, shift_time l.transfer ready.1 (omega arith) (omega arith))

  shift-Follows : l.transfer.phase ≡ shift → Follows n l (finish_shift l)
  unfolding pending busy delivered later finish_shift
  shift-Follows p = ground (arith, t2c_time l.transfer ready.1 (omega arith) (omega arith))

  t2c-Follows : l.transfer.phase ≡ t2c → Follows n l (finish_chip_select l).1
  unfolding pending busy delivered later finish_chip_select
  t2c-Follows p =
      rw
        (write-valid_word l.dac l.transfer.active_control
          (active_strict l.transfer ready.1 (omega arith) (omega arith)).0)
        (ground arith)

  gap-Follows : l.transfer.phase ≡ gap → Follows n l (finish_gap l)
  unfolding pending busy delivered later finish_gap start_transfer
  gap-Follows p = elim (Bool-cases (l.transfer.queued_valid != 0)) [
    | inl more ↦ rw more (rw (c2t_time more) (ground (arith, more)))
    | inr last ↦ rw last (ground (arith, last))
  ]
    where
      c2t_time : (l.transfer.queued_valid != 0) ≡ true → c2t_half_ticks l.transfer.queued_delay ≡ 8
      c2t_time more =
          ap c2t_half_ticks
            (valid_word l.transfer.queued_control l.transfer.queued_format l.transfer.queued_delay
              (queued_word l.transfer ready.1 (ground (arith, more)))).2
          ∙ strict_c2t

phase_end-Follows :
    (n : ℕ) (l : Line)
    → IsReady l
    → l.transfer.half_ticks_remaining ≤ n
    → l.transfer.phase ≢ idle
    → Follows n l (phase_end l).1
unfolding phase_end
phase_end-Follows n l ready h a =
    if_keeps P (l.transfer.phase == c2t) (λ p. c2t-Follows n l ready h (ground (arith, p)))
      (λ p.
        if_keeps P (l.transfer.phase == shift) (λ q. shift-Follows n l ready h (ground (arith, q)))
          (λ q.
            if_keeps P (l.transfer.phase == t2c) (λ r. t2c-Follows n l ready h (ground (arith, r)))
              (λ r.
                if_keeps P (l.transfer.phase == gap)
                  (λ g. gap-Follows n l ready h (ground (arith, g)))
                  (λ g. absurd (ground (arith, phase_range l.transfer ready.1))))))
  where
    P : Bool × Line → Type 0
    P x = Follows n l x.1

-- The line after a part of a phase.
abbrev pub spent : ℕ → Line → Line
spent n l = record l {
  transfer = record l.transfer { half_ticks_remaining = l.transfer.half_ticks_remaining - n };
}

spent-Runs :
    (n : ℕ) (l : Line)
    → n < l.transfer.half_ticks_remaining
    → l.transfer.phase ≢ idle
    → Runs n l (spent n l)
unfolding pending busy delivered later waiting latch_in
spent-Runs n l h a = record { converter = ground arith; left = ground arith; time = ground arith }

idle-Runs : (n : ℕ) (l : Line) → l.transfer.phase ≡ idle → Runs n l l
unfolding pending busy delivered later
idle-Runs n l p = record { converter = ground arith; left = ground arith; time = ground arith }

still-Runs :
    (l : Line) → (l.transfer.phase ≢ idle → 0 < l.transfer.half_ticks_remaining) → Runs 0 l l
unfolding pending busy delivered later waiting latch_in
still-Runs l h = elim (eq-cases l.transfer.phase idle) [
  | inl p ↦ idle-Runs 0 l p
  | inr a ↦
      let m = h a in record { converter = ground arith; left = ground arith; time = ground arith }
]

-- The run of a line that is accepted: it ends, not at fault, in a line that is accepted.
abbrev pub Result : ℕ → Line → Option (Bool × Line) → Type 0
Result n l r = (l' : Line) × (r ≡ some (true, l')) × IsReady l' × Runs n l l'

joined :
    (n : ℕ) (l m : Line) (r : Option (Bool × Line))
    → l.transfer.half_ticks_remaining ≤ n
    → Follows n l m
    → Result (n - l.transfer.half_ticks_remaining) m r
    → Result n l r
joined n l m r h (a, b, c) (l', e, ready, runs) = (
  l',
  e,
  ready,
  record {
    converter = runs.converter ∙ sym a;
    left = runs.left ∙ sym b;
    time = omega (arith, c, runs.time);
  },
)

pub rounds_lem : (fuel n : ℕ) (l : Line) → IsReady l → n < fuel → Result n l (rounds fuel n l)
unfolding rounds
rounds_lem zero n l ready h = elim h [ ]
rounds_lem (suc fuel) n l ready h =
    let rem = l.transfer.half_ticks_remaining in
    if_keeps (Result n l) (n == 0 || l.transfer.phase == idle)
      (λ stop. (l, refl, ready, stopped stop))
      (λ going.
        let a = active going in
        if_keeps (Result n l) (ltb n rem)
          (λ part. (
            spent n l,
            refl,
            spent-IsReady l n ready a (ground (arith, part)),
            spent-Runs n l (ground (arith, part)) a,
          ))
          (λ whole.
            let next = phase_end-IsReady l ready a in
            if_keeps (Result n l) (not (phase_end l).0)
              (λ faulty. absurd (ground (arith, next.0, faulty)))
              (λ right.
                joined n l (phase_end l).1 (rounds fuel (n - rem) (phase_end l).1)
                  (ground (arith, whole)) (phase_end-Follows n l ready (ground (arith, whole)) a)
                  (rounds_lem fuel (n - rem) (phase_end l).1 next.1
                    (ground (arith, whole, going, active_remaining l.transfer ready.1 a))))))
  where
    active : (n == 0 || l.transfer.phase == idle) ≡ false → l.transfer.phase ≢ idle
    active e = ground arith

    zero_ticks : (n == 0 || l.transfer.phase == idle) ≡ true → l.transfer.phase ≢ idle → n ≡ 0
    zero_ticks e a = ground arith

    stopped : (n == 0 || l.transfer.phase == idle) ≡ true → Runs n l l
    stopped e = elim (eq-cases l.transfer.phase idle) [
      | inl p ↦ idle-Runs n l p
      | inr a ↦ rw (zero_ticks e a) (still-Runs l (active_remaining l.transfer ready.1))
    ]

pub advance-rounds : (l : Line) (n : ℕ) → IsReady l → advance l n ≡ rounds (n + 1) n l
unfolding advance
advance-rounds l n (d, v, f) = ground arith

-- The run of `advance` on a line that it accepts.
pub advance_lem : (l : Line) (n : ℕ) → IsReady l → Result n l (advance l n)
advance_lem l n ready =
    let run = rounds_lem (n + 1) n l ready (omega arith) in
    (run.0, advance-rounds l n ready ∙ run.1, run.2, run.3)
