-- ===== src/Spi/Transfer/Split.antt =====
-- However the half ticks are handed over, `cdj_c6747_spi_wm8740_advance` does the same.
use cdj2000_emulator.Prelude.{
  ℕ, zero, suc, ◌+◌, ◌-◌, ◌≤◌, ◌<◌, ltb, Bool, true, ◌≡◌, ◌≢◌, refl, arith, ap, ◌∙◌, sym, Option,
  some, Bool-cases, eq-cases, inl, inr, ltb→lt,
}
use cdj2000_emulator.Spi.Transfer.{
  Line, idle, start_transfer, finish_c2t, finish_shift, finish_chip_select, finish_gap, phase_end,
  rounds, advance,
}
use cdj2000_emulator.Spi.Transfer.Valid.{
  IsReady, active_remaining, phase_end-IsReady, spent-IsReady,
}
use cdj2000_emulator.Spi.Transfer.Deliver.{spent, advance_lem, advance-rounds}

-- The end of a phase does not depend on the time that was left of it.
phase_end-spent : (n : ℕ) (l : Line) → phase_end (spent n l) ≡ phase_end l
unfolding phase_end finish_c2t finish_shift finish_chip_select finish_gap start_transfer
phase_end-spent n l = refl

-- The three ways through a round.
module _ (f n : ℕ) (l : Line) where
  pub rounds_none : n ≡ 0 → rounds (suc f) n l ≡ some (true, l)
  unfolding rounds
  rounds_none e = ground arith

  pub rounds_of_idle : l.transfer.phase ≡ idle → rounds (suc f) n l ≡ some (true, l)
  unfolding rounds
  rounds_of_idle e = ground arith

  rounds_part :
      n ≢ 0
      → l.transfer.phase ≢ idle
      → n < l.transfer.half_ticks_remaining
      → rounds (suc f) n l ≡ some (true, spent n l)
  unfolding rounds
  rounds_part m a h = ground arith

  pub rounds_whole :
      IsReady l
      → l.transfer.phase ≢ idle
      → l.transfer.half_ticks_remaining ≤ n
      → rounds (suc f) n l ≡ rounds f (n - l.transfer.half_ticks_remaining) (phase_end l).1
  unfolding rounds
  rounds_whole ready a h =
      ground (arith, active_remaining l.transfer ready.1 a, (phase_end-IsReady l ready a).0)

-- Fuel beyond what is enough changes nothing.
rounds_fuel : (f g n : ℕ) (l : Line) → IsReady l → n < f → n < g → rounds f n l ≡ rounds g n l
rounds_fuel zero g n l ready h k = elim h [ ]
rounds_fuel (suc f) zero n l ready h k = elim k [ ]
rounds_fuel (suc f) (suc g) n l ready h k = elim (eq-cases l.transfer.phase idle) [
  | inl p ↦ rounds_of_idle f n l p ∙ sym (rounds_of_idle g n l p)
  | inr a ↦
      let some_left = active_remaining l.transfer ready.1 a in
      elim (Bool-cases (ltb n l.transfer.half_ticks_remaining)) [
        | inl part ↦ elim (eq-cases n 0) [
          | inl e ↦ rounds_none f n l e ∙ sym (rounds_none g n l e)
          | inr m ↦
              rounds_part f n l m a (ltb→lt _ _ part)
              ∙ sym (rounds_part g n l m a (ltb→lt _ _ part))
        ]
        | inr whole ↦
            let enough : l.transfer.half_ticks_remaining ≤ n = ground (arith, whole) in
            rounds_whole f n l ready a enough
            ∙ rounds_fuel f g (n - l.transfer.half_ticks_remaining) (phase_end l).1
                (phase_end-IsReady l ready a).1 (omega (arith, some_left, enough))
                (omega (arith, some_left, enough))
            ∙ sym (rounds_whole g n l ready a enough)
      ]
]

spent_again : (a b : ℕ) (l : Line) → spent b (spent a l) ≡ spent (a + b) l
spent_again a b l =
    ap
      (λ (k : ℕ).
        let t = record l.transfer { half_ticks_remaining = k } in record l { transfer = t })
      {x = l.transfer.half_ticks_remaining - a - b} {y = l.transfer.half_ticks_remaining - (a + b)}
      (omega arith)

-- The second part of a time that begins within a phase.
part_split :
    (g k a b : ℕ) (l : Line)
    → IsReady l
    → l.transfer.phase ≢ idle
    → a ≢ 0
    → a < l.transfer.half_ticks_remaining
    → b < suc g
    → a + b < suc k
    → rounds (suc g) b (spent a l) ≡ rounds (suc k) (a + b) l
part_split g k a b l ready p m h hg hk =
    let rem = l.transfer.half_ticks_remaining in
    elim (eq-cases b 0) [
      | inl e ↦
          rounds_none g b (spent a l) e
          ∙ ap (λ (x : Line). some (true, x)) (spent-plus_zero e)
          ∙ sym (rounds_part k (a + b) l (omega arith) p (omega (arith, e, h)))
      | inr e ↦ elim (Bool-cases (ltb (a + b) rem)) [
        | inl part ↦
            let inside : a + b < rem = ltb→lt _ _ part in
            rounds_part g b (spent a l) e p (omega (arith, inside))
            ∙ ap (λ (x : Line). some (true, x)) (spent_again a b l)
            ∙ sym (rounds_part k (a + b) l (omega arith) p inside)
        | inr whole ↦
            let over : rem ≤ a + b = ground (arith, whole) in
            rounds_whole g b (spent a l) (spent-IsReady l a ready p h) p (omega (arith, over))
            ∙ ap (λ (x : Bool × Line). rounds g (b - (rem - a)) x.1) (phase_end-spent a l)
            ∙ rounds_fuel g k (b - (rem - a)) (phase_end l).1 (phase_end-IsReady l ready p).1
                (omega (arith, over)) (omega (arith, over))
            ∙ ap (λ (n : ℕ). rounds k n (phase_end l).1) {x = b - (rem - a)} {y = a + b - rem}
                (omega (arith, over))
            ∙ sym (rounds_whole k (a + b) l ready p over)
      ]
    ]
  where
    spent-plus_zero : b ≡ 0 → spent a l ≡ spent (a + b) l
    spent-plus_zero e = ap (λ (n : ℕ). spent n l) {x = a} {y = a + b} (omega (arith, e))

pub some_line :
    {l m : Line} → ◌≡◌ {A = Option (Bool × Line)} (some (true, l)) (some (true, m)) → l ≡ m
some_line h = cc

rounds_split :
    (f g k a b : ℕ) (l m : Line)
    → IsReady l
    → a < f
    → b < g
    → a + b < k
    → rounds f a l ≡ some (true, m)
    → rounds g b m ≡ rounds k (a + b) l
rounds_split zero g k a b l m ready hf hg hk e = elim hf [ ]
rounds_split (suc f) zero k a b l m ready hf hg hk e = elim hg [ ]
rounds_split (suc f) (suc g) zero a b l m ready hf hg hk e = elim hk [ ]
rounds_split (suc f) (suc g) (suc k) a b l m ready hf hg hk e =
    let rem = l.transfer.half_ticks_remaining in
    elim (eq-cases l.transfer.phase idle) [
      | inl p ↦
          ap (rounds (suc g) b) (sym (some_line (sym (rounds_of_idle f a l p) ∙ e)))
          ∙ rounds_of_idle g b l p
          ∙ sym (rounds_of_idle k (a + b) l p)
      | inr p ↦
          let some_left = active_remaining l.transfer ready.1 p in
          elim (eq-cases a 0) [
            | inl z ↦
                ap (rounds (suc g) b) (sym (some_line (sym (rounds_none f a l z) ∙ e)))
                ∙ ap (λ (n : ℕ). rounds (suc g) n l) {x = b} {y = a + b} (omega (arith, z))
                ∙ rounds_fuel (suc g) (suc k) (a + b) l ready (omega (arith, z, hg)) hk
            | inr z ↦ elim (Bool-cases (ltb a rem)) [
              | inl part ↦
                  ap (rounds (suc g) b)
                    (sym (some_line (sym (rounds_part f a l z p (ltb→lt _ _ part)) ∙ e)))
                  ∙ part_split g k a b l ready p z (ltb→lt _ _ part) hg hk
              | inr whole ↦
                  let over : rem ≤ a = ground (arith, whole) in
                  rounds_split f (suc g) k (a - rem) b (phase_end l).1 m
                    (phase_end-IsReady l ready p).1 (omega (arith, over, some_left)) hg
                    (omega (arith, over, some_left)) (sym (rounds_whole f a l ready p over) ∙ e)
                  ∙ ap (λ (n : ℕ). rounds k n (phase_end l).1) {x = a - rem + b} {y = a + b - rem}
                      (omega (arith, over))
                  ∙ sym (rounds_whole k (a + b) l ready p (omega (arith, over)))
            ]
          ]
    ]

-- A line that `advance` accepts runs for `a` half ticks and then `b` as it does for the sum, to the same
-- port, converter and transfer.
pub advance-add :
    (l : Line) (a b : ℕ)
    → IsReady l
    → (m : Line) × (advance l a ≡ some (true, m)) × IsReady m × (advance m b ≡ advance l (a + b))
advance-add l a b ready =
    let first = advance_lem l a ready in
    (
      first.0,
      first.1,
      first.2,
      advance-rounds first.0 b first.2
          ∙ rounds_split (a + 1) (b + 1) (a + b + 1) a b l first.0 ready (omega arith) (omega arith)
              (omega arith) (sym (advance-rounds l a ready) ∙ first.1)
          ∙ sym (advance-rounds l (a + b) ready),
    )
