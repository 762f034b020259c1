-- ===== src/Loop/Drain.antt =====
-- `cdj_c674x_loop_interrupt_drain`: the iterations already launched run to their end, and no other.
use cdj2000_emulator.Prelude.{
  ℕ, ◌+◌, ◌-◌, ◌*◌, ◌/◌, ◌%◌, ◌^◌, ◌≤◌, ◌<◌, ◌==◌, ltb, leb, Bool, true, ◌&&◌, some, ◌≡◌, ◌≢◌,
  arith, inl, inr, Bool-cases,
}
use native.Mathlib.Nat.{div-add-mod'}
use cdj2000_emulator.Loop.{Loop, u64_max, finite, live_iteration, interrupt_drain}
use cdj2000_emulator.Loop.Walk.{due}
use cdj2000_emulator.Loop.Schedule.{IsFormed, product_bound}

whole : (c ii : ℕ) → c % ii ≡ 0 → (c / ii) * ii ≡ c
whole c ii z = omega (arith, div-add-mod' c ii)

drain_wrap :
    (n l ii : ℕ) → ii ≤ 16 → l ≤ 48 → n < 2 ^ 32 → ((n - 1) * ii + l) % 2 ^ 64 ≡ (n - 1) * ii + l
drain_wrap n l ii p q h = omega (arith, product_bound n ii p h)

end_small : (n l ii : ℕ) → ii ≤ 16 → l ≤ 48 → n < 2 ^ 32 → (n - 1) * ii + l ≢ u64_max
end_small n l ii p q h = omega (arith, product_bound n ii p h)

-- An accepted drain keeps the invariant.
pub interrupt_drain-IsFormed :
    (l : Loop) {l' : Loop} → IsFormed l → interrupt_drain l ≡ some l' → IsFormed l'
unfolding interrupt_drain
interrupt_drain-IsFormed l v e =
    ground (arith, whole l.cycle l.ii, drain_wrap (l.cycle / l.ii) l.length l.ii)

drain_fields :
    (l : Loop) {l' : Loop}
    → IsFormed l
    → interrupt_drain l ≡ some l'
    → (l'.ii ≡ l.ii) × (l'.iterations ≡ l.cycle / l.ii) × (finite l' ≡ true)
unfolding interrupt_drain
drain_fields l v e =
    ground
      (arith, drain_wrap (l.cycle / l.ii) l.length l.ii, end_small (l.cycle / l.ii) l.length l.ii)

live_cut :
    (l l' : Loop) (k : ℕ)
    → (finite l ≡ true → l.cycle / l.ii ≤ l.iterations)
    → l'.iterations ≡ l.cycle / l.ii
    → finite l' ≡ true
    → live_iteration l' k ≡ (live_iteration l k && ltb k (l.cycle / l.ii))
live_cut l l' k h i f = rw f (elim (Bool-cases (finite l)) [
  | inl counted ↦ rw counted (ground (arith, h counted))
  | inr open_ended ↦ rw open_ended (ground arith)
])

and_cut : (a b c d : Bool) → (a && b && (c && d)) ≡ ((a && b && c) && d)
and_cut a b c d = ground arith

-- After an accepted drain of a well-formed buffer that has launched no more iterations than are
-- counted, if they are, an entry is due in a cycle exactly if it was due before the drain and its
-- iteration was launched before the drain's cycle.
pub interrupt_drain-due :
    (allow : ℕ → Bool) (l : Loop) {l' : Loop} (c o : ℕ)
    → IsFormed l
    → (finite l ≡ true → l.cycle / l.ii ≤ l.iterations)
    → interrupt_drain l ≡ some l'
    → due allow l' c (live_iteration l') o
      ≡ (due allow l c (live_iteration l) o && ltb ((c - o) / l.ii) (l.cycle / l.ii))
interrupt_drain-due allow l {l'} c o v h e =
    let (same, launched, counted) = drain_fields l v e in
    rw same (
      rw (live_cut l l' ((c - o) / l.ii) h launched counted)
        (and_cut (leb o c) ((c - o) % l.ii == 0) (live_iteration l ((c - o) / l.ii)) _))
