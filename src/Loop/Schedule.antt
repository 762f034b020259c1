-- ===== src/Loop/Schedule.antt =====
-- What a cycle of the loop buffer issues, and that its end is where the schedule ends.
use cdj2000_emulator.Prelude.{
  ℕ, ◌+◌, ◌-◌, ◌*◌, ◌/◌, ◌%◌, ◌^◌, ◌≤◌, ◌<◌, ◌==◌, ltb, leb, if◌then◌else◌, Bool, true, false, ◌&&◌,
  ◌||◌, none, some, List, [], ◌≡◌, arith, ap, ◌∙◌, le→leb, ◌⊎◌,
}
use native.Mathlib.Nat.{zero-add, div-add-mod'}
use cdj2000_emulator.Prelude.Arrays.{update}
use cdj2000_emulator.Loop.{
  Loop, copy_from, Issued, u64_max, size, init, seal, load, loading_end, finite, live_iteration,
  tick, issue_filtered,
}
use cdj2000_emulator.Loop.Walk.{due, buffered, none_due, walk-buffered}

-- The cycle after the last operation of a counted loop.
abbrev pub span : Loop → ℕ
span l = if l.iterations == 0 then loading_end l else (l.iterations - 1) * l.ii + l.length

-- What the operations keep true of a loop buffer.
pub record IsFormed (l : Loop) : Type 0 where
  pub interval : 0 < l.ii
  pub interval_cap : l.ii ≤ 16
  pub length_cap : l.length ≤ 48
  pub word : l.iterations < 2 ^ 32
  pub loading : l.sealed ≡ false → l.length ≤ l.cycle + 1
  pub loaded : l.sealed ≡ true → 0 < l.length
  pub ends :
      l.sealed ≡ true
      → (l.end_cycle ≡ span l) ⊎ ((l.predicate_loop ≡ true) × (l.end_cycle ≡ u64_max))
  pub posts : l.sealed ≡ true → l.post_cycle ≤ l.end_cycle

-- An accepted `cdj_c674x_loop_init` gives a buffer that satisfies the invariant.
pub init-IsFormed :
    (ii iterations : ℕ) {l : Loop} → iterations < 2 ^ 32 → init ii iterations ≡ some l → IsFormed l
unfolding init
init-IsFormed ii iterations h e = ground arith

-- The products of a short interval do not wrap.
pub product_bound : (n ii : ℕ) → ii ≤ 16 → n < 2 ^ 32 → (n - 1) * ii ≤ 2 ^ 36
product_bound n ii p q = grind arith

span_wrap :
    (l : Loop)
    → l.ii ≤ 16
    → l.length ≤ 48
    → l.iterations < 2 ^ 32
    → ((l.iterations - 1) * l.ii + l.length) % 2 ^ 64 ≡ (l.iterations - 1) * l.ii + l.length
span_wrap l p q r = omega (arith, product_bound l.iterations l.ii p r)

pub seal-ends :
    (functional : Bool) (l : Loop) (delay : ℕ)
    → 0 < l.ii
    → l.ii ≤ 16
    → 0 < l.length
    → l.length ≤ 48
    → l.iterations < 2 ^ 32
    → IsFormed (seal functional l delay)
unfolding seal
seal-ends functional l delay p q r s t = ground (arith, span_wrap l q s t)

abbrev written : Loop → List ℕ → Loop
written l packet = record l {
  tags = update l.tags l.cycle (copy_from 0 packet (l.tags l.cycle));
  count = update l.count l.cycle (size packet);
  length = l.cycle + 1;
}

-- An accepted packet, the last one included, keeps the invariant: the ends are computed without
-- wrapping, and the fetch of what follows is permitted no later than the end.
pub load-IsFormed :
    (functional : Bool) (l : Loop) (packet : List ℕ) (finish : Bool) (delay : ℕ) {l' : Loop}
    → IsFormed l
    → load functional l packet finish delay ≡ some l'
    → IsFormed l'
unfolding load
load-IsFormed functional l packet finish delay v e =
    ground (arith, seal-ends functional (written l packet) delay)

pub issue_filtered-IsFormed :
    (allow : ℕ → Bool) (l : Loop) {i : Issued}
    → IsFormed l
    → issue_filtered allow l ≡ some i
    → IsFormed i.loop
unfolding issue_filtered
issue_filtered-IsFormed allow l v e = ground arith

-- Of a well-formed buffer that is sealed or still loading, `cdj_c674x_loop_issue_filtered` issues
-- exactly the allowed tags of the entries that are due at the cycle, in the order of the buffer, and
-- refuses exactly when these are more than eight; the two flags compare the cycle with the ends,
-- and the cycle advances.
pub issue_filtered_lem :
    (allow : ℕ → Bool) (l : Loop)
    → IsFormed l
    → (l.sealed || ltb l.cycle 48) ≡ true
    → let tags = buffered allow l l.cycle (live_iteration l) l.length 0 in
      issue_filtered allow l ≡ (
        if ltb 8 (size tags)
        then none
        else some (record {
          issued = tags;
          post_fetch = l.sealed && leb l.post_cycle l.cycle;
          drained = l.sealed && leb l.end_cycle l.cycle;
          loop = tick l;
        }))
unfolding issue_filtered
issue_filtered_lem allow l v h =
    ground (arith, walk-buffered allow l l.cycle (live_iteration l) v.interval v.length_cap)

above : (q n ii : ℕ) → n * ii < q * ii → n < q
above q n ii h = grind arith

end-span : (l : Loop) → IsFormed l → (l.sealed && finite l) ≡ true → l.end_cycle ≡ span l
end-span l v h = ground arith

not_live_over :
    (l : Loop) (o : ℕ)
    → IsFormed l
    → l.end_cycle ≡ span l
    → o < l.length
    → l.end_cycle ≤ l.cycle
    → (l.cycle - o) % l.ii ≡ 0
    → l.iterations ≤ (l.cycle - o) / l.ii
not_live_over l o v s h e z =
    ground
      (arith, above ((l.cycle - o) / l.ii) (l.iterations - 1) l.ii, div-add-mod' (l.cycle - o) l.ii)

-- At or after its end a sealed buffer whose iterations are counted has nothing due.
module _ (allow : ℕ → Bool) (l : Loop) (v : IsFormed l)
    (counted : (l.sealed && finite l) ≡ true) where
  over :
      (o : ℕ)
      → o < l.length
      → l.end_cycle ≤ l.cycle
      → due allow l l.cycle (live_iteration l) o ≡ false
  over o h e = ground (arith, not_live_over l o v (end-span l v counted) h e)

  drained_empty :
      l.end_cycle ≤ l.cycle → buffered allow l l.cycle (live_iteration l) l.length 0 ≡ []
  drained_empty e =
      none_due allow l l.cycle (live_iteration l) l.length 0
        (λ i k. ap (λ o. due allow l l.cycle (live_iteration l) o) (zero-add i) ∙ over i k e)

posted : (l : Loop) → IsFormed l → (l.sealed && finite l) ≡ true → l.post_cycle ≤ l.end_cycle
posted l v counted = ground arith

-- From its end on, a well-formed sealed buffer whose iterations are counted issues no tags, permits
-- the fetch of what follows the loop, and reports that it is drained.
pub drained_issue :
    (allow : ℕ → Bool) (l : Loop)
    → IsFormed l
    → (l.sealed && finite l) ≡ true
    → l.end_cycle ≤ l.cycle
    → issue_filtered allow l
      ≡ some (record { issued = []; post_fetch = true; drained = true; loop = tick l })
drained_issue allow l v counted e =
    issue_filtered_lem allow l v (ground arith)
    ∙ rw (drained_empty allow l v counted e)
        (ground (arith, posted l v counted, le→leb l.end_cycle l.cycle e))
