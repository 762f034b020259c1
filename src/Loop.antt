-- ===== src/Loop.antt =====
-- emulator/qemu/cdj_c674x_loop.h and .c: the SPLOOP buffer of the C674x core, which issues the
-- instructions of several overlapped iterations at each cycle. An instruction is its tag, a packet
-- the list of its tags; out-parameters are returned, and a refusal returns no state.
pub mod Walk
pub mod Schedule
pub mod Drain
mod Tests
use cdj2000_emulator.Prelude.{
  ℕ, zero, suc, ◌+◌, ◌-◌, ◌*◌, ◌/◌, ◌%◌, ◌^◌, ◌==◌, ◌!=◌, ltb, leb, if◌then◌else◌, Bool, true,
  false, not, ◌&&◌, ◌||◌, Option, none, some, List, [], ◌∷◌, ◌++◌,
}
use cdj2000_emulator.Prelude.Arrays.{Array, update}

-- `CdjC674xLoop`; the rows of `tags` have eight entries, of which `count` are in use.
pub record Loop : Type 0 where
  pub tags : Array (Array ℕ)
  pub count : Array ℕ
  pub ii : ℕ
  pub length : ℕ
  pub iterations : ℕ
  pub cycle : ℕ
  pub post_cycle : ℕ
  pub end_cycle : ℕ
  pub sealed : Bool
  pub predicate_loop : Bool
  pub delayed_count : Bool

abbrev pub u64_max : ℕ
u64_max = 2 ^ 64 - 1

abbrev pub size : List ℕ → ℕ
size [] = 0
size (t ∷ ts) = suc (size ts)

-- `cdj_c674x_loop_init`
pub init : ℕ → ℕ → Option Loop
init ii iterations =
    if ii == 0 || ltb 16 ii
    then none
    else some (record {
      tags = λ i j. 0;
      count = λ i. 0;
      ii = ii;
      length = 0;
      iterations = iterations;
      cycle = 0;
      post_cycle = 0;
      end_cycle = 0;
      sealed = false;
      predicate_loop = false;
      delayed_count = false;
    })

-- `memcpy(row, packet, count * sizeof(*packet))`
pub copy_from : ℕ → List ℕ → Array ℕ → Array ℕ
copy_from i [] row = row
copy_from i (t ∷ ts) row = copy_from (i + 1) ts (update row i t)

-- The last loading boundary.
abbrev pub loading_end : Loop → ℕ
loading_end l = ((l.length + l.ii - 1) / l.ii) * l.ii

-- The branch `if (finish)` of `cdj_c674x_loop_load`; `functional` is the module's static flag.
pub seal : Bool → Loop → ℕ → Loop
seal functional l delay =
    if l.predicate_loop
    then record l { sealed = true; post_cycle = u64_max; end_cycle = u64_max }
    else let post = (l.iterations * l.ii + delay) % 2 ^ 64 in
      let post = if functional && l.delayed_count then (post + 2) % 2 ^ 64 else post in
      let post = if ltb post (loading_end l) then loading_end l else post in
      let end =
        if l.iterations == 0
        then loading_end l
        else ((l.iterations - 1) * l.ii + l.length) % 2 ^ 64 in
      let post = if ltb end post then end else post in
      record l { sealed = true; post_cycle = post; end_cycle = end }

-- `cdj_c674x_loop_load`
pub load : Bool → Loop → List ℕ → Bool → ℕ → Option Loop
load functional l packet finish delay =
    if l.ii == 0 || l.sealed || leb 48 l.cycle || ltb 8 (size packet) || ltb l.cycle l.length
    then none
    else let l' : Loop = record l {
      tags = update l.tags l.cycle (copy_from 0 packet (l.tags l.cycle));
      count = update l.count l.cycle (size packet);
      length = l.cycle + 1;
    } in
      some (if finish then seal functional l' delay else l')

-- `result[n++] = tag`, refused when eight are there.
pub push : List ℕ → ℕ → Option (List ℕ)
push result tag = if size result == 8 then none else some (result ++ (tag ∷ []))

module _ (allow : ℕ → Bool) where
  -- The loop over `j` in one row: the rounds left, and `j`.
  pub row : Array ℕ → ℕ → ℕ → List ℕ → Option (List ℕ)
  row tags zero j result = some result
  row tags (suc k) j result = elim (if allow (tags j) then push result (tags j) else some result) [
    | none ↦ none
    | some result' ↦ row tags k (j + 1) result'
  ]

  -- The loop over `origin`, up by `ii` while it is below `length` and not above `local`. `live` says
  -- whether the iteration that an entry belongs to is issued.
  pub walk : Loop → ℕ → (ℕ → Bool) → ℕ → ℕ → List ℕ → Option (List ℕ)
  walk l local live zero origin result = some result
  walk l local live (suc fuel) origin result = elim (ltb origin l.length && leb origin local) [
    | false ↦ some result
    | true ↦
        elim (if live ((local - origin) / l.ii)
          then row (l.tags origin) (l.count origin) 0 result
          else some result) [
            | none ↦ none
            | some result' ↦ walk l local live fuel (origin + l.ii) result'
          ]
  ]

-- What an issue hands back: the tags, `post_fetch`, `drained` and the advanced loop.
pub record Issued : Type 0 where
  pub issued : List ℕ
  pub post_fetch : Bool
  pub drained : Bool
  pub loop : Loop

abbrev pub tick : Loop → Loop
tick l = record l { cycle = (l.cycle + 1) % 2 ^ 64 }

-- Predicate loops become finite when interrupt draining begins.
abbrev pub finite : Loop → Bool
finite l = not l.predicate_loop || (l.sealed && l.end_cycle != u64_max)

abbrev pub live_iteration : Loop → ℕ → Bool
live_iteration l k = not (finite l && leb l.iterations k)

-- `cdj_c674x_loop_issue_filtered`; the origins are below 48, which is fuel enough.
pub issue_filtered : (ℕ → Bool) → Loop → Option Issued
issue_filtered allow l =
    if l.ii == 0 || (not l.sealed && leb 48 l.cycle)
    then none
    else elim (walk allow l l.cycle (live_iteration l) 49 (l.cycle % l.ii) []) [
      | none ↦ none
      | some result ↦ some (record {
        issued = result;
        post_fetch = l.sealed && leb l.post_cycle l.cycle;
        drained = l.sealed && leb l.end_cycle l.cycle;
        loop = tick l;
      })
    ]

-- `cdj_c674x_loop_issue`
pub issue : Loop → Option Issued
issue = issue_filtered (λ tag. true)

-- One round of the loop over the two invocations of `cdj_c674x_loop_issue_reload`.
pub invocation : (ℕ → Bool) → Loop → ℕ → ℕ → ℕ → List ℕ → Option (List ℕ)
invocation allow l start end iterations result =
    if end == 0 || ltb l.cycle start || leb end l.cycle
    then some result
    else walk allow l (l.cycle - start) (λ k. not (leb iterations k)) 49 ((l.cycle - start) % l.ii)
        result

-- `cdj_c674x_loop_issue_reload`
pub issue_reload : (ℕ → Bool) → Loop → ℕ → ℕ → ℕ → ℕ → Option Issued
unfolding invocation
issue_reload allow l current_start old_start old_end post_end =
    if not l.sealed
      || l.ii == 0
      || l.length == 0
      || ltb l.cycle current_start
      || (old_end != 0 && (ltb old_end old_start || ltb (old_end - old_start) l.length))
    then none
    else elim (invocation allow l old_start old_end ((old_end - old_start - l.length) / l.ii + 1)
        []) [
          | none ↦ none
          | some old ↦ elim (invocation allow l current_start l.end_cycle l.iterations old) [
            | none ↦ none
            | some result ↦ some (record {
              issued = result;
              post_fetch = leb l.post_cycle l.cycle && ltb l.cycle post_end;
              drained =
                  l.end_cycle != 0
                  && leb (l.end_cycle - 1) l.cycle
                  && (old_end == 0 || leb (old_end - 1) l.cycle);
              loop = tick l;
            })
          ]
        ]

-- `cdj_c674x_loop_interrupt_drain`
pub interrupt_drain : Loop → Option Loop
interrupt_drain l =
    if not l.sealed || l.ii == 0 || l.cycle % l.ii != 0 || l.cycle == 0
    then none
    else let launched = l.cycle / l.ii in
      let end = ((launched - 1) * l.ii + l.length) % 2 ^ 64 in
      if ltb (2 ^ 32 - 1) launched || ltb end l.cycle
      then none
      else some (record l { iterations = launched; post_cycle = end; end_cycle = end })
