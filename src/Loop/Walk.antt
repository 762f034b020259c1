-- ===== src/Loop/Walk.antt =====
-- The strided loop over the buffer issues what a plain pass over all its entries would.
use cdj2000_emulator.Prelude.{
  ℕ, zero, suc, ◌+◌, ◌-◌, ◌*◌, ◌/◌, ◌%◌, ◌≤◌, ◌<◌, ◌==◌, ltb, leb, if◌then◌else◌, Bool, false, ◌&&◌,
  Option, none, some, List, [], ◌∷◌, ◌++◌, ◌≡◌, refl, ◌≢◌, arith, ap, sym, ◌∙◌, inl, inr,
  Bool-cases, eq-cases, lt→ltb, le→leb, ◌⊎◌,
}
use native.Mathlib.Nat.{
  zero-add, add-zero, mod-add-mod, mod-eq_of_lt, add-mod_right, zero-mod, mod-lt, mod-le,
  div-add-mod', mul-mod_left,
}
use native.Mathlib.Decide.{dec_le, dec_lt}
use mathlib.Core.List.{append-nil, append_assoc}
use cdj2000_emulator.Prelude.Arrays.{Array}
use cdj2000_emulator.Loop.{Loop, size, push, row, walk}

-- Eight operations at most can issue together.
abbrev pub capped : List ℕ → Option (List ℕ)
capped ts = if ltb 8 (size ts) then none else some ts

size-append : (xs ys : List ℕ) → size (xs ++ ys) ≡ size xs + size ys
size-append [] ys = omega arith
size-append (x ∷ xs) ys = omega (arith, size-append xs ys)

module _ (allow : ℕ → Bool) where
  -- The allowed tags among `k` of a row, from `j`.
  pub allowed : Array ℕ → ℕ → ℕ → List ℕ
  allowed tags zero j = []
  allowed tags (suc k) j =
      let rest = allowed tags k (j + 1) in if allow (tags j) then tags j ∷ rest else rest

  -- The tags that the buffer holds for time `local`, by a pass over `k` entries from `origin`: an
  -- entry is due if `local` is a whole number of intervals after it, and its iteration is live.
  abbrev pub due : Loop → ℕ → (ℕ → Bool) → ℕ → Bool
  due l local live origin =
      leb origin local && (local - origin) % l.ii == 0 && live ((local - origin) / l.ii)

  pub buffered : Loop → ℕ → (ℕ → Bool) → ℕ → ℕ → List ℕ
  buffered l local live zero origin = []
  buffered l local live (suc k) origin =
      (if due l local live origin then allowed (l.tags origin) (l.count origin) 0 else [])
      ++ buffered l local live k (origin + 1)

  row_lem :
      (tags : Array ℕ) (k j : ℕ) (result : List ℕ)
      → size result ≤ 8
      → row allow tags k j result ≡ capped (result ++ allowed tags k j)
  unfolding row push allowed
  row_lem tags zero j result h = ground (arith, append-nil result)
  row_lem tags (suc k) j result h = elim (Bool-cases (allow (tags j))) [
    | inl taken ↦ elim (eq-cases (size result) 8) [
      | inl full ↦ rw taken (ground (arith, size-append result (tags j ∷ allowed tags k (j + 1))))
      | inr room ↦ rw taken (
          ground (
            arith,
            size-append result (tags j ∷ []),
            row_lem tags k (j + 1) (result ++ (tags j ∷ [])),
            append_assoc result (tags j ∷ []) (allowed tags k (j + 1)),
          ))
    ]
    | inr skipped ↦ ground (arith, row_lem tags k (j + 1) result)
  ]

  -- Entries that are not due can be passed over.
  buffered_skip :
      (l : Loop) (local : ℕ) (live : ℕ → Bool) (m k origin : ℕ)
      → ((i : ℕ) → i < m → due l local live (origin + i) ≡ false)
      → buffered l local live (m + k) origin ≡ buffered l local live k (origin + m)
  buffered_skip l local live zero k origin h = rw (zero-add, add-zero)
  buffered_skip l local live (suc m) k origin h =
      ap (λ n. buffered l local live n origin) (omega arith)
      ∙ step
      ∙ buffered_skip l local live m k (origin + 1)
          (λ i p. ap (λ o. due l local live o) (omega arith) ∙ h (suc i) (omega arith))
      ∙ ap (λ o. buffered l local live k o) (omega arith)
    where
      first : due l local live origin ≡ false
      first = ap (λ o. due l local live o) (omega arith) ∙ h 0 (omega arith)

      step : buffered l local live (suc (m + k)) origin ≡ buffered l local live (m + k) (origin + 1)
      step = unfold buffered in rw first

  pub none_due :
      (l : Loop) (local : ℕ) (live : ℕ → Bool) (k origin : ℕ)
      → ((i : ℕ) → i < k → due l local live (origin + i) ≡ false)
      → buffered l local live k origin ≡ []
  none_due l local live k origin h =
      ap (λ n. buffered l local live n origin) (omega arith)
      ∙ buffered_skip l local live k 0 origin h
      ∙ unfold buffered in refl

  -- Between two multiples of the interval nothing is due.
  between : (c o ii i : ℕ) → (c - o) % ii ≡ 0 → 0 < i → i < ii → o + i ≤ c → (c - (o + i)) % ii ≢ 0
  between c o ii i z p q h e = omega (
    arith,
    mod-add-mod (c - (o + i)) ii i,
    mod-eq_of_lt q,
    ap (λ (t : ℕ). (t + i) % ii) e,
    ap (λ (t : ℕ). t % ii) {x = 0 + i} {y = i} (omega arith),
    ap (λ (t : ℕ). t % ii) {x = c - (o + i) + i} {y = c - o} (omega arith),
  )

  not_due_between :
      (l : Loop) (local : ℕ) (live : ℕ → Bool) (o i : ℕ)
      → (local - o) % l.ii ≡ 0
      → 0 < i
      → i < l.ii
      → due l local live (o + i) ≡ false
  not_due_between l local live o i z p q = ground (arith, between local o l.ii i z p q)

  not_due_after :
      (l : Loop) (local : ℕ) (live : ℕ → Bool) (o : ℕ) → local < o → due l local live o ≡ false
  not_due_after l local live o h = ground arith

  module _ (l : Loop) (local : ℕ) (live : ℕ → Bool) where
    -- The entries after one that is in step, up to the next that the code visits.
    gap :
        (o : ℕ)
        → 0 < l.ii
        → o < l.length
        → (local - o) % l.ii ≡ 0
        → buffered l local live (l.length - o - 1) (o + 1)
          ≡ buffered l local live (l.length - (o + l.ii)) (o + l.ii)
    gap o p q z = elim (dec_le (o + l.ii) l.length) [
      | yes h ↦
          ap (λ n. buffered l local live n (o + 1)) (omega arith)
          ∙ buffered_skip l local live (l.ii - 1) (l.length - (o + l.ii)) (o + 1) (λ i k.
            ap (λ e. due l local live e) (omega arith)
            ∙ not_due_between l local live o (i + 1) z (omega arith) (omega arith))
          ∙ ap (λ e. buffered l local live (l.length - (o + l.ii)) e) (omega arith)
      | no h ↦
          none_due l local live (l.length - o - 1) (o + 1) (λ i k.
            ap (λ e. due l local live e) (omega arith)
            ∙ not_due_between l local live o (i + 1) z (omega arith) (omega arith))
          ∙ sym (
              ap (λ n. buffered l local live n (o + l.ii)) {y = 0} (omega arith)
              ∙ unfold buffered in refl)
    ]

    in_step : (o : ℕ) → 0 < l.ii → (local - o) % l.ii ≡ 0 → (local - (o + l.ii)) % l.ii ≡ 0
    in_step o p z = elim (dec_le (o + l.ii) local) [
      | yes h ↦
          sym (add-mod_right (local - (o + l.ii)) l.ii)
          ∙ ap (λ n. n % l.ii) {y = local - o} (omega arith)
          ∙ z
      | no h ↦ ap (λ n. n % l.ii) {y = 0} (omega arith) ∙ zero-mod l.ii
    ]

    first_entry :
        (o : ℕ)
        → o < l.length
        → buffered l local live (l.length - o) o
          ≡ (if due l local live o then allowed (l.tags o) (l.count o) 0 else [])
            ++ buffered l local live (l.length - o - 1) (o + 1)
    first_entry o h =
        ap (λ n. buffered l local live n o) {y = suc (l.length - o - 1)} (omega arith)
        ∙ unfold buffered in refl

    past : (o : ℕ) → (l.length ≤ o) ⊎ (local < o) → buffered l local live (l.length - o) o ≡ []
    past o (inl h) =
        ap (λ n. buffered l local live n o) {y = 0} (omega arith) ∙ unfold buffered in refl
    past o (inr h) =
        none_due l local live (l.length - o) o
          (λ i k. not_due_after l local live (o + i) (omega arith))

    -- What the walk has after one entry.
    entry : ℕ → List ℕ → Option (List ℕ)
    entry o result =
        if live ((local - o) / l.ii) then row allow (l.tags o) (l.count o) 0 result else some result

    entry_lem :
        (o : ℕ) (result : List ℕ)
        → o ≤ local
        → size result ≤ 8
        → (local - o) % l.ii ≡ 0
        → entry o result
          ≡ capped (result ++ (if due l local live o then allowed (l.tags o) (l.count o) 0 else []))
    unfolding entry
    entry_lem o result h s z =
        ground (arith, row_lem (l.tags o) (l.count o) 0 result, append-nil result)

    entry-append :
        (xs ys zs : List ℕ) (k : List ℕ → Option (List ℕ))
        → (size (xs ++ ys) ≤ 8 → k (xs ++ ys) ≡ capped ((xs ++ ys) ++ zs))
        → (elim (capped (xs ++ ys)) as (λ o. Option (List ℕ)) [ none ↦ none | some r ↦ k r ])
          ≡ capped (xs ++ (ys ++ zs))
    entry-append xs ys zs k h = ground (arith, size-append (xs ++ ys) zs, append_assoc xs ys zs, h)

    visit :
        (fuel o : ℕ) (result : List ℕ)
        → o < l.length
        → o ≤ local
        → walk allow l local live (suc fuel) o result
          ≡ (elim (entry o result) as (λ r. Option (List ℕ)) [
            | none ↦ none
            | some r ↦ walk allow l local live fuel (o + l.ii) r
          ])
    unfolding walk entry
    visit fuel o result h k = rw (lt→ltb o l.length h, le→leb o local k, walk) refl

    before : (c i ii : ℕ) → 0 < ii → i < c % ii → (c - i) % ii ≢ 0
    before c i ii p h z = omega (
      arith,
      mod-add-mod (c - i) ii i,
      mod-eq_of_lt {n = i} {m = ii} (omega (arith, mod-lt c p)),
      ap (λ (t : ℕ). (t + i) % ii) z,
      ap (λ (t : ℕ). t % ii) {x = 0 + i} {y = i} (omega arith),
      ap (λ (t : ℕ). t % ii) {x = c - i + i} {y = c} (omega (arith, mod-le c ii)),
    )

    not_due_before : (i : ℕ) → 0 < l.ii → i < local % l.ii → due l local live i ≡ false
    not_due_before i p h = ground (arith, before local i l.ii p h)

    not_due_head : (i : ℕ) → 0 < l.ii → i < local % l.ii → due l local live (0 + i) ≡ false
    not_due_head i p h = rw zero-add (not_due_before i p h)

    head :
        0 < l.ii
        → buffered l local live l.length 0
          ≡ buffered l local live (l.length - local % l.ii) (local % l.ii)
    head p = elim (dec_le (local % l.ii) l.length) [
      | yes h ↦
          ap (λ n. buffered l local live n 0) (omega arith)
          ∙ buffered_skip l local live (local % l.ii) (l.length - local % l.ii) 0
              (λ i k. not_due_head i p k)
          ∙ ap (λ e. buffered l local live (l.length - local % l.ii) e) (omega arith)
      | no h ↦
          none_due l local live l.length 0 (λ i k. not_due_head i p (omega arith))
          ∙ sym (past (local % l.ii) (inl (omega arith)))
    ]

    start : (c ii : ℕ) → (c - c % ii) % ii ≡ 0
    start c ii =
        ap (λ n. n % ii) {y = c / ii * ii} (omega (arith, div-add-mod' c ii))
        ∙ mul-mod_left (c / ii) ii

    -- With enough fuel the walk collects what is due from its origin on, if that is eight at most.
    pub walk_lem :
        (fuel o : ℕ) (result : List ℕ)
        → 0 < l.ii
        → size result ≤ 8
        → l.length < o + fuel
        → (local - o) % l.ii ≡ 0
        → walk allow l local live fuel o result
          ≡ capped (result ++ buffered l local live (l.length - o) o)
    unfolding walk
    walk_lem zero o result p s f z = rw (past o (inl (omega arith)), append-nil) (ground arith)
    walk_lem (suc fuel) o result p s f z = elim (dec_lt o l.length) [
      | no h ↦ rw (past o (inl (omega arith)), append-nil) (ground arith)
      | yes h ↦ elim (dec_le o local) [
        | no k ↦ rw (past o (inr (omega arith)), append-nil) (ground arith)
        | yes k ↦
            visit fuel o result h k
            ∙ rw (entry_lem o result k s z) (
                rw (first_entry o h, gap o p h z)
                  (entry-append result _ _ (walk allow l local live fuel (o + l.ii))
                    (λ t. walk_lem fuel (o + l.ii) _ p t (omega arith) (in_step o p z))))
      ]
    ]

    -- So a walk from the first origin in step issues what a pass over the whole buffer finds due.
    pub walk-buffered :
        0 < l.ii
        → l.length ≤ 48
        → walk allow l local live 49 (local % l.ii) [] ≡ capped (buffered l local live l.length 0)
    walk-buffered p f =
        walk_lem 49 (local % l.ii) [] p (omega arith) (omega arith) (start local l.ii)
        ∙ ap capped (sym (head p))
