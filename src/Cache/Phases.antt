-- ===== src/Cache/Phases.antt =====
-- The stores to the cache control under the two-phase protocol.
use cdj2000_emulator.Prelude.{
  ℕ, ◌-◌, ◌/◌, ◌==◌, ◌!=◌, ltb, leb, if◌then◌else◌, Bool, true, false, not, ◌&&◌, ◌||◌, Option,
  none, some, ◌≡◌, refl,
}
use cdj2000_emulator.Prelude.Word.{u32_max}
use cdj2000_emulator.Bus.{TwoPhase}
use cdj2000_emulator.Cache.{
  Cache, cache_base, unmapped, mar_supported, word_count_offset, global_operation_offset,
  block_base_index, store_at, write,
}

-- The answer to a store, from the state that it leaves.
abbrev answer : Cache → Option Cache → Bool × Cache
answer cache o = elim o [ none ↦ (false, cache) | some cache' ↦ (true, cache') ]

-- The states that a check and a commit leave.
abbrev Phases : Cache → Bool × Cache → Bool × Cache → Type 0
Phases cache checked committed =
    (checked ≡ (committed.0, cache)) × (committed.1 ≡ (if committed.0 then committed.1 else cache))

record Stores (cache : Cache) (x y : Option Cache) : Type 0 where
  phases : Phases cache (answer cache x) (answer cache y)

refused : {cache : Cache} → Stores cache none none
refused = record { phases = (refl, refl) }

taken : {cache n : Cache} → Stores cache (some cache) (some n)
taken = record { phases = (refl, refl) }

if_Stores :
    {cache : Cache} (b : Bool) {x y x' y' : Option Cache}
    → Stores cache x x'
    → Stores cache y y'
    → Stores cache (if b then x else y) (if b then x' else y')
if_Stores true f g = f
if_Stores false f g = g

block-Stores :
    (cache : Cache) (word : ℕ) (block : Option ℕ) (x x' : Option Cache) (store : ℕ → Cache)
    → Stores cache x x'
    → Stores cache
        (elim block [ some index ↦ some cache | none ↦ x ])
        (elim block [ some index ↦ some (store index) | none ↦ x' ])
block-Stores cache word none x x' store f = f
block-Stores cache word (some index) x x' store f = taken

store_at-Stores :
    (cache : Cache) (offset word : ℕ)
    → Stores cache (store_at cache offset word false) (store_at cache offset word true)
unfolding store_at
store_at-Stores cache offset word = if_Stores (offset == 0x0000) taken (
    if_Stores (offset == 0x0020) taken (
      if_Stores (offset == 0x0024) taken (
        if_Stores (offset == 0x0040) taken (
          if_Stores (offset == 0x0044) taken (
            block-Stores cache word (block_base_index offset) _ _ _ (
              if_Stores (word_count_offset offset || global_operation_offset offset) taken (
                if_Stores (leb 0x8000 offset && leb offset 0x83fc)
                  (if_Stores (not (mar_supported ((offset - 0x8000) / 4))) refused taken)
                  refused)))))))

guarded :
    (cache : Cache) (b : Bool) (x x' : Bool × Cache)
    → Phases cache x x'
    → Phases cache (if b then (false, cache) else x) (if b then (false, cache) else x')
guarded cache true x x' f = (refl, refl)
guarded cache false x x' f = f

-- A store follows the two-phase protocol.
pub write-TwoPhase :
    (cache : Cache) (address value size : ℕ) → TwoPhase write cache address value size
unfolding write
write-TwoPhase cache address value size =
    guarded cache (size != 4 || ltb u32_max value || unmapped address) _ _
      (store_at-Stores cache (address - cache_base) value).phases
