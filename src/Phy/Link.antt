-- ===== src/Phy/Link.antt =====
-- emulator/qemu/cdj_rtl8201fl.c: when the link may be up.
use Prim.Native.Nat.{bit_and, bit_xor}
use cdj2000_emulator.Prelude.{
  ℕ, ◌==◌, ◌!=◌, ltb, leb, ◌-◌, ◌^◌, if◌then◌else◌, Bool, true, false, not, ◌&&◌, ◌||◌, Option,
  none, some, ◌≡◌, refl, arith, ◌∙◌, sym,
}
use cdj2000_emulator.Prelude.Cases.{if_keeps}
use cdj2000_emulator.Prelude.Word.{has, not32}
use cdj2000_emulator.Phy.{
  Phy, down, arm, negotiate, end_reset, connect, settle, advance, set_peer, no_deadline,
  negotiate_ns, reset_ns, expire, restored, advertises,
}
use cdj2000_emulator.Phy.Registers.{write_bmcr, write_mmd, write_basic, write}

-- The link is up only to a peer, and not during a software reset.
pub record IsLinked (s : Phy) : Type 0 where
  pub to_peer : s.link ≡ true → s.peer ≡ true
  pub not_reset : s.link ≡ true → s.reset_pending ≡ false

-- What an operation leaves, unless it is refused.
pub data Leaves {A : Type 0} (P : A → Type 0) : Option A → Type 0 where
  refused : Leaves P none
  leaves : {s : A} → P s → Leaves P (some s)

pub then_leaves :
    {A : Type 0} {P : A → Type 0} {Q : Phy → Type 0} {o : Option A} (f : A → Option Phy)
    → Leaves P o
    → ((n : A) → P n → Leaves Q (f n))
    → Leaves Q (elim o [ none ↦ none | some n ↦ f n ])
then_leaves f refused g = refused
then_leaves f (leaves {s = n} p) g = g n p

both : {P Q : Phy → Type 0} {o : Option Phy} → Leaves P o → Leaves Q o → Leaves (λ n. P n × Q n) o
both refused q = refused
both (leaves p) (leaves q) = leaves (p, q)

pub either_way :
    (c : Bool) {x y : Option Phy}
    → (c ≡ true → Leaves IsLinked x)
    → (c ≡ false → Leaves IsLinked y)
    → Leaves IsLinked (if c then x else y)
either_way c = if_keeps (Leaves IsLinked) c

arm-IsLinked : (s : Phy) (d : ℕ) → IsLinked s → Leaves IsLinked (arm s d)
unfolding arm
arm-IsLinked s d v =
    either_way (leb (2 ^ 64 - 1 - d) s.now) (λ _. refused)
      (λ _. leaves (record { to_peer = v.to_peer; not_reset = v.not_reset }))

pub is_down : (s : Phy) → s.link ≡ false → IsLinked s
is_down s e = record { to_peer = λ u. ground arith; not_reset = λ u. ground arith }

negotiate-IsLinked : (s : Phy) → Leaves IsLinked (negotiate s)
unfolding negotiate down
negotiate-IsLinked s =
    either_way (s.peer && not (has s.bmcr 0x0c00))
      (λ _. arm-IsLinked (record (down s) { deadline = no_deadline }) negotiate_ns (is_down _ refl))
      (λ _. leaves (is_down _ refl))

negotiate-reset_pending : (s : Phy) → Leaves (λ n. n.reset_pending ≡ s.reset_pending) (negotiate s)
unfolding negotiate down arm
negotiate-reset_pending s =
    if_keeps (Leaves (λ (n : Phy). n.reset_pending ≡ s.reset_pending))
      (s.peer && not (has s.bmcr 0x0c00))
      (λ _.
        if_keeps (Leaves (λ (n : Phy). n.reset_pending ≡ s.reset_pending))
          (leb (2 ^ 64 - 1 - negotiate_ns) s.now) (λ _. refused) (λ _. leaves refl))
      (λ _. leaves refl)

end_reset-IsLinked :
    (s : Phy) → IsLinked s → Leaves (λ n. IsLinked n × (n.reset_pending ≡ false)) (end_reset s)
unfolding end_reset restored
end_reset-IsLinked s v =
    if_keeps (Leaves (λ (n : Phy). IsLinked n × (n.reset_pending ≡ false))) s.reset_pending
      (λ _. both (negotiate-IsLinked (restored s)) (negotiate-reset_pending (restored s)))
      (λ e. leaves (v, e))

write_bmcr-IsLinked : (s : Phy) (x : ℕ) → IsLinked s → Leaves IsLinked (write_bmcr s x)
unfolding write_bmcr down
write_bmcr-IsLinked s x v =
    either_way (has x (not32 0xbf00) || has x 0x4000) (λ _. refused)
      (λ _.
        either_way (has x 0x8000)
          (λ _.
            arm-IsLinked
              (record (down s) {
                bmcr = 0xb100;
                reset_pending = true;
                synchronized = false;
                preamble = 0;
              })
              reset_ns (is_down _ refl))
          (λ _.
            either_way (not (has x 0x1000) || s.reset_pending) (λ _. refused)
              (λ _.
                either_way (has x 0x200 || has (bit_xor s.bmcr x) 0xc00)
                  (λ _. negotiate-IsLinked (record s { bmcr = x }))
                  (λ _. leaves (record { to_peer = v.to_peer; not_reset = v.not_reset })))))

-- Fields that the link does not depend on.
pub same_link :
    {s n : Phy}
    → IsLinked s
    → n.link ≡ s.link
    → n.peer ≡ s.peer
    → n.reset_pending ≡ s.reset_pending
    → IsLinked n
same_link v l p r = record {
  to_peer = λ u. p ∙ v.to_peer (sym l ∙ u);
  not_reset = λ u. r ∙ v.not_reset (sym l ∙ u);
}

-- The link comes up to a peer alone.
connect-IsLinked : (s : Phy) → s.peer ≡ true → s.reset_pending ≡ false → IsLinked (connect s)
unfolding connect
connect-IsLinked s p r =
    if_keeps (λ (m : Phy). IsLinked (record m { bmcr = bit_and m.bmcr (not32 0x0200) }))
      (bit_and (bit_and s.anar s.partner) 0x1e0 != 0)
      (λ _. record { to_peer = λ _. p; not_reset = λ _. r })
      (λ _. record { to_peer = λ _. p; not_reset = λ _. r })

expire-IsLinked : (s : Phy) (t : ℕ) → IsLinked s → IsLinked (expire s t)
unfolding expire
expire-IsLinked s t v =
    if_keeps IsLinked (not s.reset_pending && s.deadline != no_deadline && leb s.deadline t)
      (λ _. same_link v refl refl refl) (λ _. v)

expire-reset_pending : (s : Phy) (t : ℕ) → (expire s t).reset_pending ≡ s.reset_pending
unfolding expire
expire-reset_pending s t =
    if_keeps (λ (m : Phy). m.reset_pending ≡ s.reset_pending)
      (not s.reset_pending && s.deadline != no_deadline && leb s.deadline t) (λ _. refl) (λ _. refl)

and_left : (a b c : Bool) → a && b && c ≡ true → b ≡ true
and_left a b c e = ground (arith, e)

settle-IsLinked : (s : Phy) (t : ℕ) → s.reset_pending ≡ false → IsLinked s → IsLinked (settle s t)
unfolding settle
settle-IsLinked s t r v =
    let n = expire s t in
    if_keeps IsLinked (n.deadline == no_deadline && n.peer && not (has n.bmcr 0x0c00))
      (λ e. connect-IsLinked (expire s t) (and_left _ _ _ e) (expire-reset_pending s t ∙ r))
      (λ _. expire-IsLinked s t v)

-- Telling the time keeps it.
pub advance-IsLinked : (s : Phy) (t : ℕ) → IsLinked s → Leaves IsLinked (advance s t)
unfolding advance
advance-IsLinked s t v =
    either_way (ltb t s.now || t == 2 ^ 64 - 1) (λ _. refused)
      (λ _.
        either_way (s.deadline != no_deadline && leb s.deadline t)
          (λ _.
            then_leaves _
              (end_reset-IsLinked (record s { now = s.deadline; deadline = no_deadline })
                (same_link v refl refl refl))
              (λ n (l, r). leaves (same_link (settle-IsLinked n t r l) refl refl refl)))
          (λ _. leaves (same_link v refl refl refl)))

-- So does telling of the peer.
pub set_peer-IsLinked :
    (s : Phy) (present : Bool) (advertisement t : ℕ)
    → IsLinked s
    → Leaves IsLinked (set_peer s present advertisement t)
unfolding set_peer down
set_peer-IsLinked s b a t v =
    either_way (not (advertises a)) (λ _. refused)
      (λ _. then_leaves _ (advance-IsLinked s t v) (λ n w.
        let joined = record n { peer = b; partner = a } in
        either_way ((if n.peer then b else not b) && n.partner == a) (λ _. leaves w)
          (λ _.
            either_way n.reset_pending (λ _. leaves (is_down (down joined) refl))
              (λ _. negotiate-IsLinked joined))))

write_mmd-IsLinked : (s : Phy) (x : ℕ) → IsLinked s → Leaves IsLinked (write_mmd s x)
unfolding write_mmd
write_mmd-IsLinked s x v =
    either_way (s.mmd_control == 7 && x == 0x3c) (λ _. leaves (same_link v refl refl refl))
      (λ _.
        either_way (s.mmd_control == 0x4007 && s.mmd_address == 0x3c && not (has x (not32 2)))
          (λ _. leaves (same_link v refl refl refl)) (λ _. refused))

-- A store that is refused, or leaves a state with the same link.
guarded :
    {s : Phy} (c : Bool) (n : Phy)
    → IsLinked s
    → n.link ≡ s.link
    → n.peer ≡ s.peer
    → n.reset_pending ≡ s.reset_pending
    → Leaves IsLinked (if c then none else some n)
guarded c n v l p r = either_way c (λ _. refused) (λ _. leaves (same_link v l p r))

write_basic-IsLinked : (s : Phy) (reg x : ℕ) → IsLinked s → Leaves IsLinked (write_basic s reg x)
unfolding write_basic
write_basic-IsLinked s reg x v =
    either_way (reg == 13) (λ _. guarded (x != 7 && x != 0x4007) _ v refl refl refl)
      (λ _.
        either_way (reg == 14) (λ _. write_mmd-IsLinked s x v)
          (λ _.
            either_way (reg == 4)
              (λ _. guarded (not (advertises x) || s.reset_pending) _ v refl refl refl)
              (λ _. either_way (reg == 0) (λ _. write_bmcr-IsLinked s x v) (λ _. refused))))

-- So does a store to a register.
pub write-IsLinked : (s : Phy) (reg x : ℕ) → IsLinked s → Leaves IsLinked (write s reg x)
unfolding write
write-IsLinked s reg x v =
    either_way (reg == 31) (λ _. guarded (x != 0 && x != 4 && x != 7) _ v refl refl refl)
      (λ _.
        either_way (s.page == 7)
          (λ _.
            either_way (reg == 17 && not (has x (not32 0x0033)))
              (λ _. leaves (same_link v refl refl refl))
              (λ _.
                either_way (reg == 19 && not (has x (not32 0x0038)))
                  (λ _. leaves (same_link v refl refl refl)) (λ _. refused)))
          (λ _.
            either_way (s.page == 4)
              (λ _. guarded (reg != 16 || has x (not32 0x3300)) _ v refl refl refl)
              (λ _. write_basic-IsLinked s reg x v)))
