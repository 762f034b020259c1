-- ===== src/Phy/Steps.antt =====
-- emulator/qemu/cdj_rtl8201fl.c: the PHY under any sequence of its operations.
use Prim.Native.Nat.{bit_and, bit_or}
use mathlib.Core.Path.{subst}
use cdj2000_emulator.Prelude.{
  ℕ, ◌+◌, ◌*◌, ◌==◌, ◌!=◌, ltb, leb, if◌then◌else◌, Bool, not, ◌&&◌, ◌||◌, Option, some, ◌≡◌, refl,
}
use cdj2000_emulator.Prelude.Cases.{if_keeps}
use cdj2000_emulator.Prelude.Word.{has, not32, u32}
use cdj2000_emulator.Phy.{Phy, reset, advance, set_peer}
use cdj2000_emulator.Phy.Registers.{read_basic, read}
use cdj2000_emulator.Phy.Frames.{
  idle_bit, header_bit, op, address, target, next_bit, write_bit, clock_bit, falling_edge, shift_in,
  edge, pir_write,
}
use cdj2000_emulator.Phy.Link.{
  IsLinked, Leaves, refused, leaves, then_leaves, either_way, same_link, is_down, advance-IsLinked,
  set_peer-IsLinked, write-IsLinked,
}

-- What a read leaves.
abbrev ReadsLinked : Option (ℕ × Phy) → Type 0
ReadsLinked = Leaves (λ (r : ℕ × Phy). IsLinked r.1)

reads_if :
    (c : Bool) {x y : Option (ℕ × Phy)}
    → ReadsLinked x
    → ReadsLinked y
    → ReadsLinked (if c then x else y)
reads_if c p q = if_keeps ReadsLinked c (λ _. p) (λ _. q)

read_basic-IsLinked : (s : Phy) (reg : ℕ) → IsLinked s → ReadsLinked (read_basic s reg)
unfolding read_basic
read_basic-IsLinked s reg v = reads_if (reg == 0) (leaves v) (
    reads_if (reg == 1) (leaves (same_link v refl refl refl)) (
      reads_if (reg == 2) (leaves v) (
        reads_if (reg == 3) (leaves v) (
          reads_if (reg == 4) (leaves v) (
            reads_if (reg == 5) (leaves v) (
              reads_if (reg == 6) (leaves (same_link v refl refl refl)) (
                reads_if (reg == 13) (leaves v) (
                  reads_if (reg == 14 && not (has s.mmd_control 0x4000)) (leaves v) (
                    reads_if (reg == 14 && s.mmd_control == 0x4007 && s.mmd_address == 0x3c)
                      (leaves v) refused)))))))))

read-IsLinked : (s : Phy) (reg : ℕ) → IsLinked s → ReadsLinked (read s reg)
unfolding read
read-IsLinked s reg v = reads_if (reg == 31) (leaves v) (
    reads_if (s.page == 7)
      (reads_if (reg == 17) (leaves v) (reads_if (reg == 19) (leaves v) refused))
      (reads_if (s.page == 4) (reads_if (reg != 16) refused (leaves v))
        (read_basic-IsLinked s reg v)))

next_bit-IsLinked : (s : Phy) → IsLinked s → IsLinked (next_bit s)
unfolding next_bit
next_bit-IsLinked s v =
    if_keeps IsLinked (s.bits + 1 == 32) (λ _. same_link v refl refl refl)
      (λ _. same_link v refl refl refl)

idle_bit-IsLinked :
    (s : Phy) (drive : Bool) (bit : ℕ) → IsLinked s → Leaves IsLinked (idle_bit s drive bit)
unfolding idle_bit
idle_bit-IsLinked s drive bit v =
    either_way (s.idle_needed && bit == 0) (λ _. refused)
      (λ _.
        either_way (bit != 0)
          (λ _. leaves (
            if_keeps IsLinked (ltb s.preamble 32) (λ _. same_link v refl refl refl)
              (λ _. same_link v refl refl refl)))
          (λ _.
            either_way (not drive || (not s.synchronized && ltb s.preamble 32)) (λ _. refused)
              (λ _. leaves (same_link v refl refl refl))))

header_bit-IsLinked :
    (s : Phy) (drive : Bool) (bit : ℕ) → IsLinked s → Leaves IsLinked (header_bit s drive bit)
unfolding header_bit
header_bit-IsLinked s drive bit v =
    let header = bit_or (u32 (s.header * 2)) bit in
    either_way (not drive) (λ _. refused)
      (λ _.
        either_way (s.bits + 1 == 2 && header != 1) (λ _. refused)
          (λ _.
            either_way (s.bits + 1 == 4 && bit_and header 3 != 1 && bit_and header 3 != 2)
              (λ _. refused) (λ _. leaves (same_link v refl refl refl))))

shift_in-IsLinked : (s : Phy) (bit : ℕ) → IsLinked s → IsLinked (shift_in s bit)
unfolding shift_in
shift_in-IsLinked s bit v =
    if_keeps IsLinked (leb 16 s.bits) (λ _. same_link v refl refl refl) (λ _. v)

write_bit-IsLinked :
    (s : Phy) (drive : Bool) (bit : ℕ) → IsLinked s → Leaves IsLinked (write_bit s drive bit)
unfolding write_bit
write_bit-IsLinked s drive bit v =
    let taken = shift_in s bit in
    either_way (not drive || (s.bits == 14 && bit != 1) || (s.bits == 15 && bit != 0))
      (λ _. refused)
      (λ _.
        either_way (s.bits == 31 && address s == 1)
          (λ _.
            then_leaves _ (write-IsLinked taken (target s) taken.data' (shift_in-IsLinked s bit v))
              (λ n w. leaves (next_bit-IsLinked n w)))
          (λ _. leaves (next_bit-IsLinked taken (shift_in-IsLinked s bit v))))

clock_bit-IsLinked :
    (s : Phy) (drive : Bool) (bit : ℕ) → IsLinked s → Leaves IsLinked (clock_bit s drive bit)
unfolding clock_bit
clock_bit-IsLinked s drive bit v =
    either_way (not s.frame) (λ _. idle_bit-IsLinked s drive bit v)
      (λ _.
        either_way (ltb s.bits 14) (λ _. header_bit-IsLinked s drive bit v)
          (λ _.
            either_way (op s == 2)
              (λ _. either_way drive (λ _. refused) (λ _. leaves (next_bit-IsLinked s v)))
              (λ _. write_bit-IsLinked s drive bit v)))

falling_edge-IsLinked : (s : Phy) → IsLinked s → Leaves IsLinked (falling_edge s)
unfolding falling_edge
falling_edge-IsLinked s v =
    either_way (not s.frame || ltb s.bits 14 || op s != 2)
      (λ _. leaves (same_link v refl refl refl))
      (λ _.
        either_way (s.bits == 15)
          (λ _.
            either_way (address s == 1)
              (λ _.
                then_leaves _
                  (read-IsLinked (record s { mdi = 0; data' = 0xffff }) (target s)
                    (same_link v refl refl refl))
                  (λ r w. leaves (same_link w refl refl refl)))
              (λ _. leaves (same_link v refl refl refl)))
          (λ _.
            either_way (leb 16 s.bits) (λ _. leaves (same_link v refl refl refl))
              (λ _. leaves (same_link v refl refl refl))))

edge-IsLinked : (s : Phy) (value : ℕ) → IsLinked s → Leaves IsLinked (edge s value)
unfolding edge
edge-IsLinked s value v =
    either_way (not (has s.pir 1) && has value 1) (λ _. clock_bit-IsLinked s (has value 2) _ v)
      (λ _.
        either_way (has s.pir 1 && not (has value 1)) (λ _. falling_edge-IsLinked s v)
          (λ _. leaves v))

-- A store to PIR keeps it, whatever bit of a frame it is.
pub pir_write-IsLinked : (s : Phy) (value : ℕ) → IsLinked s → Leaves IsLinked (pir_write s value)
unfolding pir_write
pir_write-IsLinked s value v =
    either_way (has value (not32 15)) (λ _. refused)
      (λ _. then_leaves _ (edge-IsLinked s value v) (λ n w. leaves (same_link w refl refl refl)))

-- What the PHY may be after a reset and any operations that were not refused.
pub data Reached : Phy → Type 0 where
  after_reset : (now : ℕ) → Reached (reset now)
  as_cp : {s : Phy} (cp : Bool) → Reached s → Reached (record s { cp = cp })
  timed : {s n : Phy} (t : ℕ) → Reached s → advance s t ≡ some n → Reached n
  peered :
      {s n : Phy} (present : Bool) (advertisement t : ℕ)
      → Reached s
      → set_peer s present advertisement t ≡ some n
      → Reached n
  clocked : {s n : Phy} (value : ℕ) → Reached s → pir_write s value ≡ some n → Reached n

linked : {n : Phy} → Leaves IsLinked (some n) → IsLinked n
linked (leaves v) = v

left : {o : Option Phy} {n : Phy} → Leaves IsLinked o → o ≡ some n → IsLinked n
left w e = linked (subst (Leaves IsLinked) e w)

-- However the PHY was reached, its link is up only to a peer, and never during a software reset.
pub Reached-IsLinked : {s : Phy} → Reached s → IsLinked s
unfolding reset
Reached-IsLinked (after_reset now) = is_down (reset now) refl
Reached-IsLinked (as_cp cp r) = same_link (Reached-IsLinked r) refl refl refl
Reached-IsLinked (timed {s = s} t r e) = left (advance-IsLinked s t (Reached-IsLinked r)) e
Reached-IsLinked (peered {s = s} b a t r e) =
    left (set_peer-IsLinked s b a t (Reached-IsLinked r)) e
Reached-IsLinked (clocked {s = s} value r e) =
    left (pir_write-IsLinked s value (Reached-IsLinked r)) e
