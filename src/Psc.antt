-- ===== src/Psc.antt =====
-- emulator/qemu/cdj_c6747_psc.h and .c: the two power and sleep controllers. A GO command latches
-- the targets of a power domain, and eight ticks later its modules take them on.
pub mod Tick
pub mod Go
mod Tests
use Prim.Native.Nat.{bit_and, bit_or}
use cdj2000_emulator.Prelude.{
  ℕ, zero, suc, ◌+◌, ◌-◌, ◌*◌, ◌/◌, ◌%◌, ◌^◌, ◌==◌, ◌!=◌, ltb, leb, if◌then◌else◌, Bool, true,
  false, not, ◌&&◌, ◌||◌, Option, none, some,
}
use cdj2000_emulator.Prelude.Arrays.{Array, update}
use cdj2000_emulator.Prelude.Word.{has, not64}

-- `CdjC6747Psc`: indexed by bank, then by module, `remaining` by bank, then by power domain.
pub record Psc : Type 0 where
  pub control : Array (Array ℕ)
  pub status : Array (Array ℕ)
  pub target : Array (Array ℕ)
  pub remaining : Array (Array ℕ)

abbrev pub set_at : Array (Array ℕ) → ℕ → ℕ → ℕ → Array (Array ℕ)
set_at a b m v = update a b (update (a b) m v)

pub populated : ℕ → ℕ → Bool
populated b m = has (if b == 0 then 0xba3f else 0x87333ffe) (2 ^ m)

pub always_enabled : ℕ → ℕ → Bool
always_enabled b m = has (if b == 0 then 0x1800 else 0x87000000) (2 ^ m)

pub domain : ℕ → ℕ → ℕ
domain b m = if m == (if b != 0 then 31 else 15) then 1 else 0

-- `mapped`: the bank and the offset of an address.
pub mapped : ℕ → Option (ℕ × ℕ)
mapped address =
    if has address 3
    then none
    else if leb 0x01c10000 address && ltb address 0x01c11000
    then some (0, bit_and address 0xfff)
    else if leb 0x01e27000 address && ltb address 0x01e28000
    then some (1, bit_and address 0xfff)
    else none

-- The function `status`.
pub status_of : ℕ → ℕ
status_of state =
    bit_or (bit_or (bit_or 0xb00 state) (if leb 2 state then 0x400 else 0))
      (if state == 1 || state == 3 then 0x1000 else 0)

-- The body of the loop of `cdj_c6747_psc_reset` over modules.
pub reset_module : Psc → ℕ → ℕ → Psc
reset_module s b m =
    if not (populated b m)
    then s
    else let boot = b == 0 && m == 15 in
      let state : ℕ = if always_enabled b m || boot then 3 else 0 in
      record s {
        status = set_at s.status b m (status_of state);
        control = set_at s.control b m (if boot then bit_or state 0x100 else state);
      }

-- `for (m = ...; m < 32; ++m) body`, by the rounds left.
pub for_modules : (Psc → ℕ → Psc) → ℕ → ℕ → Psc → Psc
for_modules body zero m s = s
for_modules body (suc rounds) m s = for_modules body rounds (m + 1) (body s m)

pub reset : Psc
unfolding for_modules reset_module
reset =
    let fresh : Psc = record {
      control = λ b m. 0;
      status = λ b m. 0;
      target = λ b m. 0;
      remaining = λ b d. 0;
    } in
    for_modules (λ s m. reset_module s 1 m) 32 0
      (for_modules (λ s m. reset_module s 0 m) 32 0 fresh)

-- Whether a module is driven by a power domain.
abbrev pub driven : ℕ → ℕ → ℕ → Bool
driven b d m = populated b m && domain b m == d

abbrev pub settle_module : ℕ → ℕ → Psc → ℕ → Psc
settle_module b d s m =
    if driven b d m then record s { status = set_at s.status b m (status_of (s.target b m)) } else s

-- The body of the loop of `cdj_c6747_psc_tick` over banks and domains.
pub tick_domain : ℕ → ℕ → Psc → Psc
tick_domain b d s =
    if s.remaining b d == 0
    then s
    else let s' : Psc = record s { remaining = set_at s.remaining b d (s.remaining b d - 1) } in
      if s'.remaining b d != 0 then s' else for_modules (settle_module b d) 32 0 s'

-- `cdj_c6747_psc_tick`
pub tick : Psc → Psc
tick s = tick_domain 1 1 (tick_domain 1 0 (tick_domain 0 1 (tick_domain 0 0 s)))

pub read_at : Psc → ℕ → ℕ → Option ℕ
read_at s b off =
    if off == 0x120
    then some 0
    else if off == 0x128
    then some
        (bit_or (if s.remaining b 0 != 0 then 1 else 0) (if s.remaining b 1 != 0 then 2 else 0))
    else if (leb 0x800 off && ltb off 0x880) || (leb 0xa00 off && ltb off 0xa80)
    then (let m = bit_and off 0x7f / 4 in
        if not (populated b m)
        then none
        else some (if ltb off 0xa00 then s.status b m else s.control b m))
    else none

-- `cdj_c6747_psc_read`
pub read : Psc → ℕ → Option ℕ
unfolding read_at
read s address = elim (mapped address) [ none ↦ none | some (b, off) ↦ read_at s b off ]

abbrev pub latch_module : ℕ → ℕ → Psc → ℕ → Psc
latch_module b d s m =
    if driven b d m
    then record s {
      target = set_at s.target b m (if always_enabled b m then 3 else bit_and (s.control b m) 3);
    }
    else s

-- The body of the loop of a PTCMD write over domains.
pub go_domain : ℕ → ℕ → ℕ → Psc → Psc
go_domain value b d s =
    if not (has value (2 ^ d)) || s.remaining b d != 0
    then s
    else let s' = for_modules (latch_module b d) 32 0 s in
      record s' { remaining = set_at s'.remaining b d 8 }

pub go : ℕ → ℕ → Psc → Psc
go value b s = go_domain value b 1 (go_domain value b 0 s)

-- The rest of `cdj_c6747_psc_write` at a bank and an offset.
pub write_at : Psc → ℕ → ℕ → ℕ → Bool → Bool × Psc
write_at s b off value commit =
    if leb 0xa00 off && ltb off 0xa80
    then (let m = (off - 0xa00) / 4 in
        let boot = b == 0 && m == 15 in
        if not (populated b m)
          || has value (not64 (if boot then 0x103 else 3))
          || (boot && value != 0x103)
        then (false, s)
        else if commit
        then (true, record s { control = set_at s.control b m value })
        else (true, s))
    else if off != 0x120 || has value (not64 3)
    then (false, s)
    else if not commit
    then (true, s)
    else (true, go value b s)

-- `cdj_c6747_psc_write`
pub write : Psc → ℕ → ℕ → ℕ → Bool → Bool × Psc
write s address value size commit =
    if size != 4
    then (false, s)
    else elim (mapped address) [ none ↦ (false, s) | some (b, off) ↦ write_at s b off value commit ]
