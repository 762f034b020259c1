-- ===== src/Psc/Go.antt =====
-- The transition that a GO command starts: eight ticks, then the latched states.
use Prim.Native.Nat.{bit_and}
use cdj2000_emulator.Prelude.{
  ℕ, zero, suc, ◌+◌, ◌-◌, ◌≤◌, ◌<◌, ◌^◌, ◌==◌, ltb, leb, if◌then◌else◌, Bool, true, false, ◌&&◌,
  ◌≡◌, ◌≢◌, refl, arith,
}
use cdj2000_emulator.Prelude.Word.{has, not64}
use cdj2000_emulator.Psc.{
  Psc, populated, always_enabled, domain, driven, status_of, for_modules, latch_module, go_domain,
  go, tick, write, write_at, mapped,
}
use cdj2000_emulator.Bus.{TwoPhase}
use cdj2000_emulator.Psc.Tick.{domain-lt, tick-rest, tick-remaining, tick-status}

-- The state that a GO command sets for a module.
pub wanted : Psc → ℕ → ℕ → ℕ
wanted s b m = if always_enabled b m then 3 else bit_and (s.control b m) 3

latched-rest :
    (b d rounds m : ℕ) (s : Psc)
    → for_modules (latch_module b d) rounds m s
      ≡ record s { target = (for_modules (latch_module b d) rounds m s).target }
unfolding for_modules
latched-rest b d zero m s = refl
latched-rest b d (suc rounds) m s =
    ground (arith, latched-rest b d rounds (m + 1) (latch_module b d s m))

latched-target :
    (b d rounds m : ℕ) (s : Psc) (b' m' : ℕ)
    → (for_modules (latch_module b d) rounds m s).target b' m' ≡ (
        if b' == b && (leb m m' && ltb m' (m + rounds)) && driven b d m'
        then wanted s b m'
        else s.target b' m')
unfolding for_modules wanted
latched-target b d zero m s b' m' = ground arith
latched-target b d (suc rounds) m s b' m' =
    ground (arith, latched-target b d rounds (m + 1) (latch_module b d s m) b' m')

module _ (value b d : ℕ) (s : Psc) where
  abbrev starts : Bool
  starts = has value (2 ^ d) && s.remaining b d == 0

  go_domain-rest : go_domain value b d s ≡ record s {
    target = (go_domain value b d s).target;
    remaining = (go_domain value b d s).remaining;
  }
  unfolding go_domain
  go_domain-rest = ground (arith, latched-rest b d 32 0 s)

  go_domain-remaining :
      (b' d' : ℕ)
      → (go_domain value b d s).remaining b' d'
        ≡ (if starts && (b' == b && d' == d) then 8 else s.remaining b' d')
  unfolding go_domain
  go_domain-remaining b' d' = ground (arith, latched-rest b d 32 0 s)

  go_domain-target :
      (b' m' : ℕ)
      → (go_domain value b d s).target b' m' ≡ (
          if starts && (b' == b && ltb m' 32 && driven b d m')
          then wanted s b m'
          else s.target b' m')
  unfolding go_domain
  go_domain-target b' m' = ground (arith, latched-target b d 32 0 s b' m')

-- Whether a GO with the command word starts a domain.
abbrev pub started : ℕ → Psc → ℕ → ℕ → Bool
started value s b d = has value (2 ^ d) && s.remaining b d == 0

module _ (value b : ℕ) (s : Psc) where
  go-rest : ((go value b s).control ≡ s.control) × ((go value b s).status ≡ s.status)
  unfolding go
  go-rest =
      ground (arith, go_domain-rest value b 0 s, go_domain-rest value b 1 (go_domain value b 0 s))

  go-remaining :
      (d : ℕ)
      → d < 2
      → (go value b s).remaining b d ≡ (if started value s b d then 8 else s.remaining b d)
  unfolding go
  go-remaining d h = ground (
    arith,
    go_domain-remaining value b 0 s b d,
    go_domain-remaining value b 1 (go_domain value b 0 s) b d,
  )

  go-target :
      (m : ℕ)
      → m < 32
      → populated b m ≡ true
      → (go value b s).target b m
        ≡ (if started value s b (domain b m) then wanted s b m else s.target b m)
  unfolding go
  go-target m h p = ground (
    arith,
    domain-lt b m,
    go_domain-target value b 0 s b m,
    go_domain-target value b 1 (go_domain value b 0 s) b m,
    go_domain-remaining value b 0 s b 1,
    go_domain-rest value b 0 s,
    wanted_same,
  )
    where
      wanted_same : wanted (go_domain value b 0 s) b m ≡ wanted s b m
      wanted_same = unfold wanted in ground (arith, go_domain-rest value b 0 s)

pub ticks : ℕ → Psc → Psc
ticks zero s = s
ticks (suc n) s = ticks n (tick s)

ticks-remaining :
    (n : ℕ) (s : Psc) (b d : ℕ) → b < 2 → d < 2 → (ticks n s).remaining b d ≡ s.remaining b d - n
unfolding ticks
ticks-remaining zero s b d h k = omega arith
ticks-remaining (suc n) s b d h k =
    omega (arith, ticks-remaining n (tick s) b d h k, tick-remaining s b d h k)

ticks-status :
    (n : ℕ) (s : Psc) (b m : ℕ)
    → b < 2
    → m < 32
    → populated b m ≡ true
    → (ticks n s).status b m ≡ (
        if ltb 0 (s.remaining b (domain b m)) && leb (s.remaining b (domain b m)) n
        then status_of (s.target b m)
        else s.status b m)
unfolding ticks
ticks-status zero s b m h k p = ground arith
ticks-status (suc n) s b m h k p = ground (
  arith,
  ticks-status n (tick s) b m h k p,
  tick-status s b m h k,
  tick-rest s,
  domain-lt b m,
  tick-remaining s b (domain b m) h,
)

-- The address of a bank's PTCMD.
abbrev pub ptcmd : ℕ → ℕ
ptcmd b = if b == 0 then 0x01c10120 else 0x01e27120

go_word : (value : ℕ) → value ≤ 3 → has value (not64 3) ≡ false
go_word zero h = refl
go_word (suc zero) h = refl
go_word (suc (suc zero)) h = refl
go_word (suc (suc (suc zero))) h = refl
go_word (suc (suc (suc (suc v)))) h = absurd (omega arith)

write-go :
    (s : Psc) (b value : ℕ)
    → b < 2
    → value ≤ 3
    → write s (ptcmd b) value 4 true ≡ (true, go value b s)
unfolding write write_at mapped
write-go s zero value h k = ground (arith, go_word value k)
write-go s (suc zero) value h k = ground (arith, go_word value k)
write-go s (suc (suc b)) value h k = absurd (omega arith)

-- A GO command for an idle power domain: the write is accepted, and the status of a populated module
-- of the domain stays as it was for seven ticks and from the eighth on shows the state that the
-- module's control register asked for (enabled, for a module that cannot be turned off); the
-- domain is busy until then.
pub go_settles :
    (s : Psc) (b m value n : ℕ)
    → b < 2
    → m < 32
    → value ≤ 3
    → populated b m ≡ true
    → started value s b (domain b m) ≡ true
    → let (accepted, s') = write s (ptcmd b) value 4 true in
      (accepted ≡ true)
      × ((ticks n s').status b m ≡ (if leb 8 n then status_of (wanted s b m) else s.status b m))
      × ((ticks n s').remaining b (domain b m) ≡ 8 - n)
go_settles s b m value n h k q p go_bit = rw (write-go s b value h q) (
  refl,
  ground (
    arith,
    ticks-status n (go value b s) b m h k p,
    go-target value b s m k p,
    go-rest value b s,
    domain-lt b m,
    go-remaining value b s (domain b m),
  ),
  ground (
    arith,
    domain-lt b m,
    ticks-remaining n (go value b s) b (domain b m) h,
    go-remaining value b s (domain b m),
  ),
)

-- A GO command for a domain that is still counting neither restarts the count nor changes what its
-- populated modules are about to become.
go_busy :
    (s : Psc) (b m value : ℕ)
    → b < 2
    → m < 32
    → value ≤ 3
    → populated b m ≡ true
    → s.remaining b (domain b m) ≢ 0
    → let s' = (write s (ptcmd b) value 4 true).1 in
      (s'.remaining b (domain b m) ≡ s.remaining b (domain b m))
      × (s'.target b m ≡ s.target b m)
      × (s'.status b m ≡ s.status b m)
go_busy s b m value h k q p busy = rw (write-go s b value h q) (
    ground (
      arith,
      domain-lt b m,
      go-target value b s m k p,
      go-rest value b s,
      go-remaining value b s (domain b m),
    ))

-- A store follows the two-phase protocol.
pub write-TwoPhase : (s : Psc) (address value size : ℕ) → TwoPhase write s address value size
unfolding write write_at
write-TwoPhase s address value size = ground arith
