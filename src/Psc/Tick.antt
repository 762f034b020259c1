-- ===== src/Psc/Tick.antt =====
-- One tick, module by module and domain by domain.
use cdj2000_emulator.Prelude.{
  ℕ, zero, suc, ◌+◌, ◌-◌, ◌<◌, ◌==◌, ltb, leb, if◌then◌else◌, Bool, ◌&&◌, ◌≡◌, refl, arith,
}
use cdj2000_emulator.Psc.{
  Psc, populated, set_at, domain, driven, status_of, for_modules, settle_module, tick_domain, tick,
}

-- Settling a run of modules changes no other field.
settled-rest :
    (b d rounds m : ℕ) (s : Psc)
    → for_modules (settle_module b d) rounds m s
      ≡ record s { status = (for_modules (settle_module b d) rounds m s).status }
unfolding for_modules
settled-rest b d zero m s = refl
settled-rest b d (suc rounds) m s =
    ground (arith, settled-rest b d rounds (m + 1) (settle_module b d s m))

settled-status :
    (b d rounds m : ℕ) (s : Psc) (b' m' : ℕ)
    → (for_modules (settle_module b d) rounds m s).status b' m' ≡ (
        if b' == b && (leb m m' && ltb m' (m + rounds)) && driven b d m'
        then status_of (s.target b m')
        else s.status b' m')
unfolding for_modules
settled-status b d zero m s b' m' = ground arith
settled-status b d (suc rounds) m s b' m' =
    ground (arith, settled-status b d rounds (m + 1) (settle_module b d s m) b' m')

-- Tick of one domain: its count falls by one, and its modules settle when it reaches zero.
abbrev due : Psc → ℕ → ℕ → ℕ → ℕ → Bool
due s b d b' m' = s.remaining b d == 1 && (b' == b && ltb m' 32 && driven b d m')

module _ (b d : ℕ) (s : Psc) where
  domain-rest :
      tick_domain b d s
      ≡ record s { status = (tick_domain b d s).status; remaining = (tick_domain b d s).remaining }
  unfolding tick_domain
  domain-rest = ground (
    arith,
    settled-rest b d 32 0 (record s { remaining = set_at s.remaining b d (s.remaining b d - 1) }),
  )

  domain-remaining :
      (b' d' : ℕ)
      → (tick_domain b d s).remaining b' d'
        ≡ (if b' == b && d' == d then s.remaining b' d' - 1 else s.remaining b' d')
  unfolding tick_domain
  domain-remaining b' d' = ground (
    arith,
    settled-rest b d 32 0 (record s { remaining = set_at s.remaining b d (s.remaining b d - 1) }),
  )

  domain-status :
      (b' m' : ℕ)
      → (tick_domain b d s).status b' m'
        ≡ (if due s b d b' m' then status_of (s.target b m') else s.status b' m')
  unfolding tick_domain
  domain-status b' m' = ground (
    arith,
    settled-status b d 32 0 (record s { remaining = set_at s.remaining b d (s.remaining b d - 1) })
        b' m',
  )

pub domain-lt : (b m : ℕ) → domain b m < 2
unfolding domain
domain-lt b m = ground arith

module _ (s : Psc) where
  s1 : Psc
  s1 = tick_domain 0 0 s

  s2 : Psc
  s2 = tick_domain 0 1 s1

  s3 : Psc
  s3 = tick_domain 1 0 s2

  pub tick-rest : ((tick s).control ≡ s.control) × ((tick s).target ≡ s.target)
  unfolding tick s1 s2 s3
  tick-rest =
      ground (arith, domain-rest 0 0 s, domain-rest 0 1 s1, domain-rest 1 0 s2, domain-rest 1 1 s3)

  -- A tick takes one from the count of every busy domain.
  pub tick-remaining : (b d : ℕ) → b < 2 → d < 2 → (tick s).remaining b d ≡ s.remaining b d - 1
  unfolding tick s1 s2 s3
  tick-remaining b d h k = ground (
    arith,
    domain-remaining 0 0 s b d,
    domain-remaining 0 1 s1 b d,
    domain-remaining 1 0 s2 b d,
    domain-remaining 1 1 s3 b d,
  )

  first_bank :
      (b m : ℕ)
      → m < 32
      → s2.status b m ≡ (
          if b == 0 && populated b m && s.remaining b (domain b m) == 1
          then status_of (s.target b m)
          else s.status b m)
  unfolding s1 s2
  first_bank b m k = ground (
    arith,
    domain-lt b m,
    domain-status 0 0 s b m,
    domain-status 0 1 s1 b m,
    domain-remaining 0 0 s 0 1,
    domain-rest 0 0 s,
  )

  second_bank :
      (b m : ℕ)
      → m < 32
      → (tick s).status b m ≡ (
          if b == 1 && populated b m && s2.remaining b (domain b m) == 1
          then status_of (s2.target b m)
          else s2.status b m)
  unfolding tick s1 s2 s3
  second_bank b m k = ground (
    arith,
    domain-lt b m,
    domain-status 1 0 s2 b m,
    domain-status 1 1 s3 b m,
    domain-remaining 1 0 s2 1 1,
    domain-rest 1 0 s2,
  )

  -- A module changes in a tick exactly if it is populated and the count of its domain is one.
  pub tick-status :
      (b m : ℕ)
      → b < 2
      → m < 32
      → (tick s).status b m ≡ (
          if populated b m && s.remaining b (domain b m) == 1
          then status_of (s.target b m)
          else s.status b m)
  unfolding s1 s2
  tick-status b m h k = ground (
    arith,
    second_bank b m k,
    first_bank b m k,
    domain-rest 0 0 s,
    domain-rest 0 1 s1,
    domain-remaining 0 0 s b (domain b m),
    domain-remaining 0 1 s1 b (domain b m),
  )
