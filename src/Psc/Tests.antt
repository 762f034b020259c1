-- ===== src/Psc/Tests.antt =====
-- The PSC after reset, and a GO that enables the modules of a domain.
use cdj2000_emulator.Prelude.{◌-◌, ◌≡◌, refl, true, arith, if◌then◌else◌, leb, some}
use cdj2000_emulator.Psc.{
  Psc, populated, always_enabled, domain, status_of, reset, read, read_at, write, mapped,
}
use cdj2000_emulator.Psc.Go.{wanted, started, ticks, ptcmd, go_settles}

-- Everything off, module 1 of the first controller asked to be enabled.
abbrev off : Psc
off = record { control = λ b m. 3; status = λ b m. 0; target = λ b m. 0; remaining = λ b d. 0 }

abbrev counting : Psc
counting = record off { remaining = λ b d. 5 }

reset_status : read reset 0x01c1083c ≡ some 0x1f03
unfolding read read_at reset mapped populated always_enabled status_of
reset_status = refl

first_domain : domain 0 1 ≡ 0
unfolding domain
first_domain = refl

present : populated 0 1 ≡ true
unfolding populated
present = refl

starts : started 1 off 0 (domain 0 1) ≡ true
unfolding domain
starts = refl

go_settles_example :
    let (accepted, s') = write off (ptcmd 0) 1 4 true in
    (accepted ≡ true)
    × ((ticks 8 s').status 0 1 ≡ (if leb 8 8 then status_of (wanted off 0 1) else 0))
    × ((ticks 8 s').remaining 0 (domain 0 1) ≡ 8 - 8)
go_settles_example = go_settles off 0 1 1 8 (omega arith) (omega arith) (omega arith) present starts
