-- ===== src/Bus.antt =====
-- The protocol of the register models of emulator/qemu/cdj_c6747_*.c: the CPU first offers a store
-- with `commit` clear, and repeats it with `commit` set when the transfer takes place. Those of the
-- DMA engine, which move memory too, have their own in Edma/Registers/Check.
use cdj2000_emulator.Prelude.{ℕ, ◌≡◌, Bool, true, false, if◌then◌else◌}

-- `bool write(state, address, value, size, commit)`, with the state returned.
abbrev pub Write : Type 0 → Type 0
Write S = S → ℕ → ℕ → ℕ → Bool → Bool × S

-- At one store: the check phase answers as the commit does and leaves the state alone, and a
-- refused commit leaves it alone too.
abbrev pub TwoPhase : {S : Type 0} → Write S → S → ℕ → ℕ → ℕ → Type 0
TwoPhase write s address value size =
    let (accepted, s') = write s address value size true in
    (write s address value size false ≡ (accepted, s)) × (s' ≡ (if accepted then s' else s))
