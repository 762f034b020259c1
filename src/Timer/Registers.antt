-- ===== src/Timer/Registers.antt =====
-- `cdj_c6747_timers_read` and `cdj_c6747_timers_write`: a read of a counter may latch, capture and
-- restart it, so a read returns the timer too.
use Prim.Native.Nat.{bit_and, bit_or}
use cdj2000_emulator.Prelude.{
  ℕ, ◌+◌, ◌-◌, ◌/◌, ◌^◌, ◌==◌, ◌!=◌, ltb, leb, if◌then◌else◌, Bool, true, false, not, ◌&&◌, ◌||◌,
  Option, none, some,
}
use cdj2000_emulator.Prelude.Arrays.{update}
use cdj2000_emulator.Prelude.Word.{has, not32, u32_max}
use cdj2000_emulator.Timer.{Timer, mode, enamode12, enamode34}

abbrev pub timer0_base : ℕ
timer0_base = 0x01c20000

abbrev pub timer1_base : ℕ
timer1_base = 0x01c21000

-- `decode`: the timer's index and the offset.
pub decode : ℕ → Option (ℕ × ℕ)
decode address =
    if leb timer0_base address && ltb address (timer0_base + 0x1000)
    then some (0, address - timer0_base)
    else if leb timer1_base address && ltb address (timer1_base + 0x1000)
    then some (1, address - timer1_base)
    else none

pub read_reset_selected : Timer → ℕ → Bool
read_reset_selected s readrstmode = has s.tgcr (2 ^ 4) && mode s == 1 && has s.tcr readrstmode

-- The reads of TIM12 and TIM34.
unfoldable pub read_tim12 : Timer → ℕ × Timer
unfolding read_reset_selected
read_tim12 s =
    if mode s == 0
    then (s.tim12, record s { tim34_shadow = s.tim34; tim34_shadow_valid = true })
    else if read_reset_selected s (2 ^ 10)
    then (
      s.tim12,
      record s {
        cap12 = s.tim12;
        prd12 = if enamode12 s == 3 then s.rel12 else s.prd12;
        tim12 = 0;
      },
    )
    else (s.tim12, s)

unfoldable pub read_tim34 : Timer → ℕ × Timer
unfolding read_reset_selected
read_tim34 s =
    let value = if s.tim34_shadow_valid then s.tim34_shadow else s.tim34 in
    let s' = record s { tim34_shadow_valid = false } in
    if read_reset_selected s' (2 ^ 26)
    then (
      value,
      record s' {
        cap34 = s.tim34;
        prd34 = if enamode34 s == 3 then s.rel34 else s.prd34;
        tim34 = 0;
      },
    )
    else (value, s')

-- The switch of `cdj_c6747_timers_read` on the offset, which is a multiple of four.
pub read_at : Timer → ℕ → Option (ℕ × Timer)
unfolding read_tim12 read_tim34
read_at s offset =
    if offset == 0x00
    then some (0x4472020c, s)
    else if offset == 0x04
    then some (s.emumgt, s)
    else if offset == 0x08
    then some (s.gpintgpen, s)
    else if offset == 0x0c
    then some (s.gpdatgpdir, s)
    else if offset == 0x10
    then some (read_tim12 s)
    else if offset == 0x14
    then some (read_tim34 s)
    else if offset == 0x18
    then some (s.prd12, s)
    else if offset == 0x1c
    then some (s.prd34, s)
    else if offset == 0x20
    then some (s.tcr, s)
    else if offset == 0x24
    then some (s.tgcr, s)
    else if offset == 0x28
    then some (s.wdtcr, s)
    else if offset == 0x34
    then some (s.rel12, s)
    else if offset == 0x38
    then some (s.rel34, s)
    else if offset == 0x3c
    then some (s.cap12, s)
    else if offset == 0x40
    then some (s.cap34, s)
    else if offset == 0x44
    then some (s.intctlstat, s)
    else if ltb offset 0x60 || ltb 0x7c offset
    then none
    else some (s.compare_at ((offset - 0x60) / 4), s)

abbrev pub intctl_status : ℕ
intctl_status = 0x000a000a

abbrev pub intctl_enable : ℕ
intctl_enable = 0x00050005

-- The store to TGCR: it may drop the shadow, and holds each half in reset whose bit is clear.
pub write_tgcr : Timer → ℕ → Timer
write_tgcr s word =
    let tgcr = bit_and word 0x0000ff1f in
    record s {
      tgcr = tgcr;
      tim12 = if not (has tgcr 1) then 0 else s.tim12;
      tim34 = if not (has tgcr 2) then 0 else s.tim34;
      tim34_shadow_valid =
          if not (has tgcr 2)
          then false
          else if bit_and (tgcr / 2 ^ 2) 3 != 0
          then false
          else s.tim34_shadow_valid;
    }

pub write_intctlstat : Timer → ℕ → Timer
write_intctlstat s word =
    let status = bit_and s.intctlstat intctl_status in
    let status = bit_and status (not32 (bit_and word intctl_status)) in
    record s { intctlstat = bit_or status (bit_and word intctl_enable) }

pub write_wdtcr : Timer → ℕ → Timer
write_wdtcr s word =
    let status = bit_and s.wdtcr (2 ^ 15) in
    let status = if has word (2 ^ 15) then 0 else status in
    record s { wdtcr = bit_or (bit_and word 0xffff4000) status }

-- The switch of `cdj_c6747_timers_write`: the timer after a store that is accepted, of which each
-- register looks at `commit` itself.
pub store_at : Timer → ℕ → ℕ → Bool → Option Timer
store_at s offset word commit =
    if offset == 0x04
    then some (if commit then record s { emumgt = bit_and word 3 } else s)
    else if offset == 0x08
    then some (if commit then record s { gpintgpen = bit_and word 0x00030033 } else s)
    else if offset == 0x0c
    then some (if commit then record s { gpdatgpdir = bit_and word 0x00030003 } else s)
    else if offset == 0x10
    then some (if commit then record s { tim12 = word } else s)
    else if offset == 0x14
    then some (if commit then record s { tim34 = word; tim34_shadow_valid = false } else s)
    else if offset == 0x18
    then some (if commit then record s { prd12 = word } else s)
    else if offset == 0x1c
    then some (if commit then record s { prd34 = word } else s)
    else if offset == 0x20
    then some (if commit then record s { tcr = bit_and word 0x04c03ffe } else s)
    else if offset == 0x24
    then some (if commit then write_tgcr s word else s)
    else if offset == 0x28
    then some (if commit then write_wdtcr s word else s)
    else if offset == 0x34
    then some (if commit then record s { rel12 = word } else s)
    else if offset == 0x38
    then some (if commit then record s { rel34 = word } else s)
    else if offset == 0x3c
    then some (if commit then record s { cap12 = word } else s)
    else if offset == 0x40
    then some (if commit then record s { cap34 = word } else s)
    else if offset == 0x44
    then some (if commit then write_intctlstat s word else s)
    else if ltb offset 0x60 || ltb 0x7c offset
    then none
    else some (
        if commit
        then record s { compare_at = update s.compare_at ((offset - 0x60) / 4) word }
        else s)

-- The pair of timers, by index.
abbrev pub pick : ℕ → Timer × Timer → Timer
pick i (a, b) = if i == 0 then a else b

abbrev pub put : ℕ → Timer → Timer × Timer → Timer × Timer
put i s (a, b) = if i == 0 then (s, b) else (a, s)

pub timers_read : Timer × Timer → ℕ → Option (ℕ × (Timer × Timer))
timers_read ts address = elim (decode address) [
  | none ↦ none
  | some (i, offset) ↦ if has offset 3 then none else elim (read_at (pick i ts) offset) [
    | none ↦ none
    | some (value, s) ↦ some (value, put i s ts)
  ]
]

pub timers_write : Timer × Timer → ℕ → ℕ → ℕ → Bool → Bool × (Timer × Timer)
timers_write ts address value size commit = elim (decode address) [
  | none ↦ (false, ts)
  | some (i, offset) ↦
      if size != 4 || ltb u32_max value || has offset 3 || offset == 0
      then (false, ts)
      else elim (store_at (pick i ts) offset value commit) [
        | none ↦ (false, ts)
        | some s ↦ (true, put i s ts)
      ]
]
