-- ===== src/Pll.antt =====
-- emulator/qemu/cdj_c6747_pll.h and .c: the PLL controller, its clock rates and the conservative waits
-- that it counts. The stores to its registers are in Pll/Registers.
pub mod Registers
pub mod Wait
pub mod Phase
mod Tests
use Prim.Native.Nat.{bit_and}
use cdj2000_emulator.Prelude.{
  ℕ, zero, suc, ◌+◌, ◌-◌, ◌*◌, ◌/◌, ◌%◌, ◌^◌, ◌==◌, ◌!=◌, ltb, leb, if◌then◌else◌, Bool, true,
  false, not, ◌&&◌, ◌||◌, Option, none, some,
}
use cdj2000_emulator.Prelude.Arrays.{Array}
use cdj2000_emulator.Prelude.Word.{has, u32, u64}

-- `CdjC6747Pll`
pub record Pll : Type 0 where
  pub config : Array ℕ
  pub legacy_bit4_used : Bool
  pub active_dividers : Array ℕ
  pub target_dividers : Array ℕ
  pub command : ℕ
  pub go_remaining : ℕ
  pub oscin_cycles : ℕ
  pub reset_age : ℕ
  pub lock_wait_remaining : ℕ
  pub oscin_phase : ℕ
  pub early_enable : Bool

abbrev pub oscin_hz : ℕ
oscin_hz = 16934400

-- The tables `defaults` and `divider_index`.
pub default_of : ℕ → ℕ
default_of i =
    if i == 0
    then 0xf2
    else if i == 1
    then 0x14
    else if i == 2
    then 0x13
    else if i == 3 || i == 4 || i == 7 || i == 11
    then 0x8000
    else if i == 5 || i == 8
    then 0x8001
    else if i == 6 || i == 10
    then 0x8002
    else if i == 9
    then 0x8003
    else 0x8005

abbrev pub divider_index : ℕ → ℕ
divider_index d = if ltb d 3 then d + 4 else d + 6

pub ratio : ℕ → ℕ
ratio divider = if has divider 0x8000 then bit_and divider 31 + 1 else 1

-- PLLM's multiplier.
abbrev pub multiplier : Pll → ℕ
multiplier s = u32 (s.config 2 + 1)

-- The loop of `lock_wait`.
pub wait_from : ℕ → ℕ → ℕ → ℕ → ℕ
wait_from m square zero wait = wait
wait_from m square (suc rounds) wait = elim (ltb (u64 (wait * wait * m)) square) [
  | true ↦ wait_from m square rounds (u32 (wait + 1))
  | false ↦ wait
]

-- `lock_wait`; 2000 rounds for each unit of the divider are enough.
pub lock_wait : Pll → ℕ
lock_wait s =
    let n = ratio (s.config 3) in wait_from (multiplier s) (u64 (4000000 * n * n)) (2000 * n) 0

-- `valid_operating_point`, from the divider and the multiplier.
pub in_range : ℕ → ℕ → Bool
in_range n m =
    leb (u32 (12000000 * n)) oscin_hz
    && leb oscin_hz (u32 (50000000 * n))
    && leb 4 m
    && leb m 32
    && leb (300000000 * n) (oscin_hz * m)
    && leb (oscin_hz * m) (600000000 * n)

abbrev pub valid_operating_point : Pll → Bool
valid_operating_point s = in_range (ratio (s.config 3)) (multiplier s)

pub enabled_ratio : ℕ → Option ℕ
enabled_ratio reg = if not (has reg 0x8000) then none else some (bit_and reg 31 + 1)

-- `cdj_c6747_pll_sysclk_hz`: numerator and denominator.
pub sysclk_hz : Pll → ℕ → Option (ℕ × ℕ)
sysclk_hz s n =
    if ltb n 1 || ltb 7 n then none else elim (enabled_ratio (s.active_dividers (n - 1))) [
      | none ↦ none
      | some sysdiv ↦
          if not (has (s.config 0) 1)
          then some (oscin_hz, sysdiv)
          else elim (enabled_ratio (s.config 3)) [
            | none ↦ none
            | some prediv ↦ elim (enabled_ratio (s.config 8)) [
              | none ↦ none
              | some postdiv ↦ some (oscin_hz * multiplier s, u32 (prediv * postdiv * sysdiv))
            ]
          ]
    ]

pub reset : Pll
reset = record {
  config = λ i. default_of i;
  legacy_bit4_used = false;
  active_dividers = λ d. default_of (divider_index d);
  target_dividers = λ d. default_of (divider_index d);
  command = 0;
  go_remaining = 0;
  oscin_cycles = 0;
  reset_age = 0;
  lock_wait_remaining = 0;
  oscin_phase = 0;
  early_enable = false;
}

-- The input periods of one DSP cycle, and the phase that is left.
pub elapse : Pll → ℕ × ℕ
elapse s =
    if has (s.config 0) 1
    then (let numerator = ratio (s.config 3) * ratio (s.config 8) * ratio (s.active_dividers 0) in
        let phase = u32 (s.oscin_phase + numerator) in (phase / multiplier s, phase % multiplier s))
    else (ratio (s.active_dividers 0), 0)

pub tick_age : Pll → ℕ → ℕ
tick_age s elapsed =
    if bit_and (s.config 0) 0x12b == 0x100 && ltb s.reset_age 17
    then (if ltb 17 (u32 (s.reset_age + elapsed)) then 17 else u32 (s.reset_age + elapsed))
    else s.reset_age

pub tick_wait : Pll → ℕ → ℕ
tick_wait s elapsed =
    if ltb elapsed s.lock_wait_remaining then s.lock_wait_remaining - elapsed else 0

-- `cdj_c6747_pll_tick`
pub tick : Pll → Pll
tick s =
    let (elapsed, phase) = elapse s in
    record s {
      oscin_phase = phase;
      oscin_cycles = u64 (s.oscin_cycles + elapsed);
      reset_age = tick_age s elapsed;
      lock_wait_remaining = tick_wait s elapsed;
      go_remaining = s.go_remaining - 1;
      active_dividers = if s.go_remaining == 1 then s.target_dividers else s.active_dividers;
    }
