-- ===== src/Uncond.antt =====
-- emulator/qemu/cdj_c674x_uncond.h and .c: which instruction words take no condition, and the address
-- arithmetic of ADDAB, ADDAH and ADDAW with a long constant.
mod Tests
use Prim.Native.Nat.{bit_and}
use cdj2000_emulator.Prelude.{
  ℕ, ◌+◌, ◌*◌, ◌/◌, ◌%◌, ◌^◌, ◌==◌, ◌!=◌, leb, if◌then◌else◌, Bool, true, false, not, ◌&&◌, ◌||◌,
}
use cdj2000_emulator.Prelude.Word.{has, not32, u32}

-- `CdjC674xUncondKind`
pub data UncondKind : Type 0 where
  none : UncondKind
  addab : UncondKind
  addah : UncondKind
  addaw : UncondKind
  unimplemented : UncondKind
  arm_table : UncondKind

-- What an opcode field means to a unit: `0`, L_DST4 or L_DST5 for .L.
abbrev pub l_dst4 : ℕ
l_dst4 = 1

abbrev pub l_dst5 : ℕ
l_dst5 = 2

pub l_unit_op : ℕ → ℕ
l_unit_op op =
    if op == 0x0c || op == 0x0d || op == 0x0e || op == 0x0f || op == 0x33 || op == 0x34
    then l_dst4
    else if op == 0x36
    then l_dst5
    else 0

abbrev pub m_unimplemented : ℕ
m_unimplemented = 1

abbrev pub m_arm_table : ℕ
m_arm_table = 2

pub m_unit_op : ℕ → ℕ
m_unit_op op =
    if op == 0x1b || op == 0x1f
    then m_arm_table
    else if op == 0x0a
        || op == 0x0b
        || op == 0x0c
        || op == 0x14
        || op == 0x15
        || op == 0x16
        || op == 0x17
        || op == 0x18
        || op == 0x0f
        || op == 0x19
    then m_arm_table
    else 0

-- The .L opcodes with a row in the caller's table.
pub l_kind : ℕ → UncondKind
l_kind op =
    if op == 0x33 || op == 0x34 || op == 0x36 || (leb 0x0c op && leb op 0x0f)
    then arm_table
    else unimplemented

-- The words of the .L unit that are classified.
pub is_l : ℕ → Bool
unfolding l_unit_op
is_l word =
    let l = l_unit_op (bit_and (word / 2 ^ 5) 0x7f) in
    bit_and word 0x1c == 0x18 && (l == l_dst5 || (l == l_dst4 && not (has word (2 ^ 23))))

-- The last test, of SWE and SWENR.
pub swe_kind : ℕ → UncondKind
swe_kind word = if bit_and word (not32 0x2001) == 0x10000000 then unimplemented else none

-- The words of the .M and .S units, and those after them.
pub m_kind : ℕ → UncondKind
unfolding m_unit_op swe_kind
m_kind word =
    let extent = bit_and (word / 2 ^ 10) 3 in
    let m = if has extent 2 then 0 else m_unit_op (bit_and (word / 2 ^ 6) 0x1f) in
    if bit_and word 0x3c != 0x30
    then swe_kind word
    else if m == m_arm_table
    then arm_table
    else if m == m_unimplemented
    then unimplemented
    else if extent == 3 && bit_and (word / 2 ^ 6) 0xf == 0xb
    then arm_table
    else swe_kind word

pub classify : ℕ → UncondKind
unfolding is_l l_kind m_kind
classify word =
    if word / 2 ^ 28 != 1
    then none
    else if bit_and word 0x7c == 0x3c
    then addab
    else if bit_and word 0x7c == 0x5c
    then addah
    else if bit_and word 0x7c == 0x7c
    then addaw
    else if is_l word
    then l_kind (bit_and (word / 2 ^ 5) 0x7f)
    else m_kind word

-- `CdjC674xAddaLong`
pub record AddaLong : Type 0 where
  pub dst : ℕ
  pub side : ℕ
  pub result : ℕ

-- The shift that scales the constant.
pub scale : UncondKind → ℕ
scale addah = 1
scale addaw = 2
scale _ = 0

pub adda_long : UncondKind → ℕ → ℕ → ℕ → AddaLong
unfolding scale
adda_long kind word b14 b15 =
    let base = if has word 0x80 then b15 else b14 in
    record {
      dst = bit_and (word / 2 ^ 23) 31;
      side = bit_and (word / 2) 1;
      result = u32 (base + u32 (bit_and (word / 2 ^ 8) 0x7fff * 2 ^ scale kind));
    }
