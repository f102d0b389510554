-- ===== src/ElfUtils/Ppc.antt =====
-- The PowerPC instructions that a relocated jump meets, as the processor runs them: the measure
-- for what src/ElfUtils.cpp writes. Only the registers r11, ctr and pc take part.
use custom_rpxloader.Base.{
  ℕ, zero, suc, ◌+◌, ◌*◌, ◌-◌, ◌/◌, ◌%◌, ◌^◌, Bool, ◌&&◌, Option, none, some, bit_or, ltb, ◌==◌,
  if◌then◌else◌,
}
use custom_rpxloader.Machine.{Memory, add32, read32}

pub record Cpu : Type 0 where
  pub r11 : ℕ
  pub ctr : ℕ
  pub pc : ℕ

-- The displacement of an I-form branch (b, bl): 26 bits, sign-extended to 32, low two bits clear.
abbrev pub displacement24 : ℕ → ℕ
displacement24 insn =
    let li = insn % 2 ^ 26 / 4 * 4 in if ltb li (2 ^ 25) then li else li + (2 ^ 32 - 2 ^ 26)

-- The displacement of a B-form branch (bc): 16 bits, sign-extended to 32, low two bits clear.
abbrev pub displacement14 : ℕ → ℕ
displacement14 insn =
    let bd = insn % 2 ^ 16 / 4 * 4 in if ltb bd (2 ^ 15) then bd else bd + (2 ^ 32 - 2 ^ 16)

-- A relative I-form branch, with or without link: opcode 18, the absolute bit clear.
abbrev pub is_branch24 : ℕ → Bool
is_branch24 insn = insn / 2 ^ 26 == 18 && insn / 2 % 2 == 0

-- One instruction: b, lis r11, ori r11 r11, mtctr r11, bctr; any other is not modelled.
unfoldable pub execute : ℕ → Cpu → Option Cpu
execute insn c =
    if is_branch24 insn
    then some (record c { pc = add32 c.pc (displacement24 insn) })
    else if insn / 2 ^ 16 == 0x3d60
    then some (record { r11 = insn % 2 ^ 16 * 2 ^ 16; ctr = c.ctr; pc = add32 c.pc 4 })
    else if insn / 2 ^ 16 == 0x616b
    then some (record { r11 = bit_or c.r11 (insn % 2 ^ 16); ctr = c.ctr; pc = add32 c.pc 4 })
    else if insn == 0x7d6903a6
    then some (record { r11 = c.r11; ctr = c.r11; pc = add32 c.pc 4 })
    else if insn == 0x4e800420
    then some (record c { pc = c.ctr / 4 * 4 })
    else none

-- `n` instructions from where `pc` points.
unfoldable pub run : ℕ → Memory → Cpu → Option Cpu
run zero m c = some c
run (suc n) m c = elim (execute (read32 m c.pc) c) [ none ↦ none | some c' ↦ run n m c' ]
