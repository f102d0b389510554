-- ===== src/ElfUtils/Conditional.antt =====
-- Relocated conditional branches (src/ElfUtils.cpp, case R_PPC_REL14).
use custom_rpxloader.Base.{ℕ, ◌+◌, ◌*◌, ◌/◌, ◌%◌, ◌^◌, ◌≡◌, Bool, true, false, arith, refl}
use custom_rpxloader.Machine.{Machine, IsBytes, add32, sub32, read32}
use custom_rpxloader.Machine.Laws.{read32-lt, read32-write32}
use custom_rpxloader.Trampolin.{RelocationType}
use custom_rpxloader.ElfUtils.{r_ppc_rel14, link_one}
use custom_rpxloader.ElfUtils.Ppc.{displacement14}
use custom_rpxloader.ElfUtils.Branch.{
  Fits14, insn14, insn14-lt, link_rel14_fit, link_rel14_misfit, displacement14-insn14,
}

module _ (offset addend destination symbol_addr table n : ℕ) (reloc_type : RelocationType)
    (s : Machine) where
  abbrev target : ℕ
  target = add32 destination offset

  abbrev value : ℕ
  value = add32 symbol_addr addend

  abbrev linked : Bool × Machine
  linked = link_one r_ppc_rel14 offset addend destination symbol_addr table n reloc_type s

  abbrev before : ℕ
  before = read32 s.mem target

  abbrev after : ℕ
  after = read32 (linked.1).mem target

  -- The field BO of a conditional branch, which says how the counter and the condition are tested.
  abbrev bo : ℕ → ℕ
  bo instruction = instruction / 2 ^ 21 % 2 ^ 5

  -- A conditional branch whose symbol is in reach is linked: its displacement leads to the symbol's
  -- address plus the addend, and its opcode, the number of its condition bit (BI) and its two flag
  -- bits are kept. The field BO loses its bit of the value 2 if it is set: a branch that is taken at a
  -- counter of 0 (BO 18) becomes one that is taken at any other counter (BO 16).
  pub link_one-conditional :
      IsBytes s.mem
      → Fits14 (sub32 value target)
      → (linked.0 ≡ true)
        × (add32 target (displacement14 after) ≡ value)
        × (after / 2 ^ 26 ≡ before / 2 ^ 26)
        × (bo after + 2 * (before / 2 ^ 22 % 2) ≡ bo before)
        × (after / 2 ^ 16 % 2 ^ 5 ≡ before / 2 ^ 16 % 2 ^ 5)
        × (after % 4 ≡ before % 4)
  unfolding link_one
  link_one-conditional b fits =
      let d = sub32 value target in
      let there : add32 target d ≡ value = omega arith in
      rw
        (
          link_rel14_fit value target s (omega arith) (omega arith) b fits,
          read32-write32 s.mem target (insn14 before d) (insn14-lt before d (read32-lt target b)),
          displacement14-insn14 before d (omega arith) fits,
        )
        (refl, there, omega arith, omega arith, omega arith, omega arith)

  -- Any other distance is refused, and nothing is changed.
  pub link_one-conditional_misfit : ¬ Fits14 (sub32 value target) → linked ≡ (false, s)
  unfolding link_one
  link_one-conditional_misfit n = link_rel14_misfit value target s (omega arith) (omega arith) n
