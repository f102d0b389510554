-- ===== src/ElfUtils/Branch.antt =====
-- The branch instructions that cases R_PPC_REL24 and R_PPC_REL14 of src/ElfUtils.cpp write.
use custom_rpxloader.Base.{
  ℕ, ◌+◌, ◌*◌, ◌-◌, ◌/◌, ◌%◌, ◌^◌, ◌≤◌, ◌<◌, ◌≡◌, true, false, ◌⊎◌, arith, bit_and, bit_or,
  bit_and_low, bit_and_field, bit_and_branch24, bit_and_branch14, bit_or_branch,
}
use custom_rpxloader.Machine.{Machine, IsBytes, sub32, read32, write32}
use custom_rpxloader.Machine.Laws.{read32-lt}
use custom_rpxloader.ElfUtils.{patch_rel24, link_rel14}
use custom_rpxloader.ElfUtils.Ppc.{displacement24, displacement14}

-- A distance that an I-form branch can express: a multiple of 4 in 26 signed bits.
abbrev pub Fits24 : ℕ → Type 0
Fits24 d = (d % 4 ≡ 0) × ((d < 2 ^ 25) ⊎ (2 ^ 32 - 2 ^ 25 ≤ d))

-- A distance that `elfLinkOne` accepts for a B-form branch.
abbrev pub Fits14 : ℕ → Type 0
Fits14 d = (d % 4 ≡ 0) × ((d ≤ 0x7ffc) ⊎ (2 ^ 32 - 0x7ffc ≤ d))

-- The instruction `insn` with the displacement `d` in the place of its own.
abbrev pub insn24 : ℕ → ℕ → ℕ
insn24 insn d = insn / 2 ^ 26 * 2 ^ 26 + d % 2 ^ 26 / 4 * 4 + insn % 4

-- For a B-form branch: bit 22, which belongs to the field BO, is cleared too.
abbrev pub insn14 : ℕ → ℕ → ℕ
insn14 insn d =
    insn / 2 ^ 23 * 2 ^ 23 + insn / 2 ^ 16 % 2 ^ 6 * 2 ^ 16 + d % 2 ^ 16 / 4 * 4 + insn % 4

masks24 :
    (insn d : ℕ)
    → insn < 2 ^ 32
    → bit_or (bit_and insn 0xfc000003) (bit_and d 0x03fffffc) ≡ insn24 insn d
masks24 insn d h = ground (
  arith,
  bit_and_branch24 insn h,
  bit_and_field 2 24 d,
  bit_or_branch 24 (insn / 2 ^ 26) (insn % 4) (d / 4 % 2 ^ 24),
)

masks14 :
    (insn d : ℕ)
    → insn < 2 ^ 32
    → bit_or (bit_and insn 0xffbf0003) (bit_and d 0x0000fffc) ≡ insn14 insn d
masks14 insn d h = ground (
  arith,
  bit_and_branch14 insn h,
  bit_and_field 2 14 d,
  bit_or_branch 14 (insn / 2 ^ 23 * 2 ^ 7 + insn / 2 ^ 16 % 2 ^ 6) (insn % 4) (d / 4 % 2 ^ 14),
)

module _ (d target : ℕ) (s : Machine) where
  pub patch_rel24_misfit : d < 2 ^ 32 → ¬ Fits24 d → patch_rel24 d target s ≡ (false, s)
  unfolding patch_rel24
  patch_rel24_misfit h n = ground (arith, bit_and_low 2 d, bit_and_field 25 7 d)

  pub patch_rel24_fit :
      d < 2 ^ 32
      → IsBytes s.mem
      → Fits24 d
      → patch_rel24 d target s
        ≡ (true, record s { mem = write32 s.mem target (insn24 (read32 s.mem target) d) })
  unfolding patch_rel24
  patch_rel24_fit h b f = ground (
    arith,
    bit_and_low 2 d,
    bit_and_field 25 7 d,
    masks24 (read32 s.mem target) d (read32-lt target b),
  )

module _ (value target : ℕ) (s : Machine) (hv : value < 2 ^ 32) (ht : target < 2 ^ 32) where
  pub link_rel14_misfit : ¬ Fits14 (sub32 value target) → link_rel14 value target s ≡ (false, s)
  unfolding link_rel14
  link_rel14_misfit n =
      ground (arith, bit_and_low 2 (sub32 value target), bit_and_field 15 17 (sub32 value target))

  pub link_rel14_fit :
      IsBytes s.mem
      → Fits14 (sub32 value target)
      → link_rel14 value target s ≡ (
        true,
        record s { mem = write32 s.mem target (insn14 (read32 s.mem target) (sub32 value target)) },
      )
  unfolding link_rel14
  link_rel14_fit b f = ground (
    arith,
    bit_and_low 2 (sub32 value target),
    bit_and_field 15 17 (sub32 value target),
    masks14 (read32 s.mem target) (sub32 value target) (read32-lt target b),
  )

-- The processor reads the displacement back out of the instruction.
pub displacement24-insn24 :
    (insn d : ℕ) → d < 2 ^ 32 → Fits24 d → displacement24 (insn24 insn d) ≡ d
displacement24-insn24 insn d h f = ground arith

pub displacement14-insn14 :
    (insn d : ℕ) → d < 2 ^ 32 → Fits14 d → displacement14 (insn14 insn d) ≡ d
displacement14-insn14 insn d h f = ground arith

pub insn24-lt : (insn d : ℕ) → insn < 2 ^ 32 → insn24 insn d < 2 ^ 32
insn24-lt insn d h = omega arith

pub insn14-lt : (insn d : ℕ) → insn < 2 ^ 32 → insn14 insn d < 2 ^ 32
insn14-lt insn d h = omega arith
