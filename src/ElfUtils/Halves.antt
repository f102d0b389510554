-- ===== src/ElfUtils/Halves.antt =====
-- The 16-bit relocations of src/ElfUtils.cpp, which share a word between two instructions.
use custom_rpxloader.Base.{
  ℕ, ◌+◌, ◌*◌, ◌-◌, ◌/◌, ◌%◌, ◌^◌, ◌≡◌, arith, ltb, if◌then◌else◌, bit_and, bit_and_low,
}
use custom_rpxloader.Machine.{Machine, add32, sub32, read16, read32}
use custom_rpxloader.Machine.Laws.{read16-write16, read32-write32}
use custom_rpxloader.Trampolin.{RelocationType}
use custom_rpxloader.ElfUtils.{
  r_ppc_addr32, r_ppc_addr16_lo, r_ppc_addr16_hi, r_ppc_addr16_ha, r_ppc_ghs_rel16_ha,
  r_ppc_ghs_rel16_hi, r_ppc_ghs_rel16_lo, link_one,
}

-- A halfword as `addi` and the load instructions read it: sign-extended to 32 bits.
abbrev pub sign_extend16 : ℕ → ℕ
sign_extend16 h = if ltb h (2 ^ 15) then h else h + (2 ^ 32 - 2 ^ 16)

module _ (offset addend destination symbol_addr table n : ℕ) (reloc_type : RelocationType)
    (s : Machine) where
  abbrev target : ℕ
  target = add32 destination offset

  abbrev value : ℕ
  value = add32 symbol_addr addend

  -- The halfword that a relocation of a type leaves at its place.
  abbrev half : ℕ → ℕ
  half type =
      read16 (link_one type offset addend destination symbol_addr table n reloc_type s).1.mem target

  half_lo : half r_ppc_addr16_lo ≡ value % 2 ^ 16
  unfolding link_one
  half_lo =
      ground
        (arith, bit_and_low 16 value, read16-write16 s.mem target (bit_and value 0xffff % 2 ^ 16))

  half_hi : half r_ppc_addr16_hi ≡ value / 2 ^ 16
  unfolding link_one
  half_hi = ground (arith, read16-write16 s.mem target (value / 2 ^ 16 % 2 ^ 16))

  half_ha : half r_ppc_addr16_ha ≡ add32 value 0x8000 / 2 ^ 16
  unfolding link_one
  half_ha = ground (arith, read16-write16 s.mem target (add32 value 0x8000 / 2 ^ 16 % 2 ^ 16))

  abbrev rel_value : ℕ
  rel_value = sub32 value target

  half_rel_lo : half r_ppc_ghs_rel16_lo ≡ rel_value % 2 ^ 16
  unfolding link_one
  half_rel_lo = ground (
    arith,
    bit_and_low 16 rel_value,
    read16-write16 s.mem target (bit_and rel_value 0xffff % 2 ^ 16),
  )

  half_rel_hi : half r_ppc_ghs_rel16_hi ≡ rel_value / 2 ^ 16
  unfolding link_one
  half_rel_hi = ground (arith, read16-write16 s.mem target (rel_value / 2 ^ 16 % 2 ^ 16))

  half_rel_ha : half r_ppc_ghs_rel16_ha ≡ add32 rel_value 0x8000 / 2 ^ 16
  unfolding link_one
  half_rel_ha =
      ground (arith, read16-write16 s.mem target (add32 rel_value 0x8000 / 2 ^ 16 % 2 ^ 16))

  -- The halfwords of the types HI and LO together are the symbol's address plus the addend; so are,
  -- modulo 2 ^ 32, those of HA and LO when the second is added with its sign, as `addi` does. The
  -- relative types do the same for the distance from the place to that address.
  pub halves_join :
      (half r_ppc_addr16_hi * 2 ^ 16 + half r_ppc_addr16_lo ≡ value)
      × (add32 (half r_ppc_addr16_ha * 2 ^ 16) (sign_extend16 (half r_ppc_addr16_lo)) ≡ value)
      × (half r_ppc_ghs_rel16_hi * 2 ^ 16 + half r_ppc_ghs_rel16_lo ≡ rel_value)
      × (add32 (half r_ppc_ghs_rel16_ha * 2 ^ 16) (sign_extend16 (half r_ppc_ghs_rel16_lo))
          ≡ rel_value)
  halves_join = (
    rw (half_hi, half_lo) (omega arith),
    rw (half_ha, half_lo) (ground arith),
    rw (half_rel_hi, half_rel_lo) (omega arith),
    rw (half_rel_ha, half_rel_lo) (ground arith),
  )

  -- The 32-bit type leaves the symbol's address plus the addend at the place.
  pub word_holds :
      read32
        (link_one r_ppc_addr32 offset addend destination symbol_addr table n reloc_type s).1.mem
        target
      ≡ value
  unfolding link_one
  word_holds = read32-write32 s.mem target value (omega arith)
