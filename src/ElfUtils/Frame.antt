-- ===== src/ElfUtils/Frame.antt =====
-- What `elfLinkOne` (src/ElfUtils.cpp) leaves alone, on every branch.
use custom_rpxloader.Base.{
  ℕ, ◌+◌, ◌*◌, ◌/◌, ◌%◌, ◌^◌, ◌≤◌, ◌<◌, ◌≡◌, ◌≢◌, refl, true, false, some, ◌⊎◌, inl, inr, arith,
  bit_and, bit_or, Option-cases, if_ind, if◌then◌else◌, Bool, ◌==◌,
}
use custom_rpxloader.Machine.{Machine, IsBytes, add32, sub32, read32}
use custom_rpxloader.Machine.Laws.{
  SameOutside, write32-outside, write16-outside, write32-IsBytes, write16-IsBytes,
}
use custom_rpxloader.Trampolin.{RelocationType, entry_size, find_slot}
use custom_rpxloader.Trampolin.Laws.{IsFirst, find_slot-IsFirst}
use custom_rpxloader.ElfUtils.{
  r_ppc_none, r_ppc_addr32, r_ppc_addr16_lo, r_ppc_addr16_hi, r_ppc_addr16_ha, r_ppc_dtpmod32,
  r_ppc_dtprel32, r_ppc_ghs_rel16_ha, r_ppc_ghs_rel16_hi, r_ppc_ghs_rel16_lo, r_ppc_rel24,
  r_ppc_rel14, patch_rel24, link_rel14, link_far, link_rel24, link_one, fill_slot, store32, store16,
}
use custom_rpxloader.ElfUtils.Code.{fill_slot-outside, fill_slot-IsBytes}

-- The address `x` lies outside the `n` bytes at `a`.
abbrev pub Beside : ℕ → ℕ → ℕ → Type 0
Beside x a n = (x < a) ⊎ (a + n ≤ x)

patch_rel24-outside :
    (d target : ℕ) (s : Machine)
    → SameOutside target (target + 4) s.mem (patch_rel24 d target s).1.mem
unfolding patch_rel24
patch_rel24-outside d target s x h = ground (
  arith,
  write32-outside s.mem target
      (bit_or (bit_and (read32 s.mem target) 0xfc000003) (bit_and d 0x03fffffc)) x,
)

link_rel14-outside :
    (value target : ℕ) (s : Machine)
    → SameOutside target (target + 4) s.mem (link_rel14 value target s).1.mem
unfolding link_rel14
link_rel14-outside value target s x h = ground (
  arith,
  write32-outside s.mem target
      (bit_or (bit_and (read32 s.mem target) 0xffbf0003) (bit_and (sub32 value target) 0x0000fffc))
      x,
)

patch_rel24-IsBytes :
    (d target : ℕ) (s : Machine) → IsBytes s.mem → IsBytes (patch_rel24 d target s).1.mem
unfolding patch_rel24
patch_rel24-IsBytes d target s h x = ground (
  arith,
  h x,
  write32-IsBytes target (bit_or (bit_and (read32 s.mem target) 0xfc000003) (bit_and d 0x03fffffc))
      h x,
)

link_rel14-IsBytes :
    (value target : ℕ) (s : Machine) → IsBytes s.mem → IsBytes (link_rel14 value target s).1.mem
unfolding link_rel14
link_rel14-IsBytes value target s h x = ground (
  arith,
  h x,
  write32-IsBytes target
      (bit_or (bit_and (read32 s.mem target) 0xffbf0003) (bit_and (sub32 value target) 0x0000fffc))
      h x,
)

module _ (value target addend table n : ℕ) (reloc_type : RelocationType) (s : Machine)
    (h : IsBytes s.mem) (x : ℕ) where
  link_far-IsBytes : (link_far value target addend table n reloc_type s).1.mem x < 256
  unfolding link_far
  link_far-IsBytes = elim (Option-cases (find_slot s.mem n table)) [
    | inl e ↦ rw e (ground (arith, h x))
    | inr (slot, e) ↦ rw e (
        ground (
          arith,
          h x,
          patch_rel24-IsBytes (sub32 (add32 slot addend) target) target
              (fill_slot slot value reloc_type s) (fill_slot-IsBytes slot value reloc_type s h) x,
        ))
  ]

  link_rel24-IsBytes : (link_rel24 value target addend table n reloc_type s).1.mem x < 256
  unfolding link_rel24
  link_rel24-IsBytes =
      ground (arith, link_far-IsBytes, patch_rel24-IsBytes (sub32 value target) target s h x)

module _ (value target addend table n : ℕ) (reloc_type : RelocationType) (s : Machine) (x : ℕ)
    (beside : Beside x target 4)
    (spared : (slot : ℕ) → find_slot s.mem n table ≡ some slot → Beside x slot entry_size) where
  link_far-outside : (link_far value target addend table n reloc_type s).1.mem x ≡ s.mem x
  unfolding link_far
  link_far-outside = elim (Option-cases (find_slot s.mem n table)) [
    | inl e ↦ rw e (ground arith)
    | inr (slot, e) ↦ rw e (
        ground (
          arith,
          spared slot e,
          patch_rel24-outside (sub32 (add32 slot addend) target) target
              (fill_slot slot value reloc_type s) x,
          fill_slot-outside slot value reloc_type s x,
        ))
  ]

  link_rel24-outside : (link_rel24 value target addend table n reloc_type s).1.mem x ≡ s.mem x
  unfolding link_rel24
  link_rel24-outside =
      ground (arith, link_far-outside, patch_rel24-outside (sub32 value target) target s x)

module _ (type offset addend destination symbol_addr table n : ℕ) (reloc_type : RelocationType)
    (s : Machine) where
  abbrev target : ℕ
  target = add32 destination offset

  abbrev value : ℕ
  value = add32 symbol_addr addend

  abbrev rel_value : ℕ
  rel_value = sub32 value target

  abbrev result : Bool × Machine
  result = link_one type offset addend destination symbol_addr table n reloc_type s

  -- What holds of every way through the switch holds of the result.
  link_one_ind :
      (P : Bool × Machine → Type 0)
      → P (true, s)
      → P (false, s)
      → ((v : ℕ) → P (store32 target v s))
      → ((v : ℕ) → P (store16 target v s))
      → P (link_rel14 (add32 symbol_addr addend) target s)
      → P (link_rel24 (add32 symbol_addr addend) target addend table n reloc_type s)
      → P result
  unfolding link_one
  link_one_ind P done failed word half rel14 rel24 = if_ind P (type == r_ppc_none) done (
      if_ind P (type == r_ppc_addr32) (word value) (
        if_ind P (type == r_ppc_addr16_lo) (half (bit_and value 0xffff)) (
          if_ind P (type == r_ppc_addr16_hi) (half (value / 2 ^ 16)) (
            if_ind P (type == r_ppc_addr16_ha) (half (add32 value 0x8000 / 2 ^ 16)) (
              if_ind P (type == r_ppc_dtpmod32) done
                (if_ind P (type == r_ppc_dtprel32) (word value) relative))))))
    where
      relative : P (
          if type == r_ppc_ghs_rel16_ha
          then store16 target (add32 rel_value 0x8000 / 2 ^ 16) s
          else if type == r_ppc_ghs_rel16_hi
          then store16 target (rel_value / 2 ^ 16) s
          else if type == r_ppc_ghs_rel16_lo
          then store16 target (bit_and rel_value 0xffff) s
          else if type == r_ppc_rel14
          then link_rel14 value target s
          else if type == r_ppc_rel24
          then link_rel24 value target addend table n reloc_type s
          else (false, s))
      relative = if_ind P (type == r_ppc_ghs_rel16_ha) (half (add32 rel_value 0x8000 / 2 ^ 16)) (
          if_ind P (type == r_ppc_ghs_rel16_hi) (half (rel_value / 2 ^ 16)) (
            if_ind P (type == r_ppc_ghs_rel16_lo) (half (bit_and rel_value 0xffff))
              (if_ind P (type == r_ppc_rel14) rel14 (if_ind P (type == r_ppc_rel24) rel24 failed))))

  link_one-outside :
      (x : ℕ)
      → Beside x target 4
      → ((slot : ℕ) → find_slot s.mem n table ≡ some slot → Beside x slot entry_size)
      → result.1.mem x ≡ s.mem x
  link_one-outside x beside spared =
      link_one_ind (λ p. p.1.mem x ≡ s.mem x) refl refl
        (λ v. write32-outside s.mem target v x beside)
        (λ v. write16-outside s.mem target (v % 2 ^ 16) x (ground arith))
        (link_rel14-outside value target s x beside)
        (link_rel24-outside value target addend table n reloc_type s x beside spared)

  -- `elfLinkOne` changes no byte but the four at the place that it relocates and those of the
  -- trampoline table.
  pub link_one-frame :
      (x : ℕ) → Beside x target 4 → Beside x table (entry_size * n) → result.1.mem x ≡ s.mem x
  link_one-frame x beside apart =
      link_one-outside x beside λ slot found. in_table slot (find_slot-IsFirst s.mem n table found)
    where
      in_table : (slot : ℕ) → IsFirst s.mem table n slot → Beside x slot entry_size
      in_table slot f = ground (arith, f.place, f.in_table)

  -- `elfLinkOne` keeps every cell of the memory a byte.
  link_one-IsBytes : IsBytes s.mem → IsBytes result.1.mem
  link_one-IsBytes h =
      link_one_ind (λ p. IsBytes p.1.mem) h h (λ v. write32-IsBytes target v h)
        (λ v. write16-IsBytes target (v % 2 ^ 16) h) (link_rel14-IsBytes value target s h)
        (link_rel24-IsBytes value target addend table n reloc_type s h)

  -- A relocation of any type but R_PPC_REL24 that fails has changed nothing.
  link_one-atomic : type ≢ r_ppc_rel24 → result.0 ≡ false → result.1 ≡ s
  unfolding link_one link_rel14
  link_one-atomic other failed = ground arith
