-- ===== src/ElfUtils.antt =====
-- src/ElfUtils.cpp: `elfLinkOne`, which applies one relocation to the memory. `size_t`, `uint32_t`
-- and pointers are 32 bits wide, `char` is unsigned (as on the PowerPC), and an `int32_t` is its
-- bit pattern, so that its arithmetic wraps.
pub mod Ppc
pub mod Branch
pub mod Code
pub mod Jump
pub mod Frame
pub mod Halves
pub mod Conditional
pub mod Reuse
mod Tests
use custom_rpxloader.Base.{
  ℕ, ◌+◌, ◌-◌, ◌/◌, ◌%◌, ◌^◌, Bool, true, false, ◌&&◌, ◌||◌, not, ◌∷◌, none, some, bit_and, bit_or,
  ltb, ◌==◌, nonzero, if◌then◌else◌,
}
use custom_rpxloader.Machine.{
  Memory, Machine, dc_flush_range, ic_invalidate_range, add32, sub32, read32, write32, write16,
}
use custom_rpxloader.Trampolin.{
  RelocationType, fixed, import, tramp_fixed, tramp_import_done, status_offset, find_slot,
}

abbrev pub r_ppc_none : ℕ
r_ppc_none = 0

abbrev pub r_ppc_addr32 : ℕ
r_ppc_addr32 = 1

abbrev pub r_ppc_addr16_lo : ℕ
r_ppc_addr16_lo = 4

abbrev pub r_ppc_addr16_hi : ℕ
r_ppc_addr16_hi = 5

abbrev pub r_ppc_addr16_ha : ℕ
r_ppc_addr16_ha = 6

abbrev pub r_ppc_rel24 : ℕ
r_ppc_rel24 = 10

abbrev pub r_ppc_rel14 : ℕ
r_ppc_rel14 = 11

abbrev pub r_ppc_dtpmod32 : ℕ
r_ppc_dtpmod32 = 68

abbrev pub r_ppc_dtprel32 : ℕ
r_ppc_dtprel32 = 78

abbrev pub r_ppc_ghs_rel16_ha : ℕ
r_ppc_ghs_rel16_ha = 251

abbrev pub r_ppc_ghs_rel16_hi : ℕ
r_ppc_ghs_rel16_hi = 252

abbrev pub r_ppc_ghs_rel16_lo : ℕ
r_ppc_ghs_rel16_lo = 253

-- Tests of an `int32_t`: its sign, and `d > k` and `d < -k` for a constant `k` below 2 ^ 31.
abbrev pub is_negative : ℕ → Bool
is_negative d = not (ltb d (2 ^ 31))

abbrev pub above : ℕ → ℕ → Bool
above k d = not (is_negative d) && ltb k d

abbrev pub below_minus : ℕ → ℕ → Bool
below_minus k d = is_negative d && ltb d (2 ^ 32 - k)

-- A store, and the `return true` that follows every store of the switch.
abbrev pub store32 : ℕ → ℕ → Machine → Bool × Machine
store32 target v s = (true, record s { mem = write32 s.mem target v })

abbrev pub store16 : ℕ → ℕ → Machine → Bool × Machine
store16 target v s = (true, record s { mem = write16 s.mem target (v % 2 ^ 16) })

-- case R_PPC_REL14
unfoldable pub link_rel14 : ℕ → ℕ → Machine → Bool × Machine
link_rel14 value target s =
    let distance = sub32 value target in
    if above 0x7ffc distance || below_minus 0x7ffc distance
    then (false, s)
    else if nonzero (bit_and distance 3)
    then (false, s)
    else if not (is_negative distance) && nonzero (bit_and distance 0xffff8000)
        || is_negative distance && not (bit_and distance 0xffff8000 == 0xffff8000)
    then (false, s)
    else store32 target
        (bit_or (bit_and (read32 s.mem target) 0xffbf0003) (bit_and distance 0x0000fffc)) s

-- The four instructions of a trampoline to `value`: lis r11, ori r11, mtctr r11, bctr.
unfoldable pub write_code : Memory → ℕ → ℕ → Memory
write_code m slot value =
    let m1 = write32 m slot (bit_or 0x3d600000 (bit_and (value / 2 ^ 16) 0x0000ffff)) in
    let m2 = write32 m1 (slot + 4) (bit_or 0x616b0000 (bit_and value 0x0000ffff)) in
    let m3 = write32 m2 (slot + 8) 0x7d6903a6 in write32 m3 (slot + 12) 0x4e800420

abbrev pub taken_status : RelocationType → ℕ
taken_status fixed = tramp_fixed
taken_status import = tramp_import_done

-- A trampoline put into an entry: the code, the two cache operations, the status.
unfoldable pub fill_slot : ℕ → ℕ → RelocationType → Machine → Machine
fill_slot slot value reloc_type s =
    let code = write_code s.mem slot value in
    record {
      mem = write32 code (slot + status_offset) (taken_status reloc_type);
      cache = ic_invalidate_range slot 16 ∷ dc_flush_range slot 16 ∷ s.cache;
    }

-- The checks on the distance that end case R_PPC_REL24, and the store.
unfoldable pub patch_rel24 : ℕ → ℕ → Machine → Bool × Machine
patch_rel24 distance target s =
    if nonzero (bit_and distance 3)
    then (false, s)
    else if is_negative distance && not (bit_and distance 0xfe000000 == 0xfe000000)
    then (false, s)
    else if not (is_negative distance) && nonzero (bit_and distance 0xfe000000)
    then (false, s)
    else store32 target
        (bit_or (bit_and (read32 s.mem target) 0xfc000003) (bit_and distance 0x03fffffc)) s

-- The way over a trampoline: an entry is sought, filled, and the branch is made to go there.
-- The table's address 0 is the null pointer.
unfoldable pub link_far : ℕ → ℕ → ℕ → ℕ → ℕ → RelocationType → Machine → Bool × Machine
link_far value target addend trampolin_data trampolin_data_length reloc_type s =
    if trampolin_data == 0
    then (false, s)
    else elim (find_slot s.mem trampolin_data_length trampolin_data) [
      | none ↦ (false, s)
      | some slot ↦
          if ltb 0x1fffffc (sub32 target slot)
          then (false, s)
          else patch_rel24 (sub32 (add32 slot addend) target) target
              (fill_slot slot value reloc_type s)
    ]

-- case R_PPC_REL24
unfoldable pub link_rel24 : ℕ → ℕ → ℕ → ℕ → ℕ → RelocationType → Machine → Bool × Machine
link_rel24 value target addend trampolin_data trampolin_data_length reloc_type s =
    let distance = sub32 value target in
    if above 0x1fffffc distance || below_minus 0x1fffffc distance
    then link_far value target addend trampolin_data trampolin_data_length reloc_type s
    else patch_rel24 distance target s

-- `elfLinkOne`: false for its errors. `type` is a `char`.
unfoldable pub link_one :
    (type offset addend destination symbol_addr trampolin_data trampolin_data_length : ℕ)
    → RelocationType
    → Machine
    → Bool × Machine
link_one type offset addend destination symbol_addr trampolin_data trampolin_data_length reloc_type
      s =
    let target = add32 destination offset in
    let value = add32 symbol_addr addend in
    let rel_value = sub32 value target in
    if type == r_ppc_none
    then (true, s)
    else if type == r_ppc_addr32
    then store32 target value s
    else if type == r_ppc_addr16_lo
    then store16 target (bit_and value 0xffff) s
    else if type == r_ppc_addr16_hi
    then store16 target (value / 2 ^ 16) s
    else if type == r_ppc_addr16_ha
    then store16 target (add32 value 0x8000 / 2 ^ 16) s
    else if type == r_ppc_dtpmod32
    then (true, s)
    else if type == r_ppc_dtprel32
    then store32 target value s
    else if type == r_ppc_ghs_rel16_ha
    then store16 target (add32 rel_value 0x8000 / 2 ^ 16) s
    else if type == r_ppc_ghs_rel16_hi
    then store16 target (rel_value / 2 ^ 16) s
    else if type == r_ppc_ghs_rel16_lo
    then store16 target (bit_and rel_value 0xffff) s
    else if type == r_ppc_rel14
    then link_rel14 value target s
    else if type == r_ppc_rel24
    then link_rel24 value target addend trampolin_data trampolin_data_length reloc_type s
    else (false, s)
