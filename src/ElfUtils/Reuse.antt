-- ===== src/ElfUtils/Reuse.antt =====
-- Entries of import relocations and the addend of a far jump (src/ElfUtils.cpp, case R_PPC_REL24).
use custom_rpxloader.Base.{
  ℕ, ◌+◌, ◌*◌, ◌-◌, ◌%◌, ◌^◌, ◌≤◌, ◌<◌, ◌≡◌, ◌≢◌, refl, ◌∙◌, true, some, ◌⊎◌, inl, inr, arith, ap,
}
use custom_rpxloader.Machine.{Machine, Memory, IsBytes, add32, sub32, read32}
use custom_rpxloader.Machine.Laws.{
  SameOutside, read32-SameOutside, write32-outside, read32-lt, read32-write32, write32-IsBytes,
}
use custom_rpxloader.Trampolin.{import, entry_size, status, is_reusable, find_slot}
use custom_rpxloader.Trampolin.Laws.{IsFirst, find_slot-IsFirst, IsFirst-find_slot, IsFirst-keep}
use custom_rpxloader.ElfUtils.{link_rel24, fill_slot}
use custom_rpxloader.ElfUtils.Ppc.{is_branch24, run}
use custom_rpxloader.ElfUtils.Branch.{Fits24, insn24, insn24-lt}
use custom_rpxloader.ElfUtils.Code.{
  Leads, fill_slot-status, fill_slot-outside, fill_slot-IsBytes, run-Leads, at_value,
}
use custom_rpxloader.ElfUtils.Jump.{
  Reaches, cpu, far_mem, far_mem-Leads, run-far_mem, link_far-taken, link_rel24-far, run-insn24,
  slot_below,
}

-- The memory after a far import relocation, with the addend 0.
module _ (value target table n : ℕ) (s : Machine) {slot : ℕ} (hv : value < 2 ^ 32)
    (ht : target < 2 ^ 32) (bytes : IsBytes s.mem) (some_table : table ≢ 0)
    (found : find_slot s.mem n table ≡ some slot) (below : table + entry_size * n ≤ target)
    (reach : target ≤ slot + 0x1fffffc) (al : (target - slot) % 4 ≡ 0)
    (far : ¬ Reaches (sub32 value target)) where
  abbrev after : Memory
  after = far_mem value target 0 table n import s hv ht bytes some_table found below reach

  abbrev filled : Memory
  filled = (fill_slot slot value import s).mem

  abbrev distance : ℕ
  distance = sub32 (add32 slot 0) target

  first : IsFirst s.mem table n slot
  first = find_slot-IsFirst s.mem n table found

  fits : Fits24 distance
  fits = go first
    where
      go : IsFirst s.mem table n slot → Fits24 distance
      go f = omega (arith, f.place, f.in_table)

  link_rel24-far_mem :
      link_rel24 value target 0 table n import s
      ≡ (true, record (fill_slot slot value import s) { mem = after })
  link_rel24-far_mem =
      link_rel24-far value target 0 table n import s hv ht bytes far
      ∙ link_far-taken value target 0 table n import s hv ht bytes some_table found below reach fits

  -- The entry that was taken is found again.
  found_again : find_slot after n table ≡ some slot
  found_again = IsFirst-find_slot after n table (IsFirst-keep first reusable same)
    where
      open first use {i, in_table, place}

      wrote : SameOutside target (target + 4) filled after
      wrote = write32-outside filled target (insn24 (read32 s.mem target) distance)

      reusable : is_reusable (status after slot) ≡ true
      reusable =
          rw
            (
              read32-SameOutside target (target + 4) {m = filled} {m' = after} (slot + 16) wrote
                  (inl (omega (arith, place, in_table))),
              fill_slot-status slot value import s,
            )
            refl

      same :
          (j : ℕ)
          → table + entry_size * j + entry_size ≤ slot
          → status after (table + entry_size * j) ≡ status s.mem (table + entry_size * j)
      same j h =
          read32-SameOutside target (target + 4) {m = filled} {m' = after}
            (table + entry_size * j + 16) wrote (inl (omega (arith, place, in_table)))
          ∙ read32-SameOutside slot (slot + entry_size) {m = s.mem} {m' = filled}
              (table + entry_size * j + 16) (fill_slot-outside slot value import s)
              (inl (omega arith))

  after-IsBytes : IsBytes after
  after-IsBytes =
      write32-IsBytes target (insn24 (read32 s.mem target) distance)
        (fill_slot-IsBytes slot value import s bytes)

-- A jump to `value` that has to go over the entry `slot`, and can.
pub record IsFarJump (table n slot value target : ℕ) : Type 0 where
  pub value_lt : value < 2 ^ 32
  pub target_lt : target < 2 ^ 32
  pub below : table + entry_size * n ≤ target
  pub reach : target ≤ slot + 0x1fffffc
  pub aligned : (target - slot) % 4 ≡ 0
  pub far : ¬ Reaches (sub32 value target)

-- Of two far import relocations without an addend, one after the other, both succeed and both take
-- the same entry: the jump at the first place then leads to the address of the second.
pub link_rel24-shares_slot :
    (value target value' target' table n slot r k : ℕ) (s : Machine)
    → IsBytes s.mem
    → table ≢ 0
    → find_slot s.mem n table ≡ some slot
    → IsFarJump table n slot value target
    → IsFarJump table n slot value' target'
    → (target + 4 ≤ target') ⊎ (target' + 4 ≤ target)
    → is_branch24 (read32 s.mem target) ≡ true
    → let first = link_rel24 value target 0 table n import s in
      let second = link_rel24 value' target' 0 table n import first.1 in
      (first.0 ≡ true)
      × (second.0 ≡ true)
      × (run 5 (second.1).mem (cpu r k target) ≡ some (at_value value'))
link_rel24-shares_slot value target value' target' table n slot r k s bytes some_table found j j'
      apart branch =
    rw
      (link_rel24-far_mem value target table n s j.value_lt j.target_lt bytes some_table found
        j.below j.reach j.aligned j.far)
      (rw
        (link_rel24-far_mem value' target' table n s1 j'.value_lt j'.target_lt bytes1 some_table
          found1 j'.below j'.reach j'.aligned j'.far)
        (refl, refl, jumps))
  where
    m1 : Memory
    m1 =
        after value target table n s j.value_lt j.target_lt bytes some_table found j.below j.reach
          j.aligned j.far

    s1 : Machine
    s1 = record (fill_slot slot value import s) { mem = m1 }

    bytes1 : IsBytes m1
    bytes1 =
        after-IsBytes value target table n s j.value_lt j.target_lt bytes some_table found j.below
          j.reach j.aligned j.far

    found1 : find_slot m1 n table ≡ some slot
    found1 =
        found_again value target table n s j.value_lt j.target_lt bytes some_table found j.below
          j.reach j.aligned j.far

    m2 : Memory
    m2 =
        after value' target' table n s1 j'.value_lt j'.target_lt bytes1 some_table found1 j'.below
          j'.reach j'.aligned j'.far

    insn : ℕ
    insn = read32 s.mem target

    d : ℕ
    d = sub32 (add32 slot 0) target

    fits1 : Fits24 d
    fits1 =
        fits value target table n s j.value_lt j.target_lt bytes some_table found j.below j.reach
          j.aligned j.far

    under : slot + entry_size ≤ target
    under =
        slot_below value target 0 table n import s j.value_lt j.target_lt bytes some_table found
          j.below j.reach

    there : add32 target d ≡ slot
    there = omega (arith, under, j.target_lt)

    -- The branch at the first place is still the one that the first relocation wrote.
    branch2 : read32 m2 target ≡ insn24 insn d
    branch2 =
        read32-SameOutside target' (target' + 4) {m = (fill_slot slot value' import s1).mem}
          {m' = m2} target (write32-outside (fill_slot slot value' import s1).mem target' _) apart
        ∙ read32-SameOutside slot (slot + entry_size) {m = m1}
            {m' = (fill_slot slot value' import s1).mem} target
            (fill_slot-outside slot value' import s1) (inr under)
        ∙ read32-write32 (fill_slot slot value import s).mem target (insn24 insn d)
            (insn24-lt insn d (read32-lt target bytes))

    jumps : run 5 m2 (cpu r k target) ≡ some (at_value value')
    jumps =
        run-insn24 4 m2 insn d r k target branch (omega arith) fits1 branch2
        ∙ ap (λ p. run 4 m2 (cpu r k p)) there
        ∙ run-Leads slot value' r k
            (far_mem-Leads value' target' 0 table n import s1 j'.value_lt j'.target_lt bytes1
              some_table found1 j'.below j'.reach)
            j'.value_lt (omega (arith, under, j.target_lt))

-- A far jump with an addend is sent past the entry: it leads to the entry's address plus the addend,
-- though the code in the entry already leads to the symbol's address plus the addend.
pub link_rel24-adds_twice :
    (value target addend table n slot r k : ℕ) (s : Machine)
    → IsBytes s.mem
    → table ≢ 0
    → find_slot s.mem n table ≡ some slot
    → IsFarJump table n slot value target
    → is_branch24 (read32 s.mem target) ≡ true
    → Fits24 (sub32 (add32 slot addend) target)
    → let linked = link_rel24 value target addend table n import s in
      (linked.0 ≡ true)
      × Leads (linked.1).mem slot value
      × (run 1 (linked.1).mem (cpu r k target) ≡ some (cpu r k (add32 slot addend)))
unfolding run
link_rel24-adds_twice value target addend table n slot r k s bytes some_table found j branch fits =
    rw (link_rel24-far value target addend table n import s j.value_lt j.target_lt bytes j.far) (
      rw
        (link_far-taken value target addend table n import s j.value_lt j.target_lt bytes some_table
          found j.below j.reach fits)
        (
          refl,
          far_mem-Leads value target addend table n import s j.value_lt j.target_lt bytes some_table
              found j.below j.reach,
          run-far_mem value target addend table n import s j.value_lt j.target_lt bytes some_table
              found j.below j.reach 0 r k branch fits,
        ))
