-- ===== src/ElfUtils/Tests.antt =====
-- `elfLinkOne` (src/ElfUtils.cpp) at concrete inputs, and the theorems at them.
use custom_rpxloader.Base.{ℕ, ◌+◌, ◌*◌, ◌/◌, ◌%◌, ◌^◌, ◌≡◌, refl, true, false, some, [], arith}
use custom_rpxloader.Machine.{Machine, Memory, IsBytes, add32, read32, read16, write32, blit}
use custom_rpxloader.Machine.Laws.{write32-IsBytes}
use custom_rpxloader.Trampolin.{fixed, import, find_slot, status}
use custom_rpxloader.ElfUtils.{
  r_ppc_rel24, r_ppc_rel14, link_one, link_rel24, link_far, patch_rel24, fill_slot, write_code,
}
use custom_rpxloader.ElfUtils.Jump.{link_one-near, link_one-far, link_rel24-Refusal, no_table, cpu}
use custom_rpxloader.ElfUtils.Ppc.{run, is_branch24, displacement14}
use custom_rpxloader.ElfUtils.Code.{Leads, at_value}
use custom_rpxloader.ElfUtils.Halves.{halves_join, sign_extend16}
use custom_rpxloader.ElfUtils.Conditional.{link_one-conditional, link_one-conditional_misfit}
use custom_rpxloader.ElfUtils.Reuse.{link_rel24-shares_slot, link_rel24-adds_twice}

-- Memory of zeros with `bl .` at 0x10000, and a table of two free entries at 0x1000.
abbrev mem : Memory
mem = write32 (λ _. 0) 0x10000 0x48000001

abbrev start : Machine
start = record { mem = mem; cache = [] }

start-IsBytes : IsBytes mem
start-IsBytes = write32-IsBytes 0x10000 0x48000001 (λ a. omega arith)

near_insn :
    read32 (link_one r_ppc_rel24 0x1000 8 0xf000 0x20000 0x1000 2 fixed start).1.mem 0x10000
    ≡ 0x48010009
unfolding link_one link_rel24 patch_rel24 read32 write32 blit
near_insn = refl

far_insn :
    let s' = (link_one r_ppc_rel24 0x1000 0 0xf000 0x80000000 0x1000 2 import start).1 in
    (read32 s'.mem 0x10000 ≡ 0x4bff1001)
    × (read32 s'.mem 0x1000 ≡ 0x3d608000)
    × (status s'.mem 0x1000 ≡ 3)
unfolding link_one link_rel24 link_far find_slot patch_rel24 fill_slot write_code read32 write32
    blit
far_insn = (refl, refl, refl)

start_branch : is_branch24 (read32 mem 0x10000) ≡ true
unfolding read32 write32 blit
start_branch = refl

start_found : find_slot mem 2 0x1000 ≡ some 0x1000
unfolding find_slot read32 write32 blit
start_found = refl

link_one-near_example :
    let (done, s') = link_one r_ppc_rel24 0x1000 8 0xf000 0x20000 0x1000 2 fixed start in
    (done ≡ true) × (run 1 s'.mem (cpu 1 2 0x10000) ≡ some (cpu 1 2 0x20008))
link_one-near_example =
    link_one-near 0x1000 8 0xf000 0x20000 0x1000 2 fixed start start-IsBytes start_branch 1 2
      (omega arith) refl

link_one-far_example :
    let (done, s') = link_one r_ppc_rel24 0x1000 0 0xf000 0x80000000 0x1000 2 fixed start in
    (done ≡ true) × (run 5 s'.mem (cpu 1 2 0x10000) ≡ some (at_value 0x80000000))
link_one-far_example =
    link_one-far 0x1000 0 0xf000 0x80000000 0x1000 2 fixed start start-IsBytes start_branch 1 2
      0x1000 (omega arith) (omega arith) start_found (omega arith) (omega arith) refl refl

link_rel24-Refusal_example : link_rel24 0x80000000 0x10000 0 0 2 fixed start ≡ (false, start)
link_rel24-Refusal_example =
    link_rel24-Refusal 0x80000000 0x10000 0 0 2 fixed start (no_table (omega arith) refl)

link_rel24-shares_slot_example :
    let first = link_rel24 0x80000000 0x10000 0 0x1000 2 import start in
    let second = link_rel24 0x90000000 0x20000 0 0x1000 2 import first.1 in
    (first.0 ≡ true)
    × (second.0 ≡ true)
    × (run 5 (second.1).mem (cpu 1 2 0x10000) ≡ some (at_value 0x90000000))
link_rel24-shares_slot_example =
    link_rel24-shares_slot 0x80000000 0x10000 0x90000000 0x20000 0x1000 2 0x1000 1 2 start
      start-IsBytes (omega arith) start_found (omega arith) (omega arith) (omega arith) start_branch

link_rel24-adds_twice_example :
    let linked = link_rel24 0x80000008 0x10000 8 0x1000 2 import start in
    (linked.0 ≡ true)
    × Leads (linked.1).mem 0x1000 0x80000008
    × (run 1 (linked.1).mem (cpu 1 2 0x10000) ≡ some (cpu 1 2 0x1008))
link_rel24-adds_twice_example =
    link_rel24-adds_twice 0x80000008 0x10000 8 0x1000 2 0x1000 1 2 start start-IsBytes (omega arith)
      start_found (omega arith) start_branch (omega arith)

-- The first entry of the table is fixed.
abbrev taken : Machine
taken = record { mem = write32 mem 0x1010 1; cache = [] }

abbrev half_of : ℕ → ℕ
half_of type = read16 (link_one type 0x1000 8 0xf000 0x1234fff8 0x1000 2 fixed start).1.mem 0x10000

halves_join_example :
    (half_of 5 * 2 ^ 16 + half_of 4 ≡ 0x12350000)
    × (add32 (half_of 6 * 2 ^ 16) (sign_extend16 (half_of 4)) ≡ 0x12350000)
    × (half_of 252 * 2 ^ 16 + half_of 253 ≡ 0x12340000)
    × (add32 (half_of 251 * 2 ^ 16) (sign_extend16 (half_of 253)) ≡ 0x12340000)
halves_join_example = halves_join 0x1000 8 0xf000 0x1234fff8 0x1000 2 fixed start

-- `beq +0` at 0x10000.
abbrev conditional : Machine
conditional = record { mem = write32 (λ _. 0) 0x10000 0x42400000; cache = [] }

link_one-conditional_example :
    let (done, s') = link_one r_ppc_rel14 0x1000 4 0xf000 0xfffc 0x1000 2 fixed conditional in
    let after = read32 s'.mem 0x10000 in
    let before = read32 conditional.mem 0x10000 in
    (done ≡ true)
    × (add32 0x10000 (displacement14 after) ≡ 0x10000)
    × (after / 2 ^ 26 ≡ before / 2 ^ 26)
    × (after / 2 ^ 21 % 2 ^ 5 + 2 * (before / 2 ^ 22 % 2) ≡ before / 2 ^ 21 % 2 ^ 5)
    × (after / 2 ^ 16 % 2 ^ 5 ≡ before / 2 ^ 16 % 2 ^ 5)
    × (after % 4 ≡ before % 4)
link_one-conditional_example =
    link_one-conditional 0x1000 4 0xf000 0xfffc 0x1000 2 fixed conditional
      (write32-IsBytes 0x10000 0x42400000 (λ a. omega arith)) (omega arith)

link_one-conditional_misfit_example :
    link_one r_ppc_rel14 0x1000 0 0xf000 0x20000 0x1000 2 fixed conditional ≡ (false, conditional)
link_one-conditional_misfit_example =
    link_one-conditional_misfit 0x1000 0 0xf000 0x20000 0x1000 2 fixed conditional (omega arith)
