-- ===== src/ElfUtils/Jump.antt =====
-- Relocated jumps (src/ElfUtils.cpp, case R_PPC_REL24): where the processor goes from the place
-- that `elfLinkOne` has patched, directly or over a trampoline.
use custom_rpxloader.Base.{
  ℕ, suc, ◌+◌, ◌*◌, ◌-◌, ◌%◌, ◌^◌, ◌≤◌, ◌<◌, ◌≡◌, ◌≢◌, refl, ◌∙◌, Bool, true, false, none, some,
  ◌⊎◌, inl, inr, arith, ap, sym,
}
use custom_rpxloader.Machine.{Memory, Machine, IsBytes, add32, sub32, read32, write32}
use custom_rpxloader.Machine.Laws.{read32-SameOutside, write32-outside, read32-lt, read32-write32}
use custom_rpxloader.Trampolin.{RelocationType, entry_size, find_slot}
use custom_rpxloader.Trampolin.Laws.{IsFirst, find_slot-IsFirst}
use custom_rpxloader.ElfUtils.{r_ppc_rel24, link_far, link_rel24, link_one, fill_slot}
use custom_rpxloader.ElfUtils.Ppc.{Cpu, is_branch24, execute, run}
use custom_rpxloader.ElfUtils.Branch.{
  Fits24, insn24, patch_rel24_fit, patch_rel24_misfit, displacement24-insn24, insn24-lt,
}
use custom_rpxloader.ElfUtils.Code.{
  Leads, Leads-SameOutside, fill_slot-Leads, fill_slot-outside, fill_slot-IsBytes, run_step,
  run-Leads, at_value,
}

-- A distance that the code patches into the branch itself.
abbrev pub Reaches : ℕ → Type 0
Reaches d = (d ≤ 0x1fffffc) ⊎ (2 ^ 32 - 0x1fffffc ≤ d)

abbrev pub cpu : ℕ → ℕ → ℕ → Cpu
cpu r k p = record { r11 = r; ctr = k; pc = p }

-- A branch with a new displacement goes there.
execute-insn24 :
    (insn d r k target : ℕ)
    → is_branch24 insn ≡ true
    → d < 2 ^ 32
    → Fits24 d
    → execute (insn24 insn d) (cpu r k target) ≡ some (cpu r k (add32 target d))
unfolding execute
execute-insn24 insn d r k target b h f = ground (arith, displacement24-insn24 insn d h f)

-- The branch at `target`, patched by `d`, in any memory that holds it.
pub run-insn24 :
    (n : ℕ) (m : Memory) (insn d r k target : ℕ)
    → is_branch24 insn ≡ true
    → d < 2 ^ 32
    → Fits24 d
    → read32 m target ≡ insn24 insn d
    → run (suc n) m (cpu r k target) ≡ run n m (cpu r k (add32 target d))
run-insn24 n m insn d r k target b h f e =
    run_step n m (cpu r k target) e (execute-insn24 insn d r k target b h f)

module _ (value target addend table n : ℕ) (reloc_type : RelocationType) (s : Machine)
    (hv : value < 2 ^ 32) (ht : target < 2 ^ 32) (bytes : IsBytes s.mem) where
  pub link_rel24-near :
      Reaches (sub32 value target)
      → sub32 value target % 4 ≡ 0
      → link_rel24 value target addend table n reloc_type s ≡ (
        true,
        record s { mem = write32 s.mem target (insn24 (read32 s.mem target) (sub32 value target)) },
      )
  unfolding link_rel24
  link_rel24-near near al =
      ground (arith, patch_rel24_fit (sub32 value target) target s (omega arith) bytes)

  module _ {slot : ℕ} (some_table : table ≢ 0) (found : find_slot s.mem n table ≡ some slot)
      (below : table + entry_size * n ≤ target) (reach : target ≤ slot + 0x1fffffc) where
    abbrev filled : Machine
    filled = fill_slot slot value reloc_type s

    pub slot_below : slot + entry_size ≤ target
    slot_below = go (find_slot-IsFirst s.mem n table found)
      where
        go : IsFirst s.mem table n slot → slot + entry_size ≤ target
        go f = omega (arith, f.place, f.in_table)

    -- The entry lies beside the branch, which is still the old one.
    kept : read32 filled.mem target ≡ read32 s.mem target
    kept =
        read32-SameOutside slot (slot + entry_size) {m = s.mem} {m' = filled.mem} target
          (fill_slot-outside slot value reloc_type s) (inr slot_below)

    pub link_far-taken :
        Fits24 (sub32 (add32 slot addend) target)
        → link_far value target addend table n reloc_type s ≡ (
          true,
          record (fill_slot slot value reloc_type s) {
            mem =
                write32
                  (fill_slot slot value reloc_type s).mem
                  target
                  (insn24 (read32 s.mem target) (sub32 (add32 slot addend) target));
          },
        )
    unfolding link_far
    link_far-taken fits =
        rw (found, sym kept)
          (ground (
            arith,
            slot_below,
            patch_rel24_fit (sub32 (add32 slot addend) target) target filled (omega arith)
                (fill_slot-IsBytes slot value reloc_type s bytes) fits,
          ))

    -- The memory after the branch to `slot` + `addend` has been written.
    abbrev pub far_mem : Memory
    far_mem =
        write32 filled.mem target (insn24 (read32 s.mem target) (sub32 (add32 slot addend) target))

    pub far_mem-Leads : Leads far_mem slot value
    far_mem-Leads =
        Leads-SameOutside target (target + 4) {m = filled.mem} {m' = far_mem} slot value
          (write32-outside filled.mem target _) (inl (omega (arith, slot_below)))
          (fill_slot-Leads slot value reloc_type s hv)

    pub run-far_mem :
        (k r c : ℕ)
        → is_branch24 (read32 s.mem target) ≡ true
        → Fits24 (sub32 (add32 slot addend) target)
        → run (suc k) far_mem (cpu r c target) ≡ run k far_mem (cpu r c (add32 slot addend))
    run-far_mem k r c branch fits =
        let d = sub32 (add32 slot addend) target in
        let insn = read32 s.mem target in
        let there : add32 target d ≡ add32 slot addend = omega arith in
        run-insn24 k far_mem insn d r c target branch (omega arith) fits (
          read32-write32 filled.mem target (insn24 insn d)
            (insn24-lt insn d (read32-lt target bytes)))
        ∙ ap (λ p. run k far_mem (cpu r c p)) there

  pub link_rel24-far :
      ¬ Reaches (sub32 value target)
      → link_rel24 value target addend table n reloc_type s
        ≡ link_far value target addend table n reloc_type s
  unfolding link_rel24
  link_rel24-far far = ground arith

  pub run-near :
      (r c : ℕ)
      → is_branch24 (read32 s.mem target) ≡ true
      → Reaches (sub32 value target)
      → sub32 value target % 4 ≡ 0
      → run 1
          (write32 s.mem target (insn24 (read32 s.mem target) (sub32 value target)))
          (cpu r c target)
        ≡ some (cpu r c value)
  unfolding run
  run-near r c branch near al =
      let d = sub32 value target in
      let insn = read32 s.mem target in
      let there : add32 target d ≡ value = omega arith in
      run-insn24 0 (write32 s.mem target (insn24 insn d)) insn d r c target branch (omega arith)
        (omega arith)
        (read32-write32 s.mem target (insn24 insn d) (insn24-lt insn d (read32-lt target bytes)))
      ∙ ap (λ p. some (cpu r c p)) there

module _ (offset addend destination symbol_addr table n : ℕ) (reloc_type : RelocationType)
    (s : Machine) where
  abbrev target : ℕ
  target = add32 destination offset

  abbrev value : ℕ
  value = add32 symbol_addr addend

  abbrev linked : Bool × Machine
  linked = link_one r_ppc_rel24 offset addend destination symbol_addr table n reloc_type s

  module _ (bytes : IsBytes s.mem) (branch : is_branch24 (read32 s.mem target) ≡ true) where
    -- A branch whose symbol lies within 0x1fffffc bytes, a multiple of 4 away, is linked, and the
    -- processor goes from it to the symbol's address plus the addend, with its registers unchanged.
    pub link_one-near :
        (r k : ℕ)
        → Reaches (sub32 value target)
        → sub32 value target % 4 ≡ 0
        → (linked.0 ≡ true) × (run 1 (linked.1).mem (cpu r k target) ≡ some (cpu r k value))
    unfolding link_one
    link_one-near r k near al =
        let e =
          link_rel24-near value target addend table n reloc_type s (omega arith) (omega arith) bytes
            near al in
        rw e (
          refl,
          run-near value target addend table n reloc_type s (omega arith) (omega arith) bytes r k
              branch near al,
        )

    -- A branch whose symbol lies further away is linked over the first free entry, if the addend is
    -- 0 and the entry lies within 0x1fffffc bytes below it, a multiple of 4 away: the processor goes
    -- through the entry's code to the symbol's address, cleared of its lowest two bits.
    pub link_one-far :
        (r k slot : ℕ)
        → ¬ Reaches (sub32 value target)
        → table ≢ 0
        → find_slot s.mem n table ≡ some slot
        → table + entry_size * n ≤ target
        → target ≤ slot + 0x1fffffc
        → (target - slot) % 4 ≡ 0
        → addend ≡ 0
        → (linked.0 ≡ true) × (run 5 (linked.1).mem (cpu r k target) ≡ some (at_value value))
    unfolding link_one
    link_one-far r k slot far some_table found below reach al no_addend =
        let hv : value < 2 ^ 32 = omega arith in
        let ht : target < 2 ^ 32 = omega arith in
        let under =
          slot_below value target addend table n reloc_type s hv ht bytes some_table found below
            reach in
        let there : add32 slot addend ≡ slot = omega arith in
        let fits : Fits24 (sub32 (add32 slot addend) target) = omega arith in
        let m =
          far_mem value target addend table n reloc_type s hv ht bytes some_table found below
            reach in
        rw
          (
            link_rel24-far value target addend table n reloc_type s hv ht bytes far,
            link_far-taken value target addend table n reloc_type s hv ht bytes some_table found
                below reach fits,
          )
          (
            refl,
            run-far_mem value target addend table n reloc_type s hv ht bytes some_table found below
                  reach 4 r k branch fits
                ∙ ap (λ p. run 4 m (cpu r k p)) there
                ∙ run-Leads slot value r k
                    (far_mem-Leads value target addend table n reloc_type s hv ht bytes some_table
                      found below reach)
                    hv (omega arith),
          )

-- Why a jump over `d` bytes cannot be linked: it would fit, but is no multiple of 4; or it does not
-- fit, and there is no table, or no entry to take, or the first one lies too far below `target`.
pub data Refusal (m : Memory) (table n target d : ℕ) : Type 0 where
  misaligned : Reaches d → d % 4 ≢ 0 → Refusal m table n target d
  no_table : ¬ Reaches d → table ≡ 0 → Refusal m table n target d
  full : ¬ Reaches d → find_slot m n table ≡ none → Refusal m table n target d
  too_far :
      (slot : ℕ)
      → ¬ Reaches d
      → find_slot m n table ≡ some slot
      → 0x1fffffc < sub32 target slot
      → Refusal m table n target d

-- Such a jump is refused, and nothing is changed.
pub link_rel24-Refusal :
    (value target addend table n : ℕ) (reloc_type : RelocationType) (s : Machine)
    → Refusal s.mem table n target (sub32 value target)
    → link_rel24 value target addend table n reloc_type s ≡ (false, s)
unfolding link_rel24 link_far
link_rel24-Refusal value target addend table n reloc_type s (misaligned near al) = ground (
  arith,
  patch_rel24_misfit (sub32 value target) target s (omega arith)
      (λ (f : Fits24 (sub32 value target)). al f.0),
)
link_rel24-Refusal value target addend table n reloc_type s (no_table far e) = ground arith
link_rel24-Refusal value target addend table n reloc_type s (full far e) = rw e (ground arith)
link_rel24-Refusal value target addend table n reloc_type s (too_far slot far e h) =
    rw e (ground arith)
