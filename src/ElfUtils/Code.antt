-- ===== src/ElfUtils/Code.antt =====
-- The trampoline code that `elfLinkOne` writes (src/ElfUtils.cpp, case R_PPC_REL24): what stands in
-- the entry afterwards, and that the processor goes from there to the value.
use custom_rpxloader.Base.{
  ℕ, suc, ◌+◌, ◌*◌, ◌/◌, ◌%◌, ◌^◌, ◌≤◌, ◌<◌, ◌≡◌, refl, ◌∙◌, some, ◌⊎◌, inl, arith, bit_and, bit_or,
  bit_and_low, bit_or_fields,
}
use custom_rpxloader.Machine.{Memory, Machine, IsBytes, add32, read32, write32}
use custom_rpxloader.Machine.Laws.{
  SameOutside, read32-SameOutside, write32-outside, write32-IsBytes, read32-write32,
  read32-write32-Apart,
}
use custom_rpxloader.Trampolin.{RelocationType, fixed, import, status, entry_size}
use custom_rpxloader.ElfUtils.{write_code, taken_status, fill_slot}
use custom_rpxloader.ElfUtils.Ppc.{Cpu, execute, run}

-- The four instructions that lead to `v`, at `slot`.
pub record Leads (m : Memory) (slot v : ℕ) : Type 0 where
  pub lis : read32 m slot ≡ 0x3d600000 + v / 2 ^ 16
  pub ori : read32 m (slot + 4) ≡ 0x616b0000 + v % 2 ^ 16
  pub mtctr : read32 m (slot + 8) ≡ 0x7d6903a6
  pub bctr : read32 m (slot + 12) ≡ 0x4e800420

lis_word :
    (v : ℕ)
    → v < 2 ^ 32
    → bit_or 0x3d600000 (bit_and (v / 2 ^ 16) 0x0000ffff) ≡ 0x3d600000 + v / 2 ^ 16
lis_word v h = ground (arith, bit_and_low 16 (v / 2 ^ 16), bit_or_fields 16 0x3d60 (v / 2 ^ 16))

ori_word : (v : ℕ) → bit_or 0x616b0000 (bit_and v 0x0000ffff) ≡ 0x616b0000 + v % 2 ^ 16
ori_word v = ground (arith, bit_and_low 16 v, bit_or_fields 16 0x616b (v % 2 ^ 16))

-- Four words written one behind the other are all read back.
four_words :
    (m : Memory) (a p q r t : ℕ)
    → p < 2 ^ 32
    → q < 2 ^ 32
    → r < 2 ^ 32
    → t < 2 ^ 32
    → let m' = write32 (write32 (write32 (write32 m a p) (a + 4) q) (a + 8) r) (a + 12) t in
      (read32 m' a ≡ p)
      × (read32 m' (a + 4) ≡ q)
      × (read32 m' (a + 8) ≡ r)
      × (read32 m' (a + 12) ≡ t)
four_words m a p q r t hp hq hr ht =
    let m1 = write32 m a p in
    let m2 = write32 m1 (a + 4) q in
    let m3 = write32 m2 (a + 8) r in
    ground (
      arith,
      read32-write32 m a p,
      read32-write32 m1 (a + 4) q,
      read32-write32 m2 (a + 8) r,
      read32-write32 m3 (a + 12) t,
      read32-write32-Apart m1 (a + 4) q a,
      read32-write32-Apart m2 (a + 8) r a,
      read32-write32-Apart m3 (a + 12) t a,
      read32-write32-Apart m2 (a + 8) r (a + 4),
      read32-write32-Apart m3 (a + 12) t (a + 4),
      read32-write32-Apart m3 (a + 12) t (a + 8),
    )

pub write_code-Leads : (m : Memory) (slot v : ℕ) → v < 2 ^ 32 → Leads (write_code m slot v) slot v
unfolding write_code
write_code-Leads m slot v h =
    rw (lis_word v h, ori_word v)
      (let w =
          four_words m slot (0x3d600000 + v / 2 ^ 16) (0x616b0000 + v % 2 ^ 16) 0x7d6903a6
            0x4e800420 (omega arith) (omega arith) (omega arith) (omega arith) in
        record { lis = w.0; ori = w.1; mtctr = w.2; bctr = w.3 })

-- The code stays where a change lies beside it.
pub Leads-SameOutside :
    (lo hi : ℕ) {m m' : Memory} (slot v : ℕ)
    → SameOutside lo hi m m'
    → (slot + 16 ≤ lo) ⊎ (hi ≤ slot)
    → Leads m slot v
    → Leads m' slot v
Leads-SameOutside lo hi {m} {m'} slot v same apart l =
    let keep = λ (b : ℕ). read32-SameOutside lo hi {m = m} {m' = m'} b same in
    ground (arith, keep slot, keep (slot + 4), keep (slot + 8), keep (slot + 12))

pub fill_slot-Leads :
    (slot v : ℕ) (t : RelocationType) (s : Machine)
    → v < 2 ^ 32
    → Leads (fill_slot slot v t s).mem slot v
unfolding fill_slot
fill_slot-Leads slot v t s h =
    Leads-SameOutside (slot + 16) (slot + 20) slot v
      (λ x out.
        write32-outside (write_code s.mem slot v) (slot + 16) (taken_status t) x (ground arith))
      (inl (omega arith)) (write_code-Leads s.mem slot v h)

taken_status-lt : (t : RelocationType) → taken_status t < 2 ^ 32
taken_status-lt fixed = omega arith
taken_status-lt import = omega arith

pub fill_slot-status :
    (slot v : ℕ) (t : RelocationType) (s : Machine)
    → status (fill_slot slot v t s).mem slot ≡ taken_status t
unfolding fill_slot
fill_slot-status slot v t s =
    read32-write32 (write_code s.mem slot v) (slot + 16) (taken_status t) (taken_status-lt t)

pub fill_slot-outside :
    (slot v : ℕ) (t : RelocationType) (s : Machine)
    → SameOutside slot (slot + entry_size) s.mem (fill_slot slot v t s).mem
unfolding fill_slot write_code
fill_slot-outside slot v t s x h =
    let m1 = write32 s.mem slot (bit_or 0x3d600000 (bit_and (v / 2 ^ 16) 0x0000ffff)) in
    let m2 = write32 m1 (slot + 4) (bit_or 0x616b0000 (bit_and v 0x0000ffff)) in
    let m3 = write32 m2 (slot + 8) 0x7d6903a6 in
    let m4 = write32 m3 (slot + 12) 0x4e800420 in
    ground (
      arith,
      write32-outside s.mem slot (bit_or 0x3d600000 (bit_and (v / 2 ^ 16) 0x0000ffff)) x,
      write32-outside m1 (slot + 4) (bit_or 0x616b0000 (bit_and v 0x0000ffff)) x,
      write32-outside m2 (slot + 8) 0x7d6903a6 x,
      write32-outside m3 (slot + 12) 0x4e800420 x,
      write32-outside m4 (slot + 16) (taken_status t) x,
    )

pub fill_slot-IsBytes :
    (slot v : ℕ) (t : RelocationType) (s : Machine)
    → IsBytes s.mem
    → IsBytes (fill_slot slot v t s).mem
unfolding fill_slot write_code
fill_slot-IsBytes slot v t s h =
    write32-IsBytes _ _
      (write32-IsBytes _ _ (write32-IsBytes _ _ (write32-IsBytes _ _ (write32-IsBytes _ _ h))))

-- The processor at a trampoline: r11 and ctr become the value, and it goes on there (an
-- instruction's address is a multiple of 4).
abbrev pub at_value : ℕ → Cpu
at_value v = record { r11 = v; ctr = v; pc = v / 4 * 4 }

execute_lis :
    (v : ℕ) (c : Cpu)
    → v < 2 ^ 32
    → execute (0x3d600000 + v / 2 ^ 16) c
      ≡ some (record { r11 = v / 2 ^ 16 * 2 ^ 16; ctr = c.ctr; pc = add32 c.pc 4 })
unfolding execute
execute_lis v c h = ground arith

execute_ori :
    (v k p : ℕ)
    → execute (0x616b0000 + v % 2 ^ 16) (record { r11 = v / 2 ^ 16 * 2 ^ 16; ctr = k; pc = p })
      ≡ some (record { r11 = v; ctr = k; pc = add32 p 4 })
unfolding execute
execute_ori v k p = ground (arith, bit_or_fields 16 (v / 2 ^ 16) (v % 2 ^ 16))

-- The first of `n` + 1 instructions.
pub run_step :
    (n : ℕ) (m : Memory) (c : Cpu) {c' : Cpu} {w : ℕ}
    → read32 m c.pc ≡ w
    → execute w c ≡ some c'
    → run (suc n) m c ≡ run n m c'
unfolding run
run_step n m c p q = ground arith

execute_mtctr :
    (v k p : ℕ)
    → execute 0x7d6903a6 (record { r11 = v; ctr = k; pc = p })
      ≡ some (record { r11 = v; ctr = v; pc = add32 p 4 })
unfolding execute
execute_mtctr v k p = refl

execute_bctr :
    (v p : ℕ) → execute 0x4e800420 (record { r11 = v; ctr = v; pc = p }) ≡ some (at_value v)
unfolding execute
execute_bctr v p = refl

pub run-Leads :
    {m : Memory} (slot v r k : ℕ)
    → Leads m slot v
    → v < 2 ^ 32
    → slot + 16 ≤ 2 ^ 32
    → run 4 m (record { r11 = r; ctr = k; pc = slot }) ≡ some (at_value v)
unfolding run
run-Leads {m} slot v r k l h fits =
    let p1 : add32 slot 4 ≡ slot + 4 = omega arith in
    let p2 : add32 (slot + 4) 4 ≡ slot + 8 = omega arith in
    let p3 : add32 (slot + 8) 4 ≡ slot + 12 = omega arith in
    run_step 3 m _ l.lis (execute_lis v _ h)
    ∙ run_step 2 m _ (rw p1 l.ori) (execute_ori v k _)
    ∙ run_step 1 m _ (rw (p1, p2) l.mtctr) (execute_mtctr v k _)
    ∙ run_step 0 m _ (rw (p1, p2, p3) l.bctr) (execute_bctr v _)
