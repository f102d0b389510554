-- ===== src/Kernel.antt =====
-- src/kernel.cpp: the loader's entries in the five tables of system calls. A word of the kernel's
-- memory is a number for each address; the assembly behind the system call 0x36 and the addresses
-- of the assembly's routines are parameters.
pub mod Tables
mod Tests
use custom_rpxloader.Machine.{Memory, Machine, memcpy, write32, ic_invalidate_range, dc_flush_range}
use custom_rpxloader.Base.{ℕ, ◌+◌, ◌-◌, ◌*◌, ◌&&◌, List, [], ◌∷◌, ltb, leb, ◌==◌, if◌then◌else◌}

abbrev pub Words : Type 0
Words = ℕ → ℕ

-- The routines in assembly: what `Syscall_0x36` does, and where the others stand.
pub record Assembly : Type 0 where
  pub syscall_0x36 : Words → Words
  pub kernel_patches : ℕ
  pub kernel_patches_final : ℕ
  pub sc_kernel_copy_data : ℕ

-- KERN_SYSCALL_TBL_1 to KERN_SYSCALL_TBL_5
abbrev pub syscall_tables : List ℕ
syscall_tables = 0xffe84c70 ∷ 0xffe85070 ∷ 0xffe85470 ∷ 0xffeaaa60 ∷ 0xffeaae60 ∷ []

-- `kern_write`: one word, with the kernel's permissions.
unfoldable pub kern_write : ℕ → ℕ → Words → Words
kern_write addr value words x = if x == addr then value else words x

-- The five calls of `kern_write` for one system call.
unfoldable pub set_syscall : (number routine : ℕ) → List ℕ → Words → Words
set_syscall number routine [] words = words
set_syscall number routine (table ∷ tables) words =
    set_syscall number routine tables (kern_write (table + number * 4) routine words)

-- `doKernelSetup`
unfoldable pub do_kernel_setup : Assembly → Words → Words
do_kernel_setup asm words =
    asm.syscall_0x36 (set_syscall 0x36 asm.kernel_patches syscall_tables words)

-- The hook's code is copied to 0x00fff000, where the system call expects it.
abbrev pub copy_hook : (hook : ℕ → ℕ) → Machine → Machine
copy_hook hook s =
    let m = memcpy 0x00fff000 hook 0x1000 s in
    record m {
      cache = dc_flush_range 0x00fff000 0x1000 ∷ ic_invalidate_range 0x00fff000 0x1000 ∷ m.cache;
    }

-- `doKernelSetup2`
unfoldable pub do_kernel_setup2 : Assembly → (hook : ℕ → ℕ) → Words × Machine → Words × Machine
do_kernel_setup2 asm hook (words, s) = (
  set_syscall 0x25 asm.sc_kernel_copy_data syscall_tables
      (asm.syscall_0x36 (set_syscall 0x36 asm.kernel_patches_final syscall_tables words)),
  copy_hook hook s,
)

-- `SC_0x25_KernelCopyData` of a word, whose bytes are `src`, to the physical address `dst`: each
-- effective address whose physical one is among the four shows a byte of the word.
unfoldable pub kernel_copy_word : (to_physical : ℕ → ℕ) (dst : ℕ) → (src : ℕ → ℕ) → Memory → Memory
kernel_copy_word to_physical dst src m x =
    let at = to_physical x in if leb dst at && ltb at (dst + 4) then src (at - dst) else m x

-- `KernelWriteU32`: the parameter stands on the stack at the effective address `value_at`, and
-- the system call copies it between the physical addresses. Its four bytes lie in one page.
-- `OSEffectiveToPhysical` is a parameter.
unfoldable pub kernel_write_u32 :
    (to_physical : ℕ → ℕ) (value_at addr value : ℕ) → Machine → Machine
unfolding kernel_copy_word
kernel_write_u32 to_physical value_at addr value s =
    let m = write32 s.mem value_at value in
    record {
      mem = kernel_copy_word to_physical (to_physical addr) (λ i. m (value_at + i)) m;
      cache =
          ic_invalidate_range addr 4
          ∷ dc_flush_range addr 4
          ∷ dc_flush_range value_at 4
          ∷ ic_invalidate_range value_at 4
          ∷ s.cache;
    }

-- `revertMainHook`: the instruction `bctrl` is put back.
unfoldable pub revert_main_hook : (to_physical : ℕ → ℕ) (value_at : ℕ) → Machine → Machine
revert_main_hook to_physical value_at = kernel_write_u32 to_physical value_at 0x0101c56c 0x4e800421
