-- ===== src/Kernel/Tables.antt =====
-- What the loader leaves in the kernel's tables and at its hook (src/kernel.cpp).
use custom_rpxloader.Base.{
  ℕ, ◌+◌, ◌-◌, ◌*◌, ◌^◌, ◌<◌, ◌≡◌, ◌∙◌, ap, fun_ext, refl, Bool, true, false, ◌&&◌, ◌||◌, ltb, leb,
  List, [], ◌∷◌, ◌==◌, if◌then◌else◌, arith,
}
use custom_rpxloader.Machine.{Machine, Memory, read32, write32, blit}
use custom_rpxloader.Machine.Laws.{read32-write32}
use custom_rpxloader.Kernel.{
  Words, Assembly, syscall_tables, kern_write, set_syscall, do_kernel_setup, do_kernel_setup2,
  kernel_copy_word, kernel_write_u32,
}

-- The address is that of the system call's entry in one of the tables.
abbrev is_entry : ℕ → List ℕ → ℕ → Bool
is_entry number [] x = false
is_entry number (table ∷ tables) x = x == table + number * 4 || is_entry number tables x

-- The entry of the system call `number` in one of the five tables of the kernel.
abbrev pub is_syscall_entry : (number x : ℕ) → Bool
is_syscall_entry number x =
    x == 0xffe84c70 + number * 4
    || (x == 0xffe85070 + number * 4
        || (x == 0xffe85470 + number * 4
            || (x == 0xffeaaa60 + number * 4 || x == 0xffeaae60 + number * 4)))

-- The kernel's words with another routine for a system call.
abbrev pub with_routine : (number routine : ℕ) → Words → Words
with_routine number routine words x = if is_syscall_entry number x then routine else words x

or_false : (b : Bool) → (b || false) ≡ b
or_false true = refl
or_false false = refl

set_syscall-at :
    (number routine : ℕ) (tables : List ℕ) (words : Words) (x : ℕ)
    → set_syscall number routine tables words x
      ≡ (if is_entry number tables x then routine else words x)
unfolding set_syscall kern_write
set_syscall-at number routine [] words x = refl
set_syscall-at number routine (table ∷ tables) words x =
    set_syscall-at number routine tables (kern_write (table + number * 4) routine words) x
    ∙ ground arith

set_syscall-eq :
    (number routine : ℕ) (words : Words)
    → set_syscall number routine syscall_tables words ≡ with_routine number routine words
set_syscall-eq number routine words = fun_ext λ x.
    set_syscall-at number routine syscall_tables words x
    ∙ rw (or_false (x == 0xffeaae60 + number * 4)) refl

-- The two setups change the entries of the two system calls in the five tables, besides what the
-- system call 0x36 does each time, and no other word of the kernel: at the end the entries of 0x25
-- hold the copy routine, and the second system call 0x36 runs with its final patches. In the memory
-- they put the hook's code at 0x00fff000 and change no other byte.
pub do_kernel_setup2_lem :
    (asm : Assembly) (hook : ℕ → ℕ) (words : Words) (s : Machine)
    → let after = do_kernel_setup2 asm hook (do_kernel_setup asm words, s) in
      (after.0
        ≡ with_routine 0x25 asm.sc_kernel_copy_data (
            asm.syscall_0x36 (
              with_routine 0x36 asm.kernel_patches_final
                (asm.syscall_0x36 (with_routine 0x36 asm.kernel_patches words)))))
      × ((i : ℕ)
          → after.1.mem i
            ≡ (if leb 0x00fff000 i && ltb i 0x01000000 then hook (i - 0x00fff000) else s.mem i))
unfolding do_kernel_setup do_kernel_setup2 blit
do_kernel_setup2_lem asm hook words s =
    let first : Words =
      asm.syscall_0x36 (set_syscall 0x36 asm.kernel_patches syscall_tables words) in
    let copy = asm.sc_kernel_copy_data in
    let final = asm.kernel_patches_final in
    (
      set_syscall-eq 0x25 copy (asm.syscall_0x36 (set_syscall 0x36 final syscall_tables first))
          ∙ ap (λ (w : Words). with_routine 0x25 copy (asm.syscall_0x36 w))
              (set_syscall-eq 0x36 final first)
          ∙ ap
              (λ (w : Words).
                with_routine 0x25 copy
                  (asm.syscall_0x36 (with_routine 0x36 final (asm.syscall_0x36 w))))
              (set_syscall-eq 0x36 asm.kernel_patches words),
      λ i. refl,
    )

-- The four effective addresses of a word lie one behind the other in physical memory.
abbrev pub IsTranslated : (ℕ → ℕ) → ℕ → Type 0
IsTranslated to_physical addr = (i : ℕ) → i < 4 → to_physical (addr + i) ≡ to_physical addr + i

kernel_copy_word-at :
    (to_physical : ℕ → ℕ) (addr : ℕ) (src : ℕ → ℕ) (m : Memory) (i : ℕ)
    → IsTranslated to_physical addr
    → i < 4
    → kernel_copy_word to_physical (to_physical addr) src m (addr + i) ≡ src i
unfolding kernel_copy_word
kernel_copy_word-at to_physical addr src m i translated small =
    rw (translated i small) (ground arith)

read32-copy :
    (to_physical : ℕ → ℕ) (addr a : ℕ) (m : Memory)
    → IsTranslated to_physical addr
    → read32 (kernel_copy_word to_physical (to_physical addr) (λ i. m (a + i)) m) addr ≡ read32 m a
unfolding read32
read32-copy to_physical addr a m translated =
    let src : ℕ → ℕ = λ i. m (a + i) in
    let m' = kernel_copy_word to_physical (to_physical addr) src m in
    let zero_lem : m (a + 0) ≡ m a = ap m (omega arith) in
    let first : m' (addr + 0) ≡ m' addr = ap m' (omega arith) in
    omega (
      arith,
      zero_lem,
      first,
      kernel_copy_word-at to_physical addr src m 0 translated (omega arith),
      kernel_copy_word-at to_physical addr src m 1 translated (omega arith),
      kernel_copy_word-at to_physical addr src m 2 translated (omega arith),
      kernel_copy_word-at to_physical addr src m 3 translated (omega arith),
    )

-- `KernelWriteU32` leaves the value at the word's effective address, wherever the parameter stands
-- on the stack.
pub kernel_write_u32_lem :
    (to_physical : ℕ → ℕ) (value_at addr value : ℕ) (s : Machine)
    → IsTranslated to_physical addr
    → value < 2 ^ 32
    → read32 (kernel_write_u32 to_physical value_at addr value s).mem addr ≡ value
unfolding kernel_write_u32
kernel_write_u32_lem to_physical value_at addr value s translated small =
    read32-copy to_physical addr value_at (write32 s.mem value_at value) translated
    ∙ read32-write32 s.mem value_at value small
