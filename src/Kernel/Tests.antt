-- ===== src/Kernel/Tests.antt =====
-- The setups with a system call that changes one word (src/kernel.cpp).
use custom_rpxloader.Base.{ℕ, [], ◌+◌, ◌-◌, ◌≡◌, ◌&&◌, ltb, leb, ◌==◌, if◌then◌else◌}
use custom_rpxloader.Machine.{Machine}
use custom_rpxloader.Kernel.{Assembly, do_kernel_setup, do_kernel_setup2}
use custom_rpxloader.Kernel.Tables.{with_routine, do_kernel_setup2_lem}

abbrev assembly : Assembly
assembly = record {
  syscall_0x36 = λ words x. if x == 0xfff00000 then words x + 1 else words x;
  kernel_patches = 0x00800100;
  kernel_patches_final = 0x00800200;
  sc_kernel_copy_data = 0x00800300;
}

abbrev empty : Machine
empty = record { mem = λ _. 0; cache = [] }

do_kernel_setup2_lem_example :
    let after = do_kernel_setup2 assembly (λ i. i) (do_kernel_setup assembly (λ x. x), empty) in
    (after.0
      ≡ with_routine 0x25 0x00800300 (
          assembly.syscall_0x36 (
            with_routine 0x36 0x00800200
              (assembly.syscall_0x36 (with_routine 0x36 0x00800100 (λ x. x))))))
    × ((i : ℕ)
        → after.1.mem i ≡ (if leb 0x00fff000 i && ltb i 0x01000000 then i - 0x00fff000 else 0))
do_kernel_setup2_lem_example = do_kernel_setup2_lem assembly (λ i. i) (λ x. x) empty
