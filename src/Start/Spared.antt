-- ===== src/Start/Spared.antt =====
-- What the start of a module leaves as it is (src/main.cpp, `do_start`).
mod Tests
use custom_rpxloader.Base.{
  ℕ, ◌+◌, ◌*◌, ◌/◌, ◌%◌, ◌^◌, ◌≤◌, ◌<◌, ◌≡◌, ◌≢◌, ◌⊎◌, refl, sym, ap, ◌∙◌, Bool, true, false, not,
  Option, none, some, List, [], ◌∷◌, ◌++◌, inl, inr, Bool-cases, Option-cases, arith, if◌then◌else◌,
  ◌==◌, ltb, get_or, length,
}
use custom_rpxloader.Machine.{Machine, add32, write32, blit, word_bytes, memset}
use custom_rpxloader.Machine.Laws.{blit-outside}
use custom_rpxloader.Outcome.{Outcome, Cmd, done, failed, fatal, machine}
use custom_rpxloader.Reader.{Reader, Text}
use custom_rpxloader.Trampolin.{entry_size, trampolin_list_length}
use custom_rpxloader.ElfUtils.Frame.{Beside}
use custom_rpxloader.ModuleData.{ModuleData, RelocationData}
use custom_rpxloader.ModuleDataFactory.{load, load_reader}
use custom_rpxloader.ModuleDataFactory.Placement.{size_of_module, target_address_of}
use custom_rpxloader.ModuleDataFactory.Placement.Bounds.{
  exact_size, size_of_module-exact, target_address_of_bounds,
}
use custom_rpxloader.ModuleDataFactory.WellFormed.{IsWellFormed, AllImports}
use custom_rpxloader.ModuleDataFactory.Room.{
  load-load_reader, load_reader-too_big, load_reader-in_room,
}
use custom_rpxloader.ModuleDataFactory.Result.{AllTargets, InRoom, IsInRoom}
use custom_rpxloader.ModuleDataFactory.Result.Whole.{load_reader-IsInRoom}
use custom_rpxloader.DoRelocation.{do_relocation}
use custom_rpxloader.DoRelocation.Frame.{Untouched, do_relocation-frame}
use custom_rpxloader.Kernel.{kernel_copy_word, kernel_write_u32, revert_main_hook}
use custom_rpxloader.Start.Layout.{layout_bounds}
use custom_rpxloader.Start.{
  System, module_end, application_memory_end, module_data_start, maximum_size, failure_screen,
  failure_message, print_message, Event, clear_bss, write_title_id, start_module, Started, do_start,
  leave, do_proc_ui,
}

Untouched-AllTargets :
    (low top x : ℕ) (list : List RelocationData)
    → x < low
    → AllTargets low top list
    → Untouched x list
Untouched-AllTargets low top x [] below h = tt
Untouched-AllTargets low top x (r ∷ rs) below h =
    (omega (arith, h.0), Untouched-AllTargets low top x rs below h.1)

clear_bss-below :
    (low top x : ℕ) (m : ModuleData) (s : Machine)
    → x < low
    → IsInRoom low top m
    → (clear_bss m s).mem x ≡ s.mem x
unfolding clear_bss blit
clear_bss-below low top x m s below h = ground (arith, h.bss, h.sbss)

start_module-below :
    (sys : System) (table low top x : ℕ) (m : ModuleData) (s : Machine)
    → x < low
    → IsInRoom low top m
    → Beside x table (entry_size * trampolin_list_length)
    → (machine (start_module sys table m s)).mem x ≡ s.mem x
unfolding start_module
start_module-below sys table low top x m s below room apart =
    let r = do_relocation sys.dyn_load m.relocation_data_list table trampolin_list_length s in
    let same : r.1.machine.mem x ≡ s.mem x =
      do_relocation-frame sys.dyn_load table trampolin_list_length x apart m.relocation_data_list s
        (Untouched-AllTargets low top x m.relocation_data_list below room.targets) in
    elim (Bool-cases r.0) [
      | inl e ↦ rw e (clear_bss-below low top x m r.1.machine below room ∙ same)
      | inr e ↦ rw e same
    ]

write_title_id-below :
    (title x : ℕ) (s : Machine) → x < 0x00fffff8 → (write_title_id title s).mem x ≡ s.mem x
unfolding blit
write_title_id-below title x s below = ground arith

revert_main_hook-Beside :
    (to_physical : ℕ → ℕ) (value_at x : ℕ) (s : Machine)
    → Beside x value_at 4
    → Beside (to_physical x) (to_physical 0x0101c56c) 4
    → (revert_main_hook to_physical value_at s).mem x ≡ s.mem x
unfolding revert_main_hook kernel_write_u32 kernel_copy_word blit write32
revert_main_hook-Beside to_physical value_at x s stack hook = ground arith

-- The number of bytes that the failure's message takes in `strfmt`'s buffer.
abbrev pub message_size : System → ℕ
message_size sys = length (failure_message sys).1

print_message-Beside :
    (sys : System) (x : ℕ) (s : Machine)
    → message_size sys ≤ 512
    → Beside x sys.tmp 512
    → (print_message sys s).mem x ≡ s.mem x
print_message-Beside sys x s fits apart =
    blit-outside s.mem sys.tmp (message_size sys) (λ i. get_or (failure_message sys).1 i 0) x
      (ground (arith, fits, apart))

-- What `do_start` makes of the end of `load`, and of the end of a module's start.
abbrev of_module : Outcome ℕ → Outcome Started
of_module o = elim o [
  | done entry s'' ↦ done (record { entrypoint = entry; events = some [] }) s''
  | failed s'' ↦ failed s''
  | fatal s'' ↦ fatal s''
]

of_module-machine : (o : Outcome ℕ) → machine (of_module o) ≡ machine o
of_module-machine (done entry s) = refl
of_module-machine (failed s) = refl
of_module-machine (fatal s) = refl

abbrev of_load : System → (table fuel : ℕ) → Option Text → Outcome ModuleData → Outcome Started
of_load sys table fuel argv0 o = elim o [
  | fatal s' ↦ fatal s'
  | done m s' ↦ of_module (start_module sys table m s')
  | failed s' ↦
      done
        (record {
          entrypoint = 0;
          events =
              if do_proc_ui argv0
              then elim (leave sys fuel) [
                | none ↦ none
                | some events ↦ some (failure_screen sys ++ events)
              ]
              else some (failure_screen sys);
        })
        (print_message sys (revert_main_hook sys.to_physical sys.value_at s'))
]

module _ (sys : System) (code_end fuel : ℕ) (argv0 : Option Text) (s : Machine) (x : ℕ)
    (stack : Beside x sys.value_at 4)
    (hook : Beside (sys.to_physical x) (sys.to_physical 0x0101c56c) 4)
    (fits : message_size sys ≤ 512) (buffer_apart : Beside x sys.tmp 512) where
  of_load-below :
      (table low top : ℕ) (o : Outcome ModuleData)
      → x < low
      → Beside x table (entry_size * trampolin_list_length)
      → (machine o).mem x ≡ s.mem x
      → ((m : ModuleData) (s' : Machine) → o ≡ done m s' → IsInRoom low top m)
      → (machine (of_load sys table fuel argv0 o)).mem x ≡ s.mem x
  of_load-below table low top (fatal s') below apart same room = same
  of_load-below table low top (failed s') below apart same room =
      print_message-Beside sys x (revert_main_hook sys.to_physical sys.value_at s') fits
        buffer_apart
      ∙ revert_main_hook-Beside sys.to_physical sys.value_at x s' stack hook
      ∙ same
  of_load-below table low top (done m s') below apart same room =
      ap (λ t. t.mem x) (of_module-machine (start_module sys table m s'))
      ∙ start_module-below sys table low top x m s' below (room m s' refl) apart
      ∙ same

  -- If the file can be read and parsed, the loader's own memory ends at 0x00f00000 or below, the
  -- module's true size is less than 2 ^ 32, its sections are numbered as they stand, and its
  -- relocations and imports are for words of sections that are placed, and the message of a failure
  -- takes 512 bytes at most, then however `do_start` ends, it has changed no byte below the
  -- trampoline table, where the loader itself is, but for the parameter of `KernelWriteU32` on the
  -- stack, the bytes that are in physical memory those of the loader's hook, and the static buffer
  -- of `strfmt`.
  pub do_start-spares_loader :
      (buffer : List ℕ) (reader : Reader)
      → code_end ≤ 0x00f00000
      → x < application_memory_end code_end
      → sys.file ≡ some buffer
      → sys.parse buffer ≡ some reader
      → IsWellFormed reader
      → AllImports reader reader.sections
      → exact_size reader.sections < 2 ^ 32
      → (machine (do_start sys code_end fuel argv0 s)).mem x ≡ s.mem x
  unfolding do_start
  do_start-spares_loader buffer reader loader below read parsed formed imports small =
      let bounds = layout_bounds code_end loader in
      let table = application_memory_end code_end in
      let low : ℕ = target_address_of module_end (size_of_module 0 reader.sections) in
      let s0 = write_title_id sys.title_id s in
      let titled : s0.mem x ≡ s.mem x =
        write_title_id-below sys.title_id x s (omega (arith, bounds)) in
      let o =
        load sys.file sys.parse sys.allocated module_end (maximum_size code_end) table
          trampolin_list_length s0 in
      let n : ℕ = trampolin_list_length in
      let max : ℕ = maximum_size code_end in
      let run = load_reader reader sys.allocated module_end max table n s0 in
      let same : o ≡ run =
        load-load_reader sys.file sys.parse sys.allocated module_end max table n s0 buffer reader
          read parsed in
      let apart : Beside x table (entry_size * n) = inl below in
      elim (Bool-cases (ltb max (size_of_module 0 reader.sections))) [
        | inl big ↦
            let refused : o ≡ failed s0 =
              same ∙ load_reader-too_big reader sys.allocated module_end max table n s0 big in
            of_load-below table (x + 1) module_end o (omega arith) apart
              (ap (λ r. (machine r).mem x) refused ∙ titled) (λ m s' e. cc)
        | inr fine ↦
            let size = size_of_module-exact reader.sections small in
            let room : exact_size reader.sections ≤ module_end =
              ground (arith, bounds, size, fine) in
            let low_bounds =
              target_address_of_bounds module_end (size_of_module 0 reader.sections)
                (omega (arith, size, room)) (omega arith) in
            let under : x < low = ground (arith, bounds, low_bounds, fine) in
            of_load-below table low module_end o under apart
              (ap (λ r. (machine r).mem x) same
                ∙ load_reader-in_room reader sys.allocated module_end max table n s0 x formed room
                    (omega arith) (inl under) apart
                ∙ titled)
              (λ m s' e.
                load_reader-IsInRoom reader sys.allocated module_end max table n s0 s' m formed
                  imports room (omega arith) (sym same ∙ e))
      ]
