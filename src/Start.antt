-- ===== src/Start.antt =====
-- `do_start` and `_start` (src/main.cpp): where the module goes, its start, and what happens if it
-- cannot be loaded. The system and the file are parameters; the wait for the end of the process
-- runs on fuel.
pub mod Layout
pub mod Waiting
pub mod Process
pub mod Spared
pub mod Fallback
mod Tests
use custom_rpxloader.Base.{
  ℕ, zero, suc, ◌+◌, ◌*◌, ◌/◌, ◌%◌, ◌^◌, Bool, true, false, not, ◌&&◌, Option, none, some, List, [],
  ◌∷◌, ◌++◌, map, length, get_or, ◌==◌, if◌then◌else◌, bit_and,
}
use custom_rpxloader.Machine.{
  Machine, add32, sub32, memset, memcpy, blit, word_bytes, dc_flush_range, ic_invalidate_range,
  sync_range,
}
use custom_rpxloader.Outcome.{Cmd, Outcome, done, failed, fatal}
use custom_rpxloader.Reader.{Reader, Text}
use custom_rpxloader.Trampolin.{entry_size, trampolin_list_length}
use custom_rpxloader.ImportRplInformation.{codes}
use custom_rpxloader.ModuleData.{ModuleData}
use custom_rpxloader.ModuleDataFactory.{load}
use custom_rpxloader.ModuleDataFactory.Placement.{text_eq}
use custom_rpxloader.DoRelocation.{DynLoad, do_relocation}
use custom_rpxloader.StringTools.Format.{Printed, strfmt}
use custom_rpxloader.SplashScreen.{Screen, ScreenCall, splash_screen}
use custom_rpxloader.Kernel.{Words, Assembly, do_kernel_setup, do_kernel_setup2, revert_main_hook}

-- ProcUIStatus
pub data Status : Type 0 where
  exiting : Status
  release_foreground : Status
  in_foreground : Status
  in_background : Status

-- What the user sees, and the calls that end the process.
pub data Event : Type 0 where
  screen : ScreenCall → Event
  launch_menu : Event
  launch_menu_checking : ℕ → Event
  proc_ui_init : Event
  draw_done_release : Event
  sleep : Event
  proc_ui_shutdown : Event

-- The system as the loader finds it: `messages` are the answers of `ProcUIProcessMessages`, one for
-- each round.
pub record System : Type 0 where
  pub title_id : ℕ
  pub file : Option (List ℕ)
  pub parse : List ℕ → Option Reader
  pub allocated : Bool
  pub dyn_load : DynLoad
  pub to_physical : ℕ → ℕ
  pub value_at : ℕ
  pub default_slot : Bool
  pub slot : ℕ
  pub messages : ℕ → Status
  -- vsprintf with one argument, the static buffer of `strfmt`, and what SplashScreen asks for
  pub vsprintf : Text → Text → Printed
  pub tmp : ℕ
  pub buffer_size : Screen → ℕ
  pub memalign : ℕ → ℕ → ℕ
  pub ticks : ℕ → ℕ

-- The end address of a module, the end of the loader's own memory (the address of `gModuleData`),
-- the lowest address that a module may have, and the room for it.
abbrev pub module_end : ℕ
module_end = 0x00fd0000

abbrev pub application_memory_end : ℕ → ℕ
application_memory_end code_end = bit_and (add32 code_end 0x100) 0xffffff00

abbrev pub module_data_start : ℕ → ℕ
module_data_start code_end =
    bit_and
      (add32 (add32 (application_memory_end code_end) (trampolin_list_length * entry_size)) 0x10000)
      0xffff0000

abbrev pub maximum_size : ℕ → ℕ
maximum_size code_end = sub32 module_end (module_data_start code_end)

-- `CheckRunning`: whether the process goes on, and what it has done.
unfoldable pub check_running : Status → Bool × List Event
check_running exiting = (false, [])
check_running release_foreground = (true, draw_done_release ∷ [])
check_running in_foreground = (true, [])
check_running in_background = (true, [])

-- The loop of `do_start`, from its round `i` on; `none` is out of fuel.
unfoldable pub wait : (ℕ → Status) → (fuel i : ℕ) → Option (List Event)
wait messages zero i = none
wait messages (suc fuel) i =
    let (running, events) = check_running (messages i) in
    let rest = wait messages fuel (i + 1) in
    if running
    then elim rest [ none ↦ none | some later ↦ some (events ++ sleep ∷ later) ]
    else some events

-- The menu is launched and the loader waits until the process ends.
unfoldable pub leave : System → (fuel : ℕ) → Option (List Event)
leave sys fuel =
    let menu = if sys.default_slot then launch_menu else launch_menu_checking sys.slot in
    elim (wait sys.messages fuel 0) [
      | none ↦ none
      | some events ↦ some (menu ∷ proc_ui_init ∷ (events ++ proc_ui_shutdown ∷ []))
    ]

-- The .bss and the .sbss are set to zeros.
unfoldable pub clear_bss : ModuleData → Machine → Machine
clear_bss m s =
    let s' = if not (m.bss_addr == 0) then memset m.bss_addr 0 m.bss_size s else s in
    if not (m.sbss_addr == 0) then memset m.sbss_addr 0 m.sbss_size s' else s'

-- `*cfwLaunchedWithPtr = OSGetTitleID()`, eight bytes
abbrev pub write_title_id : ℕ → Machine → Machine
write_title_id title_id s = record s {
  mem =
      blit (blit s.mem 0x00fffff8 4 (word_bytes (title_id / 2 ^ 32))) 0x00fffffc 4
        (word_bytes (title_id % 2 ^ 32));
}

-- The part for a module that has been loaded.
unfoldable pub start_module : System → (trampolines : ℕ) → ModuleData → Cmd ℕ
start_module sys trampolines m s =
    let (ok, st) =
      do_relocation sys.dyn_load m.relocation_data_list trampolines trampolin_list_length s in
    if ok
    then done m.entrypoint (sync_range 0x00800000 0x00800000 (clear_bss m st.machine))
    else fatal st.machine

-- The result of `do_start`: the entry point, and what has been seen; `none` if the wait is out of
-- fuel.
pub record Started : Type 0 where
  pub entrypoint : ℕ
  pub events : Option (List Event)

-- `argv[0]` if there is one, for a process that is not run as "safe.rpx".
unfoldable pub do_proc_ui : Option Text → Bool
do_proc_ui none = false
do_proc_ui (some argv0) = not (text_eq argv0 (codes "safe.rpx"))

abbrev pub filepath : Text
filepath = codes "fs:/vol/external01/wiiu/payload.rpx"

-- The message that the module could not be loaded, and the bytes that printing it leaves in the
-- static buffer of `strfmt`.
unfoldable pub failure_message : System → Text × List ℕ
failure_message sys = strfmt (sys.vsprintf (codes "Failed to load \"%s\"") filepath)

abbrev pub print_message : System → Machine → Machine
print_message sys =
    let bytes = (failure_message sys).1 in memcpy sys.tmp (λ i. get_or bytes i 0) (length bytes)

-- The message on the screens, for three seconds.
unfoldable pub failure_screen : System → List Event
failure_screen sys =
    map screen (splash_screen sys.buffer_size sys.memalign sys.ticks (failure_message sys).0 3000)

-- `do_start`
unfoldable pub do_start : System → (code_end fuel : ℕ) → Option Text → Cmd Started
do_start sys code_end fuel argv0 s =
    let table = application_memory_end code_end in
    elim (load sys.file sys.parse sys.allocated module_end (maximum_size code_end) table
      trampolin_list_length (write_title_id sys.title_id s)) [
        | fatal s' ↦ fatal s'
        | done m s' ↦ elim (start_module sys table m s') [
          | done entry s'' ↦ done (record { entrypoint = entry; events = some [] }) s''
          | failed s'' ↦ failed s''
          | fatal s'' ↦ fatal s''
        ]
        | failed s' ↦
            done
              (record {
                entrypoint = 0;
                events =
                    if do_proc_ui argv0
                    then elim (leave sys fuel) [
                      | none ↦ none
                      | some events ↦ some (failure_screen sys ++ events)
                    ]
                    else some (failure_screen sys);
              })
              (print_message sys (revert_main_hook sys.to_physical sys.value_at s'))
      ]

-- What `_start` does last: it goes to the module, or returns -1, or it is still waiting when the
-- fuel is used up.
pub data Exit : Type 0 where
  jump : ℕ → Exit
  return_error : Exit
  waiting : Exit

-- `_start`, with the kernel's words.
unfoldable pub start :
    Assembly
    → (hook : ℕ → ℕ) → System
    → (code_end fuel : ℕ) → Option Text
    → Words
    → Machine
    → Words × Outcome Exit
start asm hook sys code_end fuel argv0 words s =
    let (words', s') = do_kernel_setup2 asm hook (do_kernel_setup asm words, s) in
    (
      words',
      elim (do_start sys code_end fuel argv0 s') [
        | fatal s'' ↦ fatal s''
        | failed s'' ↦ failed s''
        | done r s'' ↦ elim r.events [
          | none ↦ done waiting s''
          | some events ↦ done (if r.entrypoint == 0 then return_error else jump r.entrypoint) s''
        ]
      ],
    )
