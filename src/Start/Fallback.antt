-- ===== src/Start/Fallback.antt =====
-- A start without a module (src/main.cpp, `do_start`).
mod Tests
use custom_rpxloader.Base.{
  ℕ, ◌+◌, ◌^◌, ◌<◌, ◌≡◌, ◌≢◌, refl, sym, ap, ◌∙◌, Bool, true, false, Option, none, some, List, [],
  ◌∷◌, ◌++◌, map, length, length-append, get_or, get_elem?, ◌≤◌, ◌⊎◌, inl, inr, Bool-cases, arith,
  ltb, if◌then◌else◌,
}
use mathlib.Core.List.{append-nil}
use custom_rpxloader.Machine.{Machine, read32, blit}
use custom_rpxloader.Machine.Laws.{blit-outside, read32-SameOutside}
use custom_rpxloader.ImportRplInformation.{codes}
use custom_rpxloader.StringTools.Format.{printed, strfmt}
use custom_rpxloader.SplashScreen.{screen_tv, screen_drc, put_font, sleep_ticks, splash_screen}
use custom_rpxloader.Outcome.{Outcome, Cmd, done, failed}
use custom_rpxloader.Reader.{Reader, Text}
use custom_rpxloader.Trampolin.{trampolin_list_length}
use custom_rpxloader.ModuleData.{ModuleData}
use custom_rpxloader.ModuleDataFactory.{load, load_reader}
use custom_rpxloader.ModuleDataFactory.Placement.{size_of_module, text_eq}
use custom_rpxloader.ModuleDataFactory.Room.{load-load_reader, load_reader-too_big}
use custom_rpxloader.Kernel.{revert_main_hook}
use custom_rpxloader.Kernel.Tables.{IsTranslated, kernel_write_u32_lem}
use custom_rpxloader.Start.Waiting.{rounds, leave-rounds}
use custom_rpxloader.Start.{
  System, Status, exiting, Event, screen, launch_menu, launch_menu_checking, proc_ui_init,
  proc_ui_shutdown, module_end, application_memory_end, maximum_size, write_title_id,
  failure_screen, failure_message, print_message, do_proc_ui, leave, Started, do_start,
}

-- Reasons for which there is no module: no file, no ELF file, no memory, or more than the room.
pub data HasNoModule (sys : System) (maximum : ℕ) : Type 0 where
  no_file : sys.file ≡ none → HasNoModule sys maximum
  no_elf :
      (buffer : List ℕ) → sys.file ≡ some buffer → sys.parse buffer ≡ none → HasNoModule sys maximum
  no_memory :
      (buffer : List ℕ) (reader : Reader)
      → sys.file ≡ some buffer
      → sys.parse buffer ≡ some reader
      → sys.allocated ≡ false
      → HasNoModule sys maximum
  too_big :
      (buffer : List ℕ) (reader : Reader)
      → sys.file ≡ some buffer
      → sys.parse buffer ≡ some reader
      → maximum < size_of_module 0 reader.sections
      → HasNoModule sys maximum

pub load_failed :
    (sys : System) (top maximum table n : ℕ) (s : Machine)
    → HasNoModule sys maximum
    → load sys.file sys.parse sys.allocated top maximum table n s ≡ failed s
unfolding load load_reader
load_failed sys top maximum table n s (no_file e) = rw (load, e) refl
load_failed sys top maximum table n s (no_elf buffer e e') = rw (load, e, e') refl
load_failed sys top maximum table n s (no_memory buffer reader e e' none_left) =
    load-load_reader sys.file sys.parse sys.allocated top maximum table n s buffer reader e e'
    ∙ rw (load_reader, none_left) refl
load_failed sys top maximum table n s (too_big buffer reader e e' large) =
    load-load_reader sys.file sys.parse sys.allocated top maximum table n s buffer reader e e'
    ∙ load_reader-too_big reader sys.allocated top maximum table n s (ground arith)

-- The menu and the wait of `n` rounds.
abbrev pub menu_events : System → ℕ → List Event
menu_events sys n =
    (if sys.default_slot then launch_menu else launch_menu_checking sys.slot)
    ∷ proc_ui_init
    ∷ (rounds sys.messages n 0 ++ proc_ui_shutdown ∷ [])

-- What a process does that is run under another name than "safe.rpx"; one that is run without
-- arguments does nothing more.
abbrev pub leaving_events : Option Text → System → ℕ → List Event
leaving_events none sys n = []
leaving_events (some argv0) sys n =
    if text_eq argv0 (codes "safe.rpx") then [] else menu_events sys n

do_proc_ui-eq :
    (sys : System) (argv0 : Option Text) (n fuel : ℕ) (events : List Event)
    → leave sys fuel ≡ some (menu_events sys n)
    → (if do_proc_ui argv0
        then elim (leave sys fuel) [ none ↦ none | some later ↦ some (events ++ later) ]
        else some events)
      ≡ some (events ++ leaving_events argv0 sys n)
unfolding do_proc_ui
do_proc_ui-eq sys none n fuel events left = ap some (sym (append-nil events))
do_proc_ui-eq sys (some argv0) n fuel events left =
    elim (Bool-cases (text_eq argv0 (codes "safe.rpx"))) [
      | inl safe ↦ rw safe (ap some (sym (append-nil events)))
      | inr other ↦ rw (other, left) refl
    ]

failure_message-printed :
    (sys : System) (message : Text)
    → sys.vsprintf (codes "Failed to load \"%s\"") (codes "fs:/vol/external01/wiiu/payload.rpx")
      ≡ printed message
    → failure_message sys ≡ (message, message ++ 0 ∷ [])
unfolding failure_message strfmt
failure_message-printed sys message prints = ap strfmt prints

failure_screen-shown :
    (sys : System) (message : Text)
    → failure_message sys ≡ (message, message ++ 0 ∷ [])
    → failure_screen sys
      ≡ map screen (splash_screen sys.buffer_size sys.memalign sys.ticks message 3000)
unfolding failure_screen
failure_screen-shown sys message e =
    ap
      (λ (m : Text × List ℕ).
        map screen (splash_screen sys.buffer_size sys.memalign sys.ticks m.0 3000))
      e

do_start-failed :
    (sys : System) (code_end n fuel : ℕ) (argv0 : Option Text) (s s1 : Machine)
    → load sys.file sys.parse sys.allocated module_end
        (maximum_size code_end)
        (application_memory_end code_end)
        trampolin_list_length
        (write_title_id sys.title_id s)
      ≡ failed s1
    → leave sys fuel ≡ some (menu_events sys n)
    → do_start sys code_end fuel argv0 s
      ≡ done
          (record {
            entrypoint = 0;
            events = some (failure_screen sys ++ leaving_events argv0 sys n);
          })
          (print_message sys (revert_main_hook sys.to_physical sys.value_at s1))
unfolding do_start
do_start-failed sys code_end n fuel argv0 s s1 refused left =
    rw (do_start, refused)
      (ap
        (λ (events : Option (List Event)).
          done (record { entrypoint = 0; events = events })
            (print_message sys (revert_main_hook sys.to_physical sys.value_at s1)))
        (do_proc_ui-eq sys argv0 n fuel (failure_screen sys) left))

-- If `load` ends by an error, for whatever reason, `vsprintf` prints the message, the buffer that
-- it is printed into lies apart from the loader's hook, the hook's word lies in one piece in physical
-- memory, and the process is told to end in round `n` and not before, then with more fuel than `n`
-- `do_start` returns 0 and the instruction at the hook is the old one again. The message has been
-- put on both screens and shown for three seconds; if the process is run with arguments and not as
-- "safe.rpx", the menu has been launched after that and the loader has waited those rounds, and
-- otherwise nothing more has been done.
pub do_start-falls_back :
    (sys : System) (code_end n fuel : ℕ) (argv0 : Option Text) (message : Text) (s s1 : Machine)
    → load sys.file sys.parse sys.allocated module_end
        (maximum_size code_end)
        (application_memory_end code_end)
        trampolin_list_length
        (write_title_id sys.title_id s)
      ≡ failed s1
    → sys.vsprintf (codes "Failed to load \"%s\"") (codes "fs:/vol/external01/wiiu/payload.rpx")
      ≡ printed message
    → (sys.tmp + length message + 1 ≤ 0x0101c56c) ⊎ (0x0101c570 ≤ sys.tmp)
    → IsTranslated sys.to_physical 0x0101c56c
    → ((j : ℕ) → j < n → sys.messages j ≢ exiting)
    → sys.messages n ≡ exiting
    → n < fuel
    → let shown = map screen (splash_screen sys.buffer_size sys.memalign sys.ticks message 3000) in
      (s' : Machine) × (do_start sys code_end fuel argv0 s
        ≡ done (record { entrypoint = 0; events = some (shown ++ leaving_events argv0 sys n) }) s')
      × (read32 s'.mem 0x0101c56c ≡ 0x4e800421)
      × (get_elem? shown 8 ≡ some (screen (put_font screen_tv 0 0 message)))
      × (get_elem? shown 9 ≡ some (screen (put_font screen_drc 0 0 message)))
      × (get_elem? shown 12 ≡ some (screen (sleep_ticks (sys.ticks 3000))))
unfolding revert_main_hook splash_screen
do_start-falls_back sys code_end n fuel argv0 message s s1 refused prints apart translated running
      ends enough =
    let s2 = revert_main_hook sys.to_physical sys.value_at s1 in
    let put = failure_message-printed sys message prints in
    let bytes : List ℕ = (failure_message sys).1 in
    let size : length bytes ≡ length message + 1 =
      ap (λ (m : Text × List ℕ). length m.1) put ∙ length-append message (0 ∷ []) in
    (
      print_message sys s2,
      do_start-failed sys code_end n fuel argv0 s s1 refused
            (leave-rounds sys n fuel running ends enough)
          ∙ ap
              (λ (shown : List Event).
                done
                  (record { entrypoint = 0; events = some (shown ++ leaving_events argv0 sys n) })
                  (print_message sys s2))
              (failure_screen-shown sys message put),
      read32-SameOutside sys.tmp (sys.tmp + length bytes) 0x0101c56c
            (blit-outside s2.mem sys.tmp (length bytes) (λ i. get_or bytes i 0))
            (ground (arith, size, apart))
          ∙ kernel_write_u32_lem sys.to_physical sys.value_at 0x0101c56c 0x4e800421 s1 translated
              (omega arith),
      refl,
      refl,
      refl,
    )
