-- ===== src/Start/Fallback/Tests.antt =====
-- A start without a file, run from the menu's title (src/main.cpp).
use custom_rpxloader.Base.{
  ℕ, zero, suc, ◌<◌, ◌≡◌, ◌≢◌, refl, true, none, some, [], ◌∷◌, ◌++◌, arith, inl, map, get_elem?,
}
use custom_rpxloader.Machine.{Machine, read32}
use custom_rpxloader.Outcome.{done}
use custom_rpxloader.ImportRplInformation.{codes}
use custom_rpxloader.Reader.{Text}
use custom_rpxloader.Trampolin.{trampolin_list_length}
use custom_rpxloader.SplashScreen.{screen_tv, screen_drc, put_font, sleep_ticks, splash_screen}
use custom_rpxloader.StringTools.Format.{printed}
use custom_rpxloader.Start.{
  Status, exiting, release_foreground, in_foreground, launch_menu, proc_ui_init, draw_done_release,
  sleep, proc_ui_shutdown, screen, System, module_end, maximum_size, application_memory_end,
  write_title_id, do_start,
}
use custom_rpxloader.Start.Fallback.{no_file, load_failed, do_start-falls_back}

abbrev messages : ℕ → Status
messages zero = in_foreground
messages (suc zero) = release_foreground
messages (suc (suc i)) = exiting

abbrev sys : System
sys = record {
  title_id = 0x0005001010040200;
  file = none;
  parse = λ _. none;
  allocated = true;
  dyn_load = record { acquire = λ _ _. none; find_export = λ _ _ _ _. none };
  to_physical = λ a. a;
  value_at = 0x10000000;
  default_slot = true;
  slot = 1;
  messages = messages;
  vsprintf = λ format text. printed (codes "Failed to load \"" ++ (text ++ codes "\""));
  tmp = 0x00811000;
  buffer_size = λ screen. 0x1000;
  memalign = λ alignment size. 0x10000000;
  ticks = λ ms. ms;
}

abbrev empty : Machine
empty = record { mem = λ _. 0; cache = [] }

running : (j : ℕ) → j < 2 → messages j ≢ exiting
running zero h = λ q. cc
running (suc zero) h = λ q. cc
running (suc (suc j)) h = absurd (omega arith)

abbrev message : Text
message = codes "Failed to load \"fs:/vol/external01/wiiu/payload.rpx\""

do_start-falls_back_example :
    let shown =
      map screen
        (splash_screen (λ screen. 0x1000) (λ alignment size. 0x10000000) (λ ms. ms) message 3000) in
    (s' : Machine) × (do_start sys 0x00812345 10 (some (codes "men.rpx")) empty
      ≡ done
          (record {
            entrypoint = 0;
            events = some (
                shown
                ++ launch_menu ∷ proc_ui_init ∷ sleep ∷ draw_done_release ∷ sleep ∷ proc_ui_shutdown
                  ∷ []);
          })
          s')
    × (read32 s'.mem 0x0101c56c ≡ 0x4e800421)
    × (get_elem? shown 8 ≡ some (screen (put_font screen_tv 0 0 message)))
    × (get_elem? shown 9 ≡ some (screen (put_font screen_drc 0 0 message)))
    × (get_elem? shown 12 ≡ some (screen (sleep_ticks 3000)))
do_start-falls_back_example =
    do_start-falls_back sys 0x00812345 2 10 (some (codes "men.rpx")) message empty
      (write_title_id sys.title_id empty)
      (load_failed sys module_end (maximum_size 0x00812345) (application_memory_end 0x00812345)
        trampolin_list_length (write_title_id sys.title_id empty) (no_file refl))
      refl (inl (omega arith)) (λ i small. refl) running refl (omega arith)
