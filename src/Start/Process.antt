-- ===== src/Start/Process.antt =====
-- `_start` (src/main.cpp) with the calls around `do_start`: the imports of the loader itself, the C
-- library and the debug output.
pub mod Ends
mod Tests
use Prim.Native.String.{String}
use custom_rpxloader.Base.{ℕ, Bool, true, false, Option, none, some, List, [], ◌∷◌, ◌++◌}
use custom_rpxloader.Machine.{Machine}
use custom_rpxloader.Outcome.{Outcome, done, failed, fatal}
use custom_rpxloader.Reader.{Text}
use custom_rpxloader.Kernel.{Words, Assembly, do_kernel_setup}
use custom_rpxloader.Dynamic.{Exports, Bound, bound, no_function, null_call, init_function_pointers}
use custom_rpxloader.Crt.{WutCall, init_wut, fini_wut}
use custom_rpxloader.Logger.{Way, Logging, logging_start, init_logging, deinit_logging}
use custom_rpxloader.Start.{System, Exit, jump, return_error, waiting, start}

-- Where the process is in the end: in `OSFatal` for an import, at the address 0, in `OSFatal` of
-- `do_start`, in the wait of `do_start`, or gone from the loader by a jump or a return.
pub data Place : Type 0 where
  in_import : String → Place
  at_null : String → Place
  in_fatal : Place
  in_wait : Place
  gone_to : ℕ → Place
  returned : Place

-- What the build and the system give, besides the parameters of `start`.
pub record Runtime : Type 0 where
  pub exports : Exports
  pub word : ℕ → ℕ
  pub handle : ℕ
  pub has_socket : Bool
  pub debug : Bool
  pub whb : Way → ℕ

pub record Process : Type 0 where
  pub words : Words
  pub machine : Machine
  pub wut_calls : List WutCall
  pub logging : Logging
  pub place : Place

-- The part of `_start` behind `do_start`.
abbrev pub leave_start : Runtime → Words → Machine → Place → Process
leave_start rt words s place = record {
  words = words;
  machine = s;
  wut_calls = init_wut rt.has_socket ++ fini_wut;
  logging = deinit_logging rt.debug (init_logging rt.debug rt.whb logging_start);
  place = place;
}

-- The process while it is in `do_start`.
abbrev pub inside : Runtime → Words → Machine → Place → Process
inside rt words s place = record {
  words = words;
  machine = s;
  wut_calls = init_wut rt.has_socket;
  logging = init_logging rt.debug rt.whb logging_start;
  place = place;
}

abbrev pub after_start : Runtime → Words → Outcome Exit → Process
after_start rt words (done (jump entrypoint) s) = leave_start rt words s (gone_to entrypoint)
after_start rt words (done return_error s) = leave_start rt words s returned
after_start rt words (done waiting s) = inside rt words s in_wait
after_start rt words (failed s) = inside rt words s in_fatal
after_start rt words (fatal s) = inside rt words s in_fatal

-- The process in an import that is missing: only the first kernel setup has been made.
abbrev pub unbound : Assembly → Words → Machine → Place → Process
unbound asm words s place = record {
  words = do_kernel_setup asm words;
  machine = s;
  wut_calls = [];
  logging = logging_start;
  place = place;
}

-- `_start`
unfoldable pub run_process :
    Runtime
    → Assembly
    → (hook : ℕ → ℕ) → System
    → (code_end fuel : ℕ) → Option Text
    → Words
    → Machine
    → Process
run_process rt asm hook sys code_end fuel argv0 words s =
    let (words', outcome) = start asm hook sys code_end fuel argv0 words s in
    elim (init_function_pointers rt.exports rt.word rt.handle) [
      | no_function name ↦ unbound asm words s (in_import name)
      | null_call name ↦ unbound asm words s (at_null name)
      | bound handle p ↦ after_start rt words' outcome
    ]
