-- ===== src/Logger.antt =====
-- The debug output (src/utils/logger.h, src/utils/logger.c). The functions of the library whb are
-- parameters. `debug` and `verbose` say how the loader has been built.
pub mod Balanced
pub mod Filename
mod Tests
use custom_rpxloader.Base.{
  ℕ, zero, suc, Bool, true, false, not, ◌&&◌, Option, none, some, List, [], ◌∷◌, ◌++◌, ◌==◌,
  nonzero, if◌then◌else◌,
}
use custom_rpxloader.Reader.{Text}
use custom_rpxloader.ImportRplInformation.{codes}
use custom_rpxloader.StringTools.Compare.{strrchr, behind}

-- The three ways out of the console.
pub data Way : Type 0 where
  module_log : Way
  cafe_log : Way
  udp_log : Way

-- WHBLog…Init with its result, and WHBLog…Deinit
pub data LogCall : Type 0 where
  log_init : Way → ℕ → LogCall
  log_deinit : Way → LogCall

-- moduleLogInit, cafeLogInit, udpLogInit, and the calls, the last one first
pub record Logging : Type 0 where
  pub module_log_init : ℕ
  pub cafe_log_init : ℕ
  pub udp_log_init : ℕ
  pub calls : List LogCall

abbrev pub logging_start : Logging
logging_start = record { module_log_init = 0; cafe_log_init = 0; udp_log_init = 0; calls = [] }

-- `initLogging`; `whb` is the result of a WHBLog…Init.
unfoldable pub init_logging : Bool → (whb : Way → ℕ) → Logging → Logging
init_logging false whb s = s
init_logging true whb s =
    let module_result = whb module_log in
    if nonzero module_result
    then record s {
      module_log_init = module_result;
      calls = log_init module_log module_result ∷ s.calls;
    }
    else record {
      module_log_init = module_result;
      cafe_log_init = whb cafe_log;
      udp_log_init = whb udp_log;
      calls =
          log_init udp_log (whb udp_log)
          ∷ log_init cafe_log (whb cafe_log)
          ∷ log_init module_log module_result
          ∷ s.calls;
    }

-- One of the three conditions of `deinitLogging`.
abbrev pub deinit_way : Way → ℕ → List LogCall → List LogCall
deinit_way way flag calls = if nonzero flag then log_deinit way ∷ calls else calls

-- `deinitLogging`
unfoldable pub deinit_logging : Bool → Logging → Logging
deinit_logging false s = s
deinit_logging true s = record {
  module_log_init = 0;
  cafe_log_init = 0;
  udp_log_init = 0;
  calls =
      deinit_way udp_log s.udp_log_init
        (deinit_way cafe_log s.cafe_log_init (deinit_way module_log s.module_log_init s.calls));
}

-- __FILENAME_X__ and __FILENAME__, of the path that stands for __FILE__
unfoldable pub filename_x : Text → Text
filename_x file = elim (strrchr file b'\\') [ none ↦ file | some found ↦ behind found ]

unfoldable pub filename : Text → Text
filename file = elim (strrchr file b'/') [ none ↦ filename_x file | some found ↦ behind found ]

-- The macros DEBUG_FUNCTION_LINE…, and where they write.
pub data Level : Type 0 where
  line : Level
  line_write : Level
  line_verbose : Level
  line_err : Level
  line_warn : Level
  line_info : Level

pub data Sink : Type 0 where
  whb_log_printf : Sink
  whb_log_writef : Sink
  os_report : Sink

-- Where a macro writes, its LOG_LEVEL and its LINE_END; `none` where it is `while (0)`.
unfoldable pub log_target : (debug verbose : Bool) → Level → Option (Sink × Text × Text)
log_target true verbose line = some (whb_log_printf, [], [])
log_target true verbose line_write = some (whb_log_writef, [], [])
log_target true true line_verbose = some (whb_log_printf, [], [])
log_target true false line_verbose = none
log_target true verbose line_err = some (whb_log_printf, codes "##ERROR## ", [])
log_target true verbose line_warn = some (whb_log_printf, codes "##WARN ## ", [])
log_target true verbose line_info = some (whb_log_printf, codes "##INFO ## ", [])
log_target false verbose line = none
log_target false verbose line_write = none
log_target false verbose line_verbose = none
log_target false verbose line_err = some (os_report, codes "##ERROR## ", b'\n' ∷ [])
log_target false verbose line_warn = some (os_report, codes "##WARN ## ", b'\n' ∷ [])
log_target false verbose line_info = some (os_report, codes "##INFO ## ", b'\n' ∷ [])

-- LOG_EX: the format string, in front of whose arguments the type, the name, the file's name, the
-- function and the line stand.
abbrev pub log_format : (log_level line_end format : Text) → Text
log_format log_level line_end format =
    codes "[(%s)%18s][%23s]%30s@L%04d: " ++ log_level ++ format ++ line_end

-- What a macro writes: the sink, the format and the file's name.
unfoldable pub log_line :
    (debug verbose : Bool) → Level → (file format : Text) → Option (Sink × Text × Text)
log_line debug verbose level file format = elim (log_target debug verbose level) [
  | none ↦ none
  | some (sink, log_level, line_end) ↦
      some (sink, log_format log_level line_end format, filename file)
]
