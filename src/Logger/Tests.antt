-- ===== src/Logger/Tests.antt =====
-- Two runs with a network and one without the module (src/utils/logger.c, src/utils/logger.h).
use custom_rpxloader.Base.{ℕ, ◌≡◌, refl, true, false, none, some, [], ◌∷◌}
use custom_rpxloader.ImportRplInformation.{codes}
use custom_rpxloader.Logger.{
  Way, module_log, cafe_log, udp_log, log_init, log_deinit, logging_start, init_logging,
  deinit_logging, filename_x, filename, line_err, line_verbose, os_report, log_target, log_line,
  log_format,
}
use custom_rpxloader.Logger.Balanced.{runs}
use custom_rpxloader.StringTools.Compare.{strrchr}

abbrev with_module : Way → ℕ
with_module module_log = 1
with_module cafe_log = 0
with_module udp_log = 0

abbrev without_module : Way → ℕ
without_module module_log = 0
without_module cafe_log = 1
without_module udp_log = 0

runs_test :
    (runs true (with_module ∷ without_module ∷ []) logging_start).calls
    ≡ log_deinit cafe_log
      ∷ log_init udp_log 0
      ∷ log_init cafe_log 1
      ∷ log_init module_log 0
      ∷ log_deinit module_log
      ∷ log_init module_log 1
      ∷ []
unfolding runs init_logging deinit_logging
runs_test = refl

log_line_test :
    log_line false false line_err (codes "src/main.cpp") (codes "x")
    ≡ some (os_report, log_format (codes "##ERROR## ") (b'\n' ∷ []) (codes "x"), codes "main.cpp")
unfolding log_line log_target filename filename_x strrchr
log_line_test = refl

log_line_test_verbose : log_line true false line_verbose (codes "a\\b.c") (codes "x") ≡ none
unfolding log_line log_target
log_line_test_verbose = refl
