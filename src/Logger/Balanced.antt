-- ===== src/Logger/Balanced.antt =====
-- What `initLogging` opens, `deinitLogging` closes (src/utils/logger.c).
use custom_rpxloader.Base.{
  ℕ, ◌+◌, ◌≡◌, refl, Bool, true, false, ◌&&◌, List, [], ◌∷◌, nonzero, if◌then◌else◌, arith, inl,
  inr, Bool-cases,
}
use custom_rpxloader.Logger.{
  Way, module_log, cafe_log, udp_log, LogCall, log_init, log_deinit, Logging, logging_start,
  init_logging, deinit_logging,
}

abbrev pub same_way : Way → Way → Bool
same_way module_log module_log = true
same_way cafe_log cafe_log = true
same_way udp_log udp_log = true
same_way _ _ = false

-- How often a way has been opened, and closed.
abbrev pub times_opened : Way → List LogCall → ℕ
times_opened way [] = 0
times_opened way (log_init other result ∷ calls) =
    (if same_way way other && nonzero result then 1 else 0) + times_opened way calls
times_opened way (log_deinit other ∷ calls) = times_opened way calls

abbrev pub times_closed : Way → List LogCall → ℕ
times_closed way [] = 0
times_closed way (log_init other result ∷ calls) = times_closed way calls
times_closed way (log_deinit other ∷ calls) =
    (if same_way way other then 1 else 0) + times_closed way calls

-- The runs of the loader one after the other: `initLogging` at the start, `deinitLogging` at the
-- end, with what the library answers in each.
unfoldable pub runs : Bool → List (Way → ℕ) → Logging → Logging
runs debug [] s = s
runs debug (whb ∷ rest) s = runs debug rest (deinit_logging debug (init_logging debug whb s))

pub record IsClosed (s : Logging) : Type 0 where
  pub module_flag : s.module_log_init ≡ 0
  pub cafe_flag : s.cafe_log_init ≡ 0
  pub udp_flag : s.udp_log_init ≡ 0
  pub balance : (way : Way) → times_opened way s.calls ≡ times_closed way s.calls

run-IsClosed :
    (debug : Bool) (whb : Way → ℕ) (s : Logging)
    → IsClosed s
    → IsClosed (deinit_logging debug (init_logging debug whb s))
unfolding init_logging deinit_logging
run-IsClosed false whb s h = h
run-IsClosed true whb s h = elim (Bool-cases (nonzero (whb module_log))) [
  | inl e ↦ record {
    module_flag = refl;
    cafe_flag = refl;
    udp_flag = refl;
    balance = λ way. rw (e, h.cafe_flag, h.udp_flag, e) (ground (arith, e, h.balance way));
  }
  | inr e ↦ record {
    module_flag = refl;
    cafe_flag = refl;
    udp_flag = refl;
    balance = λ way. rw e (ground (arith, e, h.balance way));
  }
]

runs-IsClosed_from :
    (debug : Bool) (answers : List (Way → ℕ)) (s : Logging)
    → IsClosed s
    → IsClosed (runs debug answers s)
unfolding runs
runs-IsClosed_from debug [] s h = h
runs-IsClosed_from debug (whb ∷ rest) s h =
    runs-IsClosed_from debug rest (deinit_logging debug (init_logging debug whb s))
      (run-IsClosed debug whb s h)

-- Behind any number of runs of `initLogging` and `deinitLogging`, whatever the library answers, each
-- way has been closed as often as it has been opened, and the three flags are 0.
pub runs-IsClosed :
    (debug : Bool) (answers : List (Way → ℕ)) → IsClosed (runs debug answers logging_start)
runs-IsClosed debug answers =
    runs-IsClosed_from debug answers logging_start
      (record { module_flag = refl; cafe_flag = refl; udp_flag = refl; balance = λ way. refl })
