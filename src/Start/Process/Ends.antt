-- ===== src/Start/Process/Ends.antt =====
-- The process when it has left the loader (src/main.cpp, `_start`).
use Prim.Native.String.{String}
use custom_rpxloader.Base.{
  subst, ℕ, ◌≡◌, ◌≢◌, refl, sym, ap, ◌∙◌, Bool, true, false, Option, none, some, [], ◌∷◌, ◌==◌,
  if◌then◌else◌, inl, inr, ◌⊎◌, Bool-cases, Option-cases, arith,
}
use custom_rpxloader.Machine.{Machine}
use custom_rpxloader.Outcome.{Outcome, done, failed, fatal}
use custom_rpxloader.Reader.{Text}
use custom_rpxloader.Kernel.{Words, Assembly, do_kernel_setup, do_kernel_setup2}
use custom_rpxloader.Dynamic.{
  Pointers, Bound, bound, no_function, null_call, init_function_pointers,
}
use custom_rpxloader.Crt.{socket}
use custom_rpxloader.Crt.Nested.{left_open, fini_wut-left_open}
use custom_rpxloader.Logger.{logging_start}
use custom_rpxloader.Logger.Balanced.{runs, IsClosed, runs-IsClosed}
use custom_rpxloader.Start.{System, Started, Exit, jump, return_error, waiting, do_start, start}
use custom_rpxloader.Start.Process.{
  Place, in_import, at_null, in_fatal, in_wait, gone_to, returned, Runtime, Process, after_start,
  run_process,
}

abbrev pub is_gone : Place → Bool
is_gone (in_import name) = false
is_gone (at_null name) = false
is_gone in_fatal = false
is_gone in_wait = false
is_gone (gone_to entrypoint) = true
is_gone returned = true

-- The ways of the debug output are closed, the C library has ended but for the sockets, and a jump
-- does not go to 0.
pub record IsGone (rt : Runtime) (p : Process) : Type 0 where
  pub ways_closed : IsClosed p.logging
  pub parts : left_open p.wut_calls [] ≡ (if rt.has_socket then socket ∷ [] else [])
  pub entry : (entrypoint : ℕ) → p.place ≡ gone_to entrypoint → entrypoint ≢ 0

-- What `_start` makes of the end of `do_start`.
abbrev exits : Outcome Started → Outcome Exit
exits o = elim o [
  | fatal s ↦ fatal s
  | failed s ↦ failed s
  | done r s ↦ elim r.events [
    | none ↦ done waiting s
    | some events ↦ done (if r.entrypoint == 0 then return_error else jump r.entrypoint) s
  ]
]

exits-entry :
    (o : Outcome Started) (entrypoint : ℕ) (rt : Runtime) (words : Words)
    → (after_start rt words (exits o)).place ≡ gone_to entrypoint
    → entrypoint ≢ 0
exits-entry (fatal s) entrypoint rt words h = cc
exits-entry (failed s) entrypoint rt words h = cc
exits-entry (done r s) entrypoint rt words h = elim (Option-cases r.events) [
  | inl e ↦ cc (rw e at h)
  | inr (events, e) ↦ elim (Bool-cases (r.entrypoint == 0)) [
    | inl none_lem ↦ cc (rw (e, none_lem) at h)
    | inr some_lem ↦
        let same : r.entrypoint ≡ entrypoint = cc (rw (e, some_lem) at h) in
        ground (arith, some_lem, same)
  ]
]

start-exits :
    (asm : Assembly) (hook : ℕ → ℕ) (sys : System) (code_end fuel : ℕ) (argv0 : Option Text)
    (words : Words) (s : Machine)
    → (start asm hook sys code_end fuel argv0 words s).1
      ≡ exits (
          do_start sys code_end fuel argv0
            (do_kernel_setup2 asm hook (do_kernel_setup asm words, s)).1)
unfolding start
start-exits asm hook sys code_end fuel argv0 words s = refl

-- Behind `do_start`, the calls of the C library and the debug output are those of `leave_start`.
after_start-gone :
    (rt : Runtime) (words : Words) (o : Outcome Exit)
    → is_gone (after_start rt words o).place ≡ true
    → ((after_start rt words o).logging ≡ runs rt.debug (rt.whb ∷ []) logging_start)
      × (left_open (after_start rt words o).wut_calls []
          ≡ (if rt.has_socket then socket ∷ [] else []))
unfolding runs
after_start-gone rt words (done (jump entrypoint) s) h = (refl, fini_wut-left_open rt.has_socket)
after_start-gone rt words (done return_error s) h = (refl, fini_wut-left_open rt.has_socket)
after_start-gone rt words (done waiting s) h = cc
after_start-gone rt words (failed s) h = cc
after_start-gone rt words (fatal s) h = cc

Bound-cases :
    (b : Bound)
    → ((handle : ℕ) × (p : Pointers) × (b ≡ bound handle p))
      ⊎ ((name : String) × ((b ≡ no_function name) ⊎ (b ≡ null_call name)))
Bound-cases (bound handle p) = inl (handle, p, refl)
Bound-cases (no_function name) = inr (name, inl refl)
Bound-cases (null_call name) = inr (name, inr refl)

-- When the process has left the loader, by the jump to the module or by the return: each way of the
-- debug output has been closed as often as opened, of the C library nothing is still started but the
-- sockets, if they are linked in, and a jump went to no address 0.
pub run_process-IsGone :
    (rt : Runtime) (asm : Assembly) (hook : ℕ → ℕ) (sys : System) (code_end fuel : ℕ)
    (argv0 : Option Text) (words : Words) (s : Machine)
    → is_gone (run_process rt asm hook sys code_end fuel argv0 words s).place ≡ true
    → IsGone rt (run_process rt asm hook sys code_end fuel argv0 words s)
unfolding run_process
run_process-IsGone rt asm hook sys code_end fuel argv0 words s h =
    let (words', outcome) = start asm hook sys code_end fuel argv0 words s in
    elim (Bound-cases (init_function_pointers rt.exports rt.word rt.handle)) [
      | inr (name, inl e) ↦ cc (rw (run_process, e) at h)
      | inr (name, inr e) ↦ cc (rw (run_process, e) at h)
      | inl (handle, p, e) ↦
          let gone = after_start-gone rt words' outcome (rw (run_process, e) at h) in
          rw (run_process, e)
            (record {
              ways_closed = subst IsClosed (sym gone.0) (runs-IsClosed rt.debug (rt.whb ∷ []));
              parts = gone.1;
              entry = λ entrypoint q.
                  exits-entry
                    (do_start sys code_end fuel argv0
                      (do_kernel_setup2 asm hook (do_kernel_setup asm words, s)).1)
                    entrypoint rt words'
                    (ap (λ o. (after_start rt words' o).place)
                        (sym (start-exits asm hook sys code_end fuel argv0 words s))
                      ∙ q);
            })
    ]
