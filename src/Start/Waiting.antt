-- ===== src/Start/Waiting.antt =====
-- The end of the wait, and the cleared data of a module that starts (src/main.cpp).
use custom_rpxloader.Base.{
  ℕ, zero, suc, ◌+◌, ◌<◌, ◌≡◌, ◌≢◌, refl, ap, ◌∙◌, subst, Bool-cases, inl, inr, some, List, [], ◌∷◌,
  ◌++◌, arith, if◌then◌else◌,
}
use custom_rpxloader.Machine.{Machine, blit}
use custom_rpxloader.Outcome.{done}
use custom_rpxloader.Trampolin.{trampolin_list_length}
use custom_rpxloader.ModuleData.{ModuleData}
use custom_rpxloader.DoRelocation.{do_relocation}
use custom_rpxloader.Start.{
  Status, exiting, release_foreground, in_foreground, in_background, Event, draw_done_release,
  launch_menu, launch_menu_checking, proc_ui_init, proc_ui_shutdown, sleep, System, check_running,
  wait, leave, clear_bss, start_module,
}

-- What is done in `n` rounds from round `i` on, in none of which the process ends.
abbrev pub rounds : (ℕ → Status) → (n i : ℕ) → List Event
rounds messages zero i = []
rounds messages (suc n) i =
    let later = sleep ∷ rounds messages n (i + 1) in
    elim (messages i) [ release_foreground ↦ draw_done_release ∷ later | _ ↦ later ]

wait-rounds :
    (messages : ℕ → Status) (n fuel i : ℕ)
    → ((j : ℕ) → j < n → messages (i + j) ≢ exiting)
    → messages (i + n) ≡ exiting
    → n < fuel
    → wait messages fuel i ≡ some (rounds messages n i)
unfolding wait check_running
wait-rounds messages n zero i running ends enough = absurd (omega arith)
wait-rounds messages zero (suc fuel) i running ends enough =
    let here : messages i ≡ exiting = ap messages (omega arith) ∙ ends in rw here refl
wait-rounds messages (suc n) (suc fuel) i running ends enough =
    let here : messages i ≢ exiting =
      subst (λ k. messages k ≢ exiting) (omega arith) (running 0 (omega arith)) in
    let rest =
      wait-rounds messages n fuel (i + 1)
        (λ j h. subst (λ k. messages k ≢ exiting) (omega arith) (running (suc j) (omega arith)))
        (ap messages (omega arith) ∙ ends) (omega arith) in
    rw rest (go (messages i) here)
  where
    go :
        (st : Status)
        → st ≢ exiting
        → (let (on, events) = check_running st in
            if on then some (events ++ sleep ∷ rounds messages n (i + 1)) else some events)
          ≡ some (elim st [
            | release_foreground ↦ draw_done_release ∷ sleep ∷ rounds messages n (i + 1)
            | _ ↦ sleep ∷ rounds messages n (i + 1)
          ])
    go exiting h = absurd (h refl)
    go release_foreground h = refl
    go in_foreground h = refl
    go in_background h = refl

-- If the process is told to end in round `n` and not before, and the fuel is more than `n`, then
-- the loader leaves after that round: the menu has been launched once, the foreground has been
-- released in each round that asked for it, and there has been a sleep after each round.
pub leave-rounds :
    (sys : System) (n fuel : ℕ)
    → ((j : ℕ) → j < n → sys.messages j ≢ exiting)
    → sys.messages n ≡ exiting
    → n < fuel
    → leave sys fuel
      ≡ some (
          (if sys.default_slot then launch_menu else launch_menu_checking sys.slot)
          ∷ proc_ui_init
          ∷ (rounds sys.messages n 0 ++ proc_ui_shutdown ∷ []))
unfolding leave
leave-rounds sys n fuel running ends enough =
    let ended =
      wait-rounds sys.messages n fuel 0
        (λ j h. subst (λ k. sys.messages k ≢ exiting) (omega arith) (running j h))
        (ap sys.messages (omega arith) ∙ ends) enough in
    rw (ended, leave) refl

clear_bss-bss :
    (m : ModuleData) (s : Machine) (i : ℕ)
    → m.bss_addr ≢ 0
    → i < m.bss_size
    → (clear_bss m s).mem (m.bss_addr + i) ≡ 0
unfolding clear_bss blit
clear_bss-bss m s i h lt = ground arith

clear_bss-sbss :
    (m : ModuleData) (s : Machine) (i : ℕ)
    → m.sbss_addr ≢ 0
    → i < m.sbss_size
    → (clear_bss m s).mem (m.sbss_addr + i) ≡ 0
unfolding clear_bss blit
clear_bss-sbss m s i h lt = ground arith

-- A module that starts does so at its entry point, with a .bss and a .sbss, if it has them, that
-- hold zeros: no relocation is left in them.
pub start_module-cleared :
    (sys : System) (table entry : ℕ) (m : ModuleData) (s s' : Machine)
    → start_module sys table m s ≡ done entry s'
    → (entry ≡ m.entrypoint)
      × ((i : ℕ) → m.bss_addr ≢ 0 → i < m.bss_size → s'.mem (m.bss_addr + i) ≡ 0)
      × ((i : ℕ) → m.sbss_addr ≢ 0 → i < m.sbss_size → s'.mem (m.sbss_addr + i) ≡ 0)
unfolding start_module
start_module-cleared sys table entry m s s' h =
    let r = do_relocation sys.dyn_load m.relocation_data_list table trampolin_list_length s in
    elim (Bool-cases r.0) [
      | inl e ↦
          let t = clear_bss m r.1.machine in
          let same : s'.mem ≡ t.mem = ground (arith, rw e at h) in
          (
            ground (arith, rw e at h),
            λ i some_addr lt.
                ap (λ (mem : ℕ → ℕ). mem (m.bss_addr + i)) same
                ∙ clear_bss-bss m r.1.machine i some_addr lt,
            λ i some_addr lt.
                ap (λ (mem : ℕ → ℕ). mem (m.sbss_addr + i)) same
                ∙ clear_bss-sbss m r.1.machine i some_addr lt,
          )
      | inr e ↦ cc (rw e at h)
    ]
