-- ===== src/OnLeavingScope/Once.antt =====
-- A guard's function runs once (src/utils/OnLeavingScope.h).
use custom_rpxloader.Base.{
  ℕ, ◌+◌, ◌≡◌, refl, Bool, List, [], ◌∷◌, ◌++◌, if◌then◌else◌, arith, inl, inr, Bool-cases,
}
use custom_rpxloader.OnLeavingScope.{
  OnLeavingScope, on_leaving_scope, move_from, leave_scope, Reached, no_guards, construct, move,
  destroy,
}

module _ {Func : Type 0} where
  -- The number of functions that a test accepts.
  abbrev pub count : (Func → Bool) → List Func → ℕ
  count test [] = 0
  count test (f ∷ fs) = (if test f then 1 else 0) + count test fs

  -- The functions of the guards that will run theirs.
  abbrev pub pending : List (OnLeavingScope Func) → List Func
  pending [] = []
  pending (guard ∷ guards) = if guard.m_owner then guard.m_func ∷ pending guards else pending guards

  count-append :
      (test : Func → Bool) (fs gs : List Func)
      → count test (fs ++ gs) ≡ count test fs + count test gs
  count-append test [] gs = omega arith
  count-append test (f ∷ fs) gs = omega (arith, count-append test fs gs)

  pending-guard :
      (test : Func → Bool) (guard : OnLeavingScope Func) (guards : List (OnLeavingScope Func))
      → count test (pending (guard ∷ guards))
        ≡ count test (pending (guard ∷ [])) + count test (pending guards)
  pending-guard test guard guards = elim (Bool-cases guard.m_owner) [
    | inl e ↦ rw e (omega arith)
    | inr e ↦ rw e (omega arith)
  ]

  pending-append :
      (test : Func → Bool) (before after : List (OnLeavingScope Func))
      → count test (pending (before ++ after))
        ≡ count test (pending before) + count test (pending after)
  pending-append test [] after = omega arith
  pending-append test (guard ∷ before) after = omega (
    arith,
    pending-guard test guard (before ++ after),
    pending-guard test guard before,
    pending-append test before after,
  )

  moved :
      (test : Func → Bool) (other : OnLeavingScope Func)
      → count test (pending ((move_from other).0 ∷ []))
          + count test (pending ((move_from other).1 ∷ []))
        ≡ count test (pending (other ∷ []))
  unfolding move_from
  moved test other = omega arith

  left :
      (test : Func → Bool) (guard : OnLeavingScope Func)
      → count test (leave_scope guard) ≡ count test (pending (guard ∷ []))
  unfolding leave_scope
  left test guard = elim (Bool-cases guard.m_owner) [ inl e ↦ rw e refl | inr e ↦ rw e refl ]

  -- Whatever is done with guards, the functions that they were made for are those that have run and
  -- those of the guards that will still run theirs, each as often as it was given.
  pub leave_scope-once :
      (made : List Func) (guards : List (OnLeavingScope Func)) (run : List Func)
      → Reached Func made guards run
      → (test : Func → Bool) → count test made ≡ count test (pending guards) + count test run
  unfolding on_leaving_scope
  leave_scope-once _ _ _ no_guards test = refl
  leave_scope-once _ _ _ (construct f made guards run r) test = omega (
    arith,
    leave_scope-once made guards run r test,
    pending-guard test (on_leaving_scope f) guards,
  )
  leave_scope-once _ _ _ (move made before other after run r) test =
      let (fresh, old) = move_from other in
      omega (
        arith,
        leave_scope-once made (before ++ other ∷ after) run r test,
        pending-guard test fresh (before ++ old ∷ after),
        pending-append test before (old ∷ after),
        pending-append test before (other ∷ after),
        pending-guard test old after,
        pending-guard test other after,
        moved test other,
      )
  leave_scope-once _ _ _ (destroy made before guard after run r) test = omega (
    arith,
    leave_scope-once made (before ++ guard ∷ after) run r test,
    pending-append test before (guard ∷ after),
    pending-append test before after,
    pending-guard test guard after,
    count-append test (leave_scope guard) run,
    left test guard,
  )
