-- ===== src/OnLeavingScope/Tests.antt =====
-- A guard that is moved, and both objects destroyed (src/utils/OnLeavingScope.h).
use custom_rpxloader.Base.{ℕ, ◌≡◌, [], ◌∷◌, ◌==◌}
use custom_rpxloader.OnLeavingScope.{
  on_leaving_scope, move_from, leave_scope, Reached, no_guards, construct, move, destroy,
}
use custom_rpxloader.OnLeavingScope.Once.{leave_scope-once}

abbrev moved :
    Reached ℕ
      (7 ∷ [])
      ((move_from (on_leaving_scope 7)).0 ∷ (move_from (on_leaving_scope 7)).1 ∷ [])
      []
moved = move (7 ∷ []) [] (on_leaving_scope 7) [] [] (construct 7 [] [] [] no_guards)

ended : Reached ℕ (7 ∷ []) [] (7 ∷ [])
unfolding on_leaving_scope move_from leave_scope
ended = destroy (7 ∷ []) [] (move_from (on_leaving_scope 7)).1 [] (7 ∷ []) (
    destroy (7 ∷ []) [] (move_from (on_leaving_scope 7)).0 ((move_from (on_leaving_scope 7)).1 ∷ [])
      [] moved)

leave_scope-once_example : ◌≡◌ {A = ℕ} 1 1
leave_scope-once_example = leave_scope-once (7 ∷ []) [] (7 ∷ []) ended (λ f. f == 7)
