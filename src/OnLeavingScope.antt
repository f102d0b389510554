-- ===== src/OnLeavingScope.antt =====
-- The scope guard (src/utils/OnLeavingScope.h): an object that runs a function when it is
-- destroyed, unless another object has been made from it. A function is a value of any type; the
-- copies are deleted in the source and so are no steps here.
pub mod Once
mod Tests
use custom_rpxloader.Base.{Bool, true, false, List, [], ◌∷◌, ◌++◌, if◌then◌else◌}

-- OnLeavingScope<Func>
pub record OnLeavingScope (Func : Type 0) : Type 0 where
  pub m_func : Func
  pub m_owner : Bool

module _ {Func : Type 0} where
  -- The constructors from a function.
  abbrev pub owner_of : Func → OnLeavingScope Func
  owner_of f = record { m_func = f; m_owner = true }

  -- The factory `onLeavingScope`.
  unfoldable pub on_leaving_scope : Func → OnLeavingScope Func
  on_leaving_scope f = owner_of f

  -- The constructor from `other`: the new object, and `other` afterwards.
  unfoldable pub move_from : OnLeavingScope Func → OnLeavingScope Func × OnLeavingScope Func
  move_from other =
      (record { m_func = other.m_func; m_owner = other.m_owner }, record other { m_owner = false })

  -- The destructor: the functions that it runs.
  unfoldable pub leave_scope : OnLeavingScope Func → List Func
  leave_scope guard = if guard.m_owner then guard.m_func ∷ [] else []

-- What a program can do with guards: the functions that they were made for, the guards that are
-- alive, and the functions that have run, the last one first. Objects end in any order.
pub data Reached (Func : Type 0) : List Func → List (OnLeavingScope Func) → List Func → Type 0 where
  no_guards : Reached Func [] [] []
  construct :
      (f : Func) (made : List Func) (guards : List (OnLeavingScope Func)) (run : List Func)
      → Reached Func made guards run
      → Reached Func (f ∷ made) (on_leaving_scope f ∷ guards) run
  move :
      (made : List Func) (before : List (OnLeavingScope Func)) (other : OnLeavingScope Func)
      (after : List (OnLeavingScope Func)) (run : List Func)
      → Reached Func made (before ++ other ∷ after) run
      → Reached Func made ((move_from other).0 ∷ (before ++ (move_from other).1 ∷ after)) run
  destroy :
      (made : List Func) (before : List (OnLeavingScope Func)) (guard : OnLeavingScope Func)
      (after : List (OnLeavingScope Func)) (run : List Func)
      → Reached Func made (before ++ guard ∷ after) run
      → Reached Func made (before ++ after) (leave_scope guard ++ run)
