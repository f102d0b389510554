-- ===== src/Outcome.antt =====
-- Commands of the loader: they run on the machine and end normally, by an early error return
-- (`return false`, `return {}`), or in `OSFatal`, which does not return.
use custom_rpxloader.Base.{◌≡◌, refl}
use custom_rpxloader.Machine.{Machine}

pub data Outcome (A : Type 0) : Type 0 where
  done : A → Machine → Outcome A
  failed : Machine → Outcome A
  fatal : Machine → Outcome A

abbrev pub Cmd : Type 0 → Type 0
Cmd A = Machine → Outcome A

abbrev pub pure : {A : Type 0} → A → Cmd A
pure = done

-- The machine at the end, however the command ended.
abbrev pub machine : {A : Type 0} → Outcome A → Machine
machine (done a s) = s
machine (failed s) = s
machine (fatal s) = s

abbrev pub and_then : {A B : Type 0} → Outcome A → (A → Cmd B) → Outcome B
and_then (done a s) k = k a s
and_then (failed s) k = failed s
and_then (fatal s) k = fatal s

infixl 5 ◌>>=◌ ◌>>◌
abbrev pub ◌>>=◌ : {A B : Type 0} → Cmd A → (A → Cmd B) → Cmd B
m >>= k = λ s. and_then (m s) k

abbrev pub ◌>>◌ : {A B : Type 0} → Cmd A → Cmd B → Cmd B
m >> k = m >>= λ _. k

-- A property of the machine that a command and what follows it keep.
pub and_then_ind :
    {A B : Type 0} (P : Machine → Type 0) (r : Outcome A) (k : A → Cmd B)
    → P (machine r)
    → ((a : A) (s : Machine) → r ≡ done a s → P s → P (machine (k a s)))
    → P (machine (and_then r k))
and_then_ind P (done a s) k p next = next a s refl p
and_then_ind P (failed s) k p next = p
and_then_ind P (fatal s) k p next = p

-- A command that ends normally did so through each of its steps.
pub and_then-eq-done :
    {A B : Type 0} (r : Outcome A) (k : A → Cmd B) {b : B} {s' : Machine}
    → and_then r k ≡ done b s'
    → (a : A) × (s : Machine) × (r ≡ done a s) × (k a s ≡ done b s')
and_then-eq-done (done a s) k h = (a, s, refl, h)
and_then-eq-done (failed s) k h = cc
and_then-eq-done (fatal s) k h = cc
