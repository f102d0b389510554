-- ===== src/Dynamic/Stored.antt =====
-- What the imports of one library leave in the variables (src/dynamic.c).
use Prim.Native.String.{String}
use text.Mathlib.Text.{◌==◌ as ◌===◌}
use text.Mathlib.TextEquality.{eq_iff}
use custom_rpxloader.Base.{
  ℕ, ◌≡◌, ◌≢◌, refl, sym, ap, ◌∙◌, Bool, true, false, ◌||◌, Option, none, some, List, [], ◌∷◌, ◌==◌,
  if◌then◌else◌, inl, inr, Bool-cases,
}
use custom_rpxloader.Dynamic.{
  Exports, is_below_zero, Pointers, no_pointers, store, Bound, bound, no_function, null_call,
  find_export, import_function, then_bound, import_functions, override_exit,
}

abbrev pub is_listed : String → List String → Bool
is_listed name [] = false
is_listed name (other ∷ names) = other === name || is_listed name names

pub then_bound-eq-bound :
    (r : Bound) (k : ℕ → Pointers → Bound) (h' : ℕ) (p' : Pointers)
    → then_bound r k ≡ bound h' p'
    → (h : ℕ) × (p : Pointers) × (r ≡ bound h p) × (k h p ≡ bound h' p')
then_bound-eq-bound (bound h p) k h' p' e = (h, p, refl, e)
then_bound-eq-bound (no_function name) k h' p' e = cc
then_bound-eq-bound (null_call name) k h' p' e = cc

abbrev pub pointers_of : Bound → Pointers
pointers_of (bound handle p) = p
pointers_of (no_function name) = no_pointers
pointers_of (null_call name) = no_pointers

abbrev handle_in : Bound → ℕ
handle_in (bound handle p) = handle
handle_in (no_function name) = 0
handle_in (null_call name) = 0

not_bound :
    (b : Bool) (name : String) (h : ℕ) (p : Pointers)
    → (if b then null_call name else no_function name) ≢ bound h p
not_bound true name h p e = cc
not_bound false name h p e = cc

pub store-other :
    (name x : String) (r : Option ℕ) (p : Pointers) → (name === x) ≡ false → store name r p x ≡ p x
store-other name x none p e = refl
store-other name x (some address) p e = rw e refl

module _ (os : Exports) where
  import_function-bound :
      (handle : ℕ) (name : String) (p : Pointers) (h' : ℕ) (p' : Pointers)
      → import_function os handle name p ≡ bound h' p'
      → (h' ≡ handle) × (p' ≡ store name (find_export os p handle false name).address p)
  unfolding import_function
  import_function-bound handle name p h' p' e =
      let r = find_export os p handle false name in
      elim (Bool-cases (is_below_zero os.is_signed r.code)) [
        | inl bad ↦ absurd (
            not_bound (store name r.address p "OSFatal" == 0) name h' p'
              (rw (import_function, bad) at e))
        | inr fine ↦
            let found = rw (import_function, fine) at e in
            (ap handle_in (sym found), ap pointers_of (sym found))
      ]

  -- A function that is not among the names keeps its variable.
  pub import_functions-kept :
      (handle : ℕ) (names : List String) (p : Pointers) (h' : ℕ) (p' : Pointers) (x : String)
      → import_functions os handle names p ≡ bound h' p'
      → is_listed x names ≡ false
      → p' x ≡ p x
  unfolding import_functions
  import_functions-kept handle [] p h' p' x e free = ap (λ (r : Bound). pointers_of r x) (sym e)
  import_functions-kept handle (name ∷ names) p h' p' x e free =
      let (h1, p1, first, rest) =
        then_bound-eq-bound (import_function os handle name p)
          (λ h p1. import_functions os h names p1) h' p' e in
      let (same, stored) = import_function-bound handle name p h1 p1 first in
      elim (Bool-cases (name === x)) [
        | inl here ↦ cc (rw here at free)
        | inr there ↦
            import_functions-kept h1 names p1 h' p' x rest (rw there at free)
            ∙ ap (λ (q : Pointers). q x) stored
            ∙ store-other name x (find_export os p handle false name).address p there
      ]

  -- The functions of one library: one that the library exports at `address`.
  pub import_functions-bound :
      (handle : ℕ) (names : List String) (p : Pointers) (h' : ℕ) (p' : Pointers) (x : String)
      (address : ℕ)
      → import_functions os handle names p ≡ bound h' p'
      → ((at : ℕ) → (os.find_export at handle false x).address ≡ some address)
      → is_listed x names ≡ true
      → p' x ≡ address
  unfolding import_functions
  import_functions-bound handle [] p h' p' x address e exported listed = cc
  import_functions-bound handle (name ∷ names) p h' p' x address e exported listed =
      let (h1, p1, first, rest) =
        then_bound-eq-bound (import_function os handle name p)
          (λ h p1. import_functions os h names p1) h' p' e in
      let (same, stored) = import_function-bound handle name p h1 p1 first in
      elim (Bool-cases (is_listed x names)) [
        | inl later ↦
            import_functions-bound h1 names p1 h' p' x address rest
              (λ at. ap (λ (k : ℕ). (os.find_export at k false x).address) same ∙ exported at) later
        | inr last ↦ elim (Bool-cases (name === x)) [
          | inr there ↦ cc (rw (there, last) at listed)
          | inl here ↦
              let it : name ≡ x = (eq_iff name x).0 here in
              let found : (find_export os p handle false name).address ≡ some address =
                ap (λ (n : String). (find_export os p handle false n).address) it
                ∙ exported (p "OSDynLoad_FindExport") in
              import_functions-kept h1 names p1 h' p' x rest last
              ∙ ap (λ (q : Pointers). q x) stored
              ∙ ap (λ (r : Option ℕ). store name r p x) found
              ∙ rw here refl
        ]
      ]

  pub override_exit-other :
      (handle h' : ℕ) (p p' : Pointers) (x : String)
      → override_exit os handle p ≡ bound h' p'
      → x ≢ "__rplwrap_exit"
      → p' x ≡ p x
  unfolding override_exit
  override_exit-other handle h' p p' x e other =
      let handle' = os.is_module_loaded (p "OSDynLoad_IsModuleLoaded") "coreinit.rpl" handle in
      ap (λ (r : Bound). pointers_of r x) (sym e) ∙ elim (Bool-cases ("__rplwrap_exit" === x)) [
        | inl here ↦ absurd (other (sym ((eq_iff "__rplwrap_exit" x).0 here)))
        | inr there ↦
            store-other "__rplwrap_exit" x (find_export os p handle' false "exit").address p there
      ]
