-- ===== src/Dynamic/Resolved.antt =====
-- After `InitFunctionPointers` each variable holds its function's address (src/dynamic.c).
use Prim.Native.String.{String}
use text.Mathlib.Text.{◌==◌ as ◌===◌}
use text.Mathlib.TextEquality.{eq_iff}
use custom_rpxloader.Base.{
  ℕ, zero, suc, ◌≡◌, ◌≢◌, refl, sym, ap, ◌∙◌, Bool, true, false, not, ◌&&◌, ◌||◌, some, List, [],
  ◌∷◌, inl, inr, Bool-cases, get_elem?,
}
use custom_rpxloader.Dynamic.Imports.{Library, libraries}
use custom_rpxloader.Dynamic.{
  Exports, Pointers, Bound, bound, import_functions, import_libraries, override_exit,
  first_pointers, first_handle, init_function_pointers,
}
use custom_rpxloader.Dynamic.Stored.{
  is_listed, then_bound-eq-bound, pointers_of, import_functions-kept, import_functions-bound,
  override_exit-other,
}

abbrev pub is_imported : String → List Library → Bool
is_imported name [] = false
is_imported name (lib ∷ libs) = is_listed name lib.functions || is_imported name libs

abbrev none_imported : List String → List Library → Bool
none_imported [] libs = true
none_imported (name ∷ names) libs = not (is_imported name libs) && none_imported names libs

-- No library imports a function of one behind it.
abbrev all_apart : List Library → Bool
all_apart [] = true
all_apart (lib ∷ libs) = none_imported lib.functions libs && all_apart libs

apart_lem : all_apart libraries ≡ true
apart_lem = refl

and_left : (a b : Bool) → (a && b) ≡ true → a ≡ true
and_left true b h = refl
and_left false b h = cc

and_right : (a b : Bool) → (a && b) ≡ true → b ≡ true
and_right true b h = h
and_right false b h = cc

not-true : (b : Bool) → not b ≡ true → b ≡ false
not-true true h = cc
not-true false h = refl

or_true : (b : Bool) → (b || true) ≡ true
or_true true = refl
or_true false = refl

module _ (os : Exports) where
  import_libraries-kept :
      (handle : ℕ) (libs : List Library) (p : Pointers) (h' : ℕ) (p' : Pointers) (x : String)
      → import_libraries os handle libs p ≡ bound h' p'
      → is_imported x libs ≡ false
      → p' x ≡ p x
  unfolding import_libraries
  import_libraries-kept handle [] p h' p' x e free = ap (λ (r : Bound). pointers_of r x) (sym e)
  import_libraries-kept handle (lib ∷ libs) p h' p' x e free =
      let handle' = os.acquire (p "OSDynLoad_Acquire") lib.name handle in
      let (h1, p1, first, rest) =
        then_bound-eq-bound (import_functions os handle' lib.functions p)
          (λ h p1. import_libraries os h libs p1) h' p' e in
      elim (Bool-cases (is_listed x lib.functions)) [
        | inl listed ↦ cc (rw listed at free)
        | inr not_listed ↦
            import_libraries-kept h1 libs p1 h' p' x rest (rw not_listed at free)
            ∙ import_functions-kept os handle' lib.functions p h1 p1 x first not_listed
      ]

  none_imported-listed :
      (names : List String) (libs : List Library) (x : String)
      → none_imported names libs ≡ true
      → is_listed x names ≡ true
      → is_imported x libs ≡ false
  none_imported-listed [] libs x apart listed = cc
  none_imported-listed (name ∷ names) libs x apart listed = elim (Bool-cases (name === x)) [
    | inl here ↦
        ap (λ (n : String). is_imported n libs) (sym ((eq_iff name x).0 here))
        ∙ not-true (is_imported name libs)
            (and_left (not (is_imported name libs)) (none_imported names libs) apart)
    | inr there ↦
        none_imported-listed names libs x
          (and_right (not (is_imported name libs)) (none_imported names libs) apart)
          (rw there at listed)
  ]

  -- The libraries, if a library's handle depends on its name alone.
  module _ (handle_of : String → ℕ)
      (loads : (at : ℕ) (name : String) (handle : ℕ) → os.acquire at name handle ≡ handle_of name)
      (x : String) (address : ℕ) where
    import_libraries-bound :
        (handle : ℕ) (libs : List Library) (p : Pointers) (h' : ℕ) (p' : Pointers) (i : ℕ)
        (lib : Library)
        → all_apart libs ≡ true
        → import_libraries os handle libs p ≡ bound h' p'
        → get_elem? libs i ≡ some lib
        → is_listed x lib.functions ≡ true
        → ((at : ℕ) → (os.find_export at (handle_of lib.name) false x).address ≡ some address)
        → p' x ≡ address
    unfolding import_libraries
    import_libraries-bound handle [] p h' p' i lib apart e at listed exported = cc
    import_libraries-bound handle (first ∷ libs) p h' p' zero lib apart e at listed exported =
        let handle' = os.acquire (p "OSDynLoad_Acquire") first.name handle in
        let (h1, p1, run, rest) =
          then_bound-eq-bound (import_functions os handle' first.functions p)
            (λ h p1. import_libraries os h libs p1) h' p' e in
        let none_behind : none_imported first.functions libs ≡ true =
          and_left (none_imported first.functions libs) (all_apart libs) apart in
        let same : first ≡ lib = cc in
        let here : is_listed x first.functions ≡ true =
          ap (λ (l : Library). is_listed x l.functions) same ∙ listed in
        let the_handle : handle' ≡ handle_of lib.name =
          loads (p "OSDynLoad_Acquire") first.name handle
          ∙ ap (λ (l : Library). handle_of l.name) same in
        import_libraries-kept h1 libs p1 h' p' x rest
          (none_imported-listed first.functions libs x none_behind here)
        ∙ import_functions-bound os handle' first.functions p h1 p1 x address run
            (λ at. ap (λ (k : ℕ). (os.find_export at k false x).address) the_handle ∙ exported at)
            here
    import_libraries-bound handle (first ∷ libs) p h' p' (suc i) lib apart e at listed exported =
        let handle' = os.acquire (p "OSDynLoad_Acquire") first.name handle in
        let (h1, p1, run, rest) =
          then_bound-eq-bound (import_functions os handle' first.functions p)
            (λ h p1. import_libraries os h libs p1) h' p' e in
        import_libraries-bound h1 libs p1 h' p' i lib
          (and_right (none_imported first.functions libs) (all_apart libs) apart) rest at listed
          exported

    -- If OSDynLoad_Acquire gives a library's handle whatever the variable held before, if
    -- `InitFunctionPointers` ends, and if OSDynLoad_FindExport stores an address for a function
    -- that src/imports.h lists under a library, whatever address these calls go to, then the
    -- function's variable holds that address, but for `__rplwrap_exit`.
    pub init_function_pointers-bound :
        (word : ℕ → ℕ) (handle h' : ℕ) (p' : Pointers) (i : ℕ) (lib : Library)
        → init_function_pointers os word handle ≡ bound h' p'
        → get_elem? libraries i ≡ some lib
        → is_listed x lib.functions ≡ true
        → ((at : ℕ) → (os.find_export at (handle_of lib.name) false x).address ≡ some address)
        → x ≢ "__rplwrap_exit"
        → p' x ≡ address
    unfolding init_function_pointers
    init_function_pointers-bound word handle h' p' i lib e at listed exported other =
        let coreinit = first_handle os handle in
        let p0 = first_pointers os word coreinit in
        let (h1, p1, run, rest) =
          then_bound-eq-bound (import_libraries os coreinit libraries p0) (override_exit os) h' p'
            e in
        override_exit-other os h1 h' p1 p' x rest other
        ∙ import_libraries-bound coreinit libraries p0 h1 p1 i lib apart_lem run at listed exported
