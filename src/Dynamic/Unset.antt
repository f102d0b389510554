-- ===== src/Dynamic/Unset.antt =====
-- The imports when a result of the system's dynamic loader is never negative (src/dynamic.c).
use Prim.Native.String.{String}
use text.Mathlib.Text.{◌==◌ as ◌===◌}
use text.Mathlib.TextEquality.{eq_iff}
use custom_rpxloader.Base.{
  ℕ, ◌≡◌, ◌≢◌, refl, sym, ap, ◌∙◌, Bool, true, false, ◌||◌, none, List, [], ◌∷◌, inl, inr,
  Bool-cases,
}
use custom_rpxloader.Dynamic.Imports.{Library, libraries}
use custom_rpxloader.Dynamic.{
  Exports, Pointers, store, bound, find_export, import_function, import_functions, import_libraries,
  import_heap, override_exit, first_pointers, first_handle, init_function_pointers,
}
use custom_rpxloader.Dynamic.Stored.{is_listed, store-other}

-- The variables that are set without an import of src/imports.h.
abbrev pub preset : List String
preset =
    "OSDynLoad_Acquire" ∷ "OSDynLoad_FindExport" ∷ "OSDynLoad_IsModuleLoaded"
    ∷ "MEMAllocFromDefaultHeap" ∷ "MEMAllocFromDefaultHeapEx" ∷ "MEMFreeToDefaultHeap" ∷ []

or_left : (a b : Bool) → (a || b) ≡ false → a ≡ false
or_left true b h = cc
or_left false b h = refl

or_right : (a b : Bool) → (a || b) ≡ false → b ≡ false
or_right true b h = cc
or_right false b h = h

module _ (os : Exports) where
  -- No library exports the function.
  abbrev pub IsMissing : String → Type 0
  IsMissing x = (at handle : ℕ) → (os.find_export at handle false x).address ≡ none

  -- The variables of the functions that are missing are the same, but for `__rplwrap_exit`.
  abbrev IsKept : Pointers → Pointers → Type 0
  IsKept p p' = (x : String) → IsMissing x → x ≢ "__rplwrap_exit" → p' x ≡ p x

  IsKept-trans : (p p1 p2 : Pointers) → IsKept p p1 → IsKept p1 p2 → IsKept p p2
  IsKept-trans p p1 p2 h k x missing other = k x missing other ∙ h x missing other

  store-IsKept :
      (handle : ℕ) (name : String) (p : Pointers)
      → IsKept p (store name (find_export os p handle false name).address p)
  store-IsKept handle name p x missing other = elim (Bool-cases (name === x)) [
    | inl here ↦
        let nothing : (find_export os p handle false name).address ≡ none =
          ap (λ (n : String). (find_export os p handle false n).address) ((eq_iff name x).0 here)
          ∙ missing (p "OSDynLoad_FindExport") handle in
        ap (λ r. store name r p x) nothing
    | inr there ↦ store-other name x (find_export os p handle false name).address p there
  ]

  module _ (unsigned_lem : os.is_signed ≡ false) where
    import_function-unsigned :
        (handle : ℕ) (name : String) (p : Pointers)
        → import_function os handle name p
          ≡ bound handle (store name (find_export os p handle false name).address p)
    unfolding import_function
    import_function-unsigned handle name p = rw unsigned_lem refl

    import_functions-unsigned :
        (handle : ℕ) (names : List String) (p : Pointers)
        → (p' : Pointers) × (import_functions os handle names p ≡ bound handle p') × IsKept p p'
    unfolding import_functions
    import_functions-unsigned handle [] p = (p, refl, λ x missing other. refl)
    import_functions-unsigned handle (name ∷ names) p =
        let p1 = store name (find_export os p handle false name).address p in
        let (p', run, kept) = import_functions-unsigned handle names p1 in
        (
          p',
          rw (import_function-unsigned handle name p) run,
          IsKept-trans p p1 p' (store-IsKept handle name p) kept,
        )

    import_libraries-unsigned :
        (handle : ℕ) (libs : List Library) (p : Pointers)
        → (h' : ℕ) × (p' : Pointers) × (import_libraries os handle libs p ≡ bound h' p')
          × IsKept p p'
    unfolding import_libraries
    import_libraries-unsigned handle [] p = (handle, p, refl, λ x missing other. refl)
    import_libraries-unsigned handle (lib ∷ libs) p =
        let handle' = os.acquire (p "OSDynLoad_Acquire") lib.name handle in
        let (p1, run1, kept1) = import_functions-unsigned handle' lib.functions p in
        let (h', p', run, kept) = import_libraries-unsigned handle' libs p1 in
        (h', p', rw run1 run, IsKept-trans p p1 p' kept1 kept)

    override_exit-unsigned :
        (handle : ℕ) (p : Pointers)
        → (h' : ℕ) × (p' : Pointers) × (override_exit os handle p ≡ bound h' p') × IsKept p p'
    unfolding override_exit
    override_exit-unsigned handle p =
        let h' = os.is_module_loaded (p "OSDynLoad_IsModuleLoaded") "coreinit.rpl" handle in
        let r = (find_export os p h' false "exit").address in
        (
          h',
          store "__rplwrap_exit" r p,
          refl,
          λ x missing other. elim (Bool-cases ("__rplwrap_exit" === x)) [
            | inl here ↦ absurd (other (sym ((eq_iff "__rplwrap_exit" x).0 here)))
            | inr there ↦ store-other "__rplwrap_exit" x r p there
          ],
        )

    first_pointers-unset :
        (word : ℕ → ℕ) (handle : ℕ) (x : String)
        → is_listed x preset ≡ false
        → first_pointers os word handle x ≡ 0
    unfolding import_heap
    first_pointers-unset word handle x free =
        let free2 = or_right ("OSDynLoad_Acquire" === x) _ free in
        let free3 = or_right ("OSDynLoad_FindExport" === x) _ free2 in
        let free4 = or_right ("OSDynLoad_IsModuleLoaded" === x) _ free3 in
        let free5 = or_right ("MEMAllocFromDefaultHeap" === x) _ free4 in
        let free6 = or_right ("MEMAllocFromDefaultHeapEx" === x) _ free5 in
        rw
          (
            or_left ("OSDynLoad_Acquire" === x) _ free,
            or_left ("OSDynLoad_FindExport" === x) _ free2,
            or_left ("OSDynLoad_IsModuleLoaded" === x) _ free3,
            or_left ("MEMAllocFromDefaultHeap" === x) _ free4,
            or_left ("MEMAllocFromDefaultHeapEx" === x) _ free5,
            or_left ("MEMFreeToDefaultHeap" === x) _ free6,
          )
          refl

    -- If an OSDynLoad_Error is compared as an unsigned number, then `InitFunctionPointers` ends
    -- without a call of `OSFatal`, whatever the lookups give; the variable of a function that no
    -- library exports is 0 then, if it is neither `__rplwrap_exit` nor set without an import.
    pub init_function_pointers-unsigned :
        (word : ℕ → ℕ) (handle : ℕ)
        → (h' : ℕ) × (p' : Pointers) × (init_function_pointers os word handle ≡ bound h' p')
          × ((x : String)
              → IsMissing x
              → is_listed x preset ≡ false
              → x ≢ "__rplwrap_exit"
              → p' x ≡ 0)
    unfolding init_function_pointers
    init_function_pointers-unsigned word handle =
        let coreinit = first_handle os handle in
        let p0 = first_pointers os word coreinit in
        let (h1, p1, run1, kept1) = import_libraries-unsigned coreinit libraries p0 in
        let (h', p', run, kept) = override_exit-unsigned h1 p1 in
        (
          h',
          p',
          rw run1 run,
          λ x missing free other.
              IsKept-trans p0 p1 p' kept1 kept x missing other
              ∙ first_pointers-unset word coreinit x free,
        )
