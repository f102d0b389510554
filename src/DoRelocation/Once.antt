-- ===== src/DoRelocation/Once.antt =====
-- The libraries that `doRelocation` acquires (src/main.cpp, `usedRPls`).
use custom_rpxloader.Base.{
  ℕ, ◌≡◌, refl, ap, Bool, true, false, ◌||◌, Option, none, some, List, [], ◌∷◌, inl, inr, arith,
  Option-cases, Bool-cases, ◌==◌, if_ind,
}
use custom_rpxloader.Machine.{Machine}
use custom_rpxloader.Reader.{Text}
use custom_rpxloader.ModuleData.{RelocationData}
use custom_rpxloader.ModuleDataFactory.Placement.{text_eq}
use custom_rpxloader.DoRelocation.{
  Call, acquired, looked_up, DynLoad, Relocating, lookup, handle_of, function_address, link_import,
  relocate_one, relocate_all, do_relocation,
}

abbrev pub is_in : Text → List Text → Bool
is_in name [] = false
is_in name (other ∷ names) = text_eq other name || is_in name names

-- No name stands twice in the list.
abbrev pub AllDifferent : List Text → Type 0
AllDifferent [] = Unit {0}
AllDifferent (name ∷ names) = (is_in name names ≡ false) × AllDifferent names

-- The names that were acquired, the last one first.
abbrev pub acquisitions : List Call → List Text
acquisitions [] = []
acquisitions (acquired name ∷ calls) = name ∷ acquisitions calls
acquisitions (looked_up handle is_data name ∷ calls) = acquisitions calls

abbrev names : List (Text × ℕ) → List Text
names [] = []
names (e ∷ used) = e.0 ∷ names used

-- The libraries in use are those acquired, each of them once.
record IsTracked (st : Relocating) : Type 0 where
  used : acquisitions st.calls ≡ names st.used_rpls
  different : AllDifferent (acquisitions st.calls)

-- What a step leaves behind: the names differ, and if it went well they are those in use.
record IsStep (ok : Bool) (st : Relocating) : Type 0 where
  different : AllDifferent (acquisitions st.calls)
  tracked : ok ≡ true → IsTracked st

abbrev is_some : Option ℕ → Bool
is_some none = false
is_some (some a) = true

lookup-none :
    (used : List (Text × ℕ)) (name : Text)
    → lookup used name ≡ none
    → is_in name (names used) ≡ false
unfolding lookup
lookup-none [] name h = refl
lookup-none (e ∷ used) name h = ground (arith, lookup-none used name)

handle_of-IsStep :
    (os : DynLoad) (name : Text) (st : Relocating)
    → IsTracked st
    → let r = handle_of os name st in IsStep (is_some r.0) r.1
unfolding handle_of
handle_of-IsStep os name st t = elim (Option-cases (lookup st.used_rpls name)) [
  | inr (handle, e) ↦ rw (e, handle_of) (record { different = t.different; tracked = λ _. t })
  | inl e ↦
      let fresh : is_in name (acquisitions st.calls) ≡ false =
        rw t.used (lookup-none st.used_rpls name e) in
      elim (Option-cases (os.acquire st.calls name)) [
        | inl e' ↦
            rw (e, e', handle_of) (record { different = (fresh, t.different); tracked = λ h. cc })
        | inr (handle, e') ↦
            rw (e, e', handle_of)
              (record {
                different = (fresh, t.different);
                tracked = λ _. record {
                  used = ap (λ l. name ∷ l) t.used;
                  different = (fresh, t.different);
                };
              })
      ]
]

tracked_after : (ok : Bool) (st : Relocating) → IsTracked st → IsStep ok st
tracked_after ok st t = record { different = t.different; tracked = λ _. t }

function_address-IsTracked :
    (os : DynLoad) (handle : ℕ) (cur : RelocationData) (st : Relocating)
    → IsTracked st
    → IsTracked (function_address os handle cur st).1
unfolding function_address
function_address-IsTracked os handle cur st t =
    elim (Option-cases (os.find_export st.calls handle cur.rpl_info.is_data cur.name)) [
      | inl e ↦ rw (e, function_address) asked
      | inr (a, e) ↦
          rw (e, function_address)
            (if_ind (λ (r : Option ℕ × Relocating). IsTracked r.1) (a == 0) asked asked)
    ]
  where
    asked :
        IsTracked (record st { calls = looked_up handle cur.rpl_info.is_data cur.name ∷ st.calls })
    asked = record { used = t.used; different = t.different }

module _ (os : DynLoad) (table n : ℕ) where
  relocate_one-IsStep :
      (cur : RelocationData) (st : Relocating)
      → IsTracked st
      → let r = relocate_one os table n cur st in IsStep r.0 r.1
  unfolding relocate_one link_import
  relocate_one-IsStep cur st t =
      first (handle_of os cur.rpl_info.name st) (handle_of-IsStep os cur.rpl_info.name st t)
    where
      second :
          (f : Option ℕ × Relocating)
          → IsTracked f.1
          → let r : Bool × Relocating = elim f.0 [
            | none ↦ (false, f.1)
            | some a ↦ link_import table n cur a f.1
          ] in
            IsStep r.0 r.1
      second (none, st') t' = tracked_after false st' t'
      second (some a, st') t' =
          let r = link_import table n cur a st' in
          tracked_after r.0 r.1 (record { used = t'.used; different = t'.different })

      first :
          (f : Option ℕ × Relocating)
          → IsStep (is_some f.0) f.1
          → let r : Bool × Relocating = elim f.0 [
            | none ↦ (false, f.1)
            | some handle ↦
                let (address, st'') = function_address os handle cur f.1 in
                elim address [ none ↦ (false, st'') | some a ↦ link_import table n cur a st'' ]
          ] in
            IsStep r.0 r.1
      first (none, st') k = record { different = k.different; tracked = λ h. cc }
      first (some handle, st') k =
          second (function_address os handle cur st')
            (function_address-IsTracked os handle cur st' (k.tracked refl))

  relocate_all-different :
      (list : List RelocationData) (st : Relocating)
      → IsTracked st
      → AllDifferent (acquisitions (relocate_all os table n list st).1.calls)
  unfolding relocate_all
  relocate_all-different [] st t = t.different
  relocate_all-different (cur ∷ rest) st t =
      let k = relocate_one-IsStep cur st t in
      elim (Bool-cases (relocate_one os table n cur st).0) [
        | inl e ↦
            rw e (relocate_all-different rest (relocate_one os table n cur st).1 (k.tracked e))
        | inr e ↦ rw e k.different
      ]

-- However `doRelocation` ends, it has asked for no library twice.
pub do_relocation-acquires_once :
    (os : DynLoad) (list : List RelocationData) (table n : ℕ) (s : Machine)
    → AllDifferent (acquisitions (do_relocation os list table n s).1.calls)
unfolding do_relocation
do_relocation-acquires_once os list table n s =
    let start : Relocating = record { used_rpls = []; calls = []; machine = s } in
    let h = relocate_all-different os table n list start (record { used = refl; different = tt }) in
    elim (Bool-cases (relocate_all os table n list start).0) [ inl e ↦ rw e h | inr e ↦ rw e h ]
