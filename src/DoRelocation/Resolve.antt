-- ===== src/DoRelocation/Resolve.antt =====
-- `doRelocation` against a loop that asks for each import on its own (src/main.cpp).
use custom_rpxloader.Base.{
  ℕ, ◌*◌, ◌≡◌, refl, ap, ◌∙◌, sym, subst, Bool, true, false, Option, none, some, List, [], ◌∷◌, inl,
  inr, arith, Option-cases, Bool-cases, if◌then◌else◌, ◌==◌,
}
use custom_rpxloader.Machine.{Machine, sync_range}
use custom_rpxloader.Reader.{Text}
use custom_rpxloader.Trampolin.{import, entry_size}
use custom_rpxloader.ElfUtils.{link_one}
use custom_rpxloader.ModuleData.{RelocationData}
use custom_rpxloader.ModuleDataFactory.Placement.{text_eq}
use custom_rpxloader.DoRelocation.{
  DynLoad, Relocating, lookup, handle_of, function_address, link_import, relocate_one, relocate_all,
  do_relocation,
}

pub text_eq→eq : (s t : Text) → text_eq s t ≡ true → s ≡ t
text_eq→eq [] [] h = refl
text_eq→eq [] (d ∷ t) h = cc
text_eq→eq (c ∷ s) [] h = cc
text_eq→eq (c ∷ s) (d ∷ t) h =
    let same : c ≡ d = ground arith in let rest : s ≡ t = text_eq→eq s t (ground arith) in cc

-- A system whose answers do not depend on the calls before.
module _ (acquire : Text → Option ℕ) (find_export : ℕ → Bool → Text → Option ℕ) where
  abbrev pub constant : DynLoad
  constant = record { acquire = λ _. acquire; find_export = λ _. find_export }

  -- The address that an import has in that system.
  abbrev pub resolve : RelocationData → Option ℕ
  resolve cur = elim (acquire cur.rpl_info.name) [
    | none ↦ none
    | some handle ↦ elim (find_export handle cur.rpl_info.is_data cur.name) [
      | none ↦ none
      | some a ↦ if a == 0 then none else some a
    ]
  ]

  abbrev pub link_resolved : (table n : ℕ) → RelocationData → Machine → Bool × Machine
  link_resolved table n cur s = elim (resolve cur) [
    | none ↦ (false, s)
    | some a ↦ link_one cur.type cur.offset cur.addend cur.destination a table n import s
  ]

  -- The imports linked one after the other, up to the first that fails.
  abbrev pub link_all_resolved : (table n : ℕ) → List RelocationData → Machine → Bool × Machine
  link_all_resolved table n [] s = (true, s)
  link_all_resolved table n (cur ∷ rest) s =
      let r = link_resolved table n cur s in
      let others = link_all_resolved table n rest r.1 in if r.0 then others else (false, r.1)

  -- The handles in use are those that the system gives.
  abbrev IsCache : List (Text × ℕ) → Type 0
  IsCache used =
      (name : Text) (handle : ℕ) → lookup used name ≡ some handle → acquire name ≡ some handle

  IsCache-add :
      (used : List (Text × ℕ)) (name : Text) (handle : ℕ)
      → IsCache used
      → acquire name ≡ some handle
      → IsCache ((name, handle) ∷ used)
  unfolding lookup
  IsCache-add used name handle c h other found g = elim (Bool-cases (text_eq name other)) [
    | inl e ↦
        let same : name ≡ other = text_eq→eq name other e in ap acquire (sym same) ∙ h ∙ rw e at g
    | inr e ↦ c other found (rw e at g)
  ]

  -- A handle from the cache is the one that the system gives, and the memory is not touched.
  record IsHandle (name : Text) (st : Relocating) (r : Option ℕ × Relocating) : Type 0 where
    handle : r.0 ≡ acquire name
    machine : r.1.machine ≡ st.machine
    cache : IsCache r.1.used_rpls

  handle_of-IsHandle :
      (name : Text) (st : Relocating)
      → IsCache st.used_rpls
      → IsHandle name st (handle_of constant name st)
  unfolding handle_of
  handle_of-IsHandle name st c = elim (Option-cases (lookup st.used_rpls name)) [
    | inr (handle, e) ↦
        rw (e, handle_of) (record { handle = sym (c name handle e); machine = refl; cache = c })
    | inl e ↦ elim (Option-cases (acquire name)) [
      | inl e' ↦ rw (e, e', handle_of) (record { handle = sym e'; machine = refl; cache = c })
      | inr (handle, e') ↦
          rw (e, e', handle_of)
            (record {
              handle = sym e';
              machine = refl;
              cache = IsCache-add st.used_rpls name handle c e';
            })
    ]
  ]

  -- A result of the code that agrees with one of the loop that resolves each import.
  record IsSame (r : Bool × Relocating) (spec : Bool × Machine) : Type 0 where
    ok : r.0 ≡ spec.0
    machine : r.1.machine ≡ spec.1
    cache : IsCache r.1.used_rpls

  function_address-IsSame :
      (table n handle : ℕ) (cur : RelocationData) (st : Relocating)
      → IsCache st.used_rpls
      → acquire cur.rpl_info.name ≡ some handle
      → let f = function_address constant handle cur st in
        IsSame
          (elim f.0 [ none ↦ (false, f.1) | some a ↦ link_import table n cur a f.1 ])
          (link_resolved table n cur st.machine)
  unfolding function_address link_import
  function_address-IsSame table n handle cur st c h =
      elim (Option-cases (find_export handle cur.rpl_info.is_data cur.name)) [
        | inl e ↦
            rw (h, e, link_resolved, resolve)
              (rw (e, function_address) (record { ok = refl; machine = refl; cache = c }))
        | inr (a, e) ↦ elim (Bool-cases (a == 0)) [
          | inl z ↦
              rw (h, e, z, link_resolved, resolve)
                (rw (e, z, function_address) (record { ok = refl; machine = refl; cache = c }))
          | inr z ↦
              rw (h, e, z, link_resolved, resolve)
                (rw (e, z, function_address) (record { ok = refl; machine = refl; cache = c }))
        ]
      ]

  relocate_one-IsSame :
      (table n : ℕ) (cur : RelocationData) (st : Relocating)
      → IsCache st.used_rpls
      → IsSame (relocate_one constant table n cur st) (link_resolved table n cur st.machine)
  unfolding relocate_one
  relocate_one-IsSame table n cur st c =
      got (handle_of constant cur.rpl_info.name st) (handle_of-IsHandle cur.rpl_info.name st c)
    where
      got :
          (f : Option ℕ × Relocating)
          → IsHandle cur.rpl_info.name st f
          → IsSame
              (elim f.0 [
                | none ↦ (false, f.1)
                | some handle ↦
                    let (address, st'') = function_address constant handle cur f.1 in
                    elim address [ none ↦ (false, st'') | some a ↦ link_import table n cur a st'' ]
              ])
              (link_resolved table n cur st.machine)
      got (none, st') h =
          rw (sym h.handle, link_resolved, resolve)
            (record { ok = refl; machine = h.machine; cache = h.cache })
      got (some handle, st') h =
          subst
            (λ s.
              let f = function_address constant handle cur st' in
              IsSame (elim f.0 [ none ↦ (false, f.1) | some a ↦ link_import table n cur a f.1 ])
                (link_resolved table n cur s))
            h.machine (function_address-IsSame table n handle cur st' h.cache (sym h.handle))

  relocate_all-IsSame :
      (table n : ℕ) (list : List RelocationData) (st : Relocating)
      → IsCache st.used_rpls
      → IsSame (relocate_all constant table n list st) (link_all_resolved table n list st.machine)
  unfolding relocate_all
  relocate_all-IsSame table n [] st c = record { ok = refl; machine = refl; cache = c }
  relocate_all-IsSame table n (cur ∷ rest) st c =
      let k = relocate_one-IsSame table n cur st c in
      elim (Bool-cases (link_resolved table n cur st.machine).0) [
        | inl e ↦
            rw (k.ok, e, sym k.machine)
              (relocate_all-IsSame table n rest (relocate_one constant table n cur st).1 k.cache)
        | inr e ↦ rw (k.ok, e) (record { ok = refl; machine = k.machine; cache = k.cache })
      ]

  -- If the system's answers do not depend on the calls before, `doRelocation` has the result of the
  -- loop that asks for each import's library and address on its own and links it, up to the first
  -- that fails; if none fails, the table is flushed at the end.
  pub do_relocation-resolves :
      (list : List RelocationData) (table n : ℕ) (s : Machine)
      → let r = do_relocation constant list table n s in
        let spec = link_all_resolved table n list s in
        (r.0 ≡ spec.0)
        × (r.1.machine ≡ (if spec.0 then sync_range table (n * entry_size) spec.1 else spec.1))
  unfolding do_relocation lookup
  do_relocation-resolves list table n s =
      let k =
        relocate_all-IsSame table n list (record { used_rpls = []; calls = []; machine = s })
          (λ name handle h. cc) in
      elim (Bool-cases (link_all_resolved table n list s).0) [
        | inl e ↦ rw (k.ok, e) (refl, ap (sync_range table (n * entry_size)) k.machine)
        | inr e ↦ rw (k.ok, e) (refl, k.machine)
      ]
