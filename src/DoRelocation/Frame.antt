-- ===== src/DoRelocation/Frame.antt =====
-- The memory that `doRelocation` may change (src/main.cpp).
use custom_rpxloader.Base.{
  ℕ, ◌*◌, ◌≡◌, refl, ◌∙◌, Bool, false, Option, none, some, List, [], ◌∷◌, inl, inr, Bool-cases,
  Option-cases, ◌==◌,
}
use custom_rpxloader.Machine.{Machine, add32}
use custom_rpxloader.Reader.{Text}
use custom_rpxloader.Trampolin.{import, entry_size}
use custom_rpxloader.ElfUtils.Frame.{Beside, link_one-frame}
use custom_rpxloader.ModuleData.{RelocationData}
use custom_rpxloader.DoRelocation.{
  DynLoad, Relocating, lookup, handle_of, function_address, link_import, relocate_one, relocate_all,
  do_relocation,
}

-- The address lies in none of the words that the relocations are for.
abbrev pub Untouched : ℕ → List RelocationData → Type 0
Untouched x [] = Unit {0}
Untouched x (cur ∷ rest) = Beside x (add32 cur.destination cur.offset) 4 × Untouched x rest

handle_of-machine :
    (os : DynLoad) (name : Text) (st : Relocating) → (handle_of os name st).1.machine ≡ st.machine
unfolding handle_of
handle_of-machine os name st = elim (Option-cases (lookup st.used_rpls name)) [
  | inr (handle, e) ↦ rw (e, handle_of) refl
  | inl e ↦ elim (Option-cases (os.acquire st.calls name)) [
    | inl e' ↦ rw (e, e', handle_of) refl
    | inr (handle, e') ↦ rw (e, e', handle_of) refl
  ]
]

function_address-machine :
    (os : DynLoad) (handle : ℕ) (cur : RelocationData) (st : Relocating)
    → (function_address os handle cur st).1.machine ≡ st.machine
unfolding function_address
function_address-machine os handle cur st =
    elim (Option-cases (os.find_export st.calls handle cur.rpl_info.is_data cur.name)) [
      | inl e ↦ rw (e, function_address) refl
      | inr (a, e) ↦ elim (Bool-cases (a == 0)) [
        | inl z ↦ rw (e, z, function_address) refl
        | inr z ↦ rw (e, z, function_address) refl
      ]
    ]

module _ (os : DynLoad) (table n x : ℕ) (apart : Beside x table (entry_size * n)) where
  relocate_one-frame :
      (cur : RelocationData) (st : Relocating)
      → Beside x (add32 cur.destination cur.offset) 4
      → (relocate_one os table n cur st).1.machine.mem x ≡ st.machine.mem x
  unfolding relocate_one link_import
  relocate_one-frame cur st beside =
      first (handle_of os cur.rpl_info.name st) (handle_of-machine os cur.rpl_info.name st)
    where
      second :
          (f : Option ℕ × Relocating)
          → f.1.machine ≡ st.machine
          → let r : Bool × Relocating = elim f.0 [
            | none ↦ (false, f.1)
            | some a ↦ link_import table n cur a f.1
          ] in
            r.1.machine.mem x ≡ st.machine.mem x
      second (none, st') e = rw e refl
      second (some a, st') e =
          link_one-frame cur.type cur.offset cur.addend cur.destination a table n import st'.machine
            x beside apart
          ∙ rw e refl

      first :
          (f : Option ℕ × Relocating)
          → f.1.machine ≡ st.machine
          → let r : Bool × Relocating = elim f.0 [
            | none ↦ (false, f.1)
            | some handle ↦
                let (address, st'') = function_address os handle cur f.1 in
                elim address [ none ↦ (false, st'') | some a ↦ link_import table n cur a st'' ]
          ] in
            r.1.machine.mem x ≡ st.machine.mem x
      first (none, st') e = rw e refl
      first (some handle, st') e =
          second (function_address os handle cur st')
            (function_address-machine os handle cur st' ∙ e)

  relocate_all-frame :
      (list : List RelocationData) (st : Relocating)
      → Untouched x list
      → (relocate_all os table n list st).1.machine.mem x ≡ st.machine.mem x
  unfolding relocate_all
  relocate_all-frame [] st h = refl
  relocate_all-frame (cur ∷ rest) st h = elim (Bool-cases (relocate_one os table n cur st).0) [
    | inl e ↦ rw e (
        relocate_all-frame rest (relocate_one os table n cur st).1 h.1
        ∙ relocate_one-frame cur st h.0)
    | inr e ↦ rw e (relocate_one-frame cur st h.0)
  ]

  -- However `doRelocation` ends, it has changed no byte outside the trampoline table and the words
  -- that its relocations are for.
  pub do_relocation-frame :
      (list : List RelocationData) (s : Machine)
      → Untouched x list
      → (do_relocation os list table n s).1.machine.mem x ≡ s.mem x
  unfolding do_relocation
  do_relocation-frame list s h =
      let start : Relocating = record { used_rpls = []; calls = []; machine = s } in
      let same = relocate_all-frame list start h in
      elim (Bool-cases (relocate_all os table n list start).0) [
        | inl e ↦ rw e same
        | inr e ↦ rw e same
      ]
