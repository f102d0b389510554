-- ===== src/DoRelocation.antt =====
-- `doRelocation` (src/main.cpp): the libraries of a module's imports are acquired, its functions
-- are looked up, and each relocation is linked. The system's loader is a parameter: it answers a
-- call as a function of the calls before it.
pub mod Once
pub mod Resolve
pub mod Frame
mod Tests
use custom_rpxloader.Base.{
  ℕ, ◌*◌, ◌%◌, Bool, true, false, Option, none, some, List, [], ◌∷◌, ◌==◌, if◌then◌else◌,
}
use custom_rpxloader.Machine.{Machine, u32, sync_range}
use custom_rpxloader.Reader.{Text}
use custom_rpxloader.Trampolin.{import, entry_size}
use custom_rpxloader.ElfUtils.{link_one}
use custom_rpxloader.ModuleData.{RelocationData}
use custom_rpxloader.ModuleDataFactory.Placement.{text_eq}

-- The calls of the system's loader.
pub data Call : Type 0 where
  acquired : Text → Call
  looked_up : ℕ → Bool → Text → Call

-- OSDynLoad_Acquire and OSDynLoad_FindExport, from the calls so far, the last one first. `none` is
-- an error.
pub record DynLoad : Type 0 where
  pub acquire : List Call → Text → Option ℕ
  pub find_export : List Call → ℕ → Bool → Text → Option ℕ

-- `usedRPls`, the calls and the memory.
pub record Relocating : Type 0 where
  pub used_rpls : List (Text × ℕ)
  pub calls : List Call
  pub machine : Machine

unfoldable pub lookup : List (Text × ℕ) → Text → Option ℕ
lookup [] name = none
lookup (e ∷ used) name = let rest = lookup used name in if text_eq e.0 name then some e.1 else rest

-- The handle of a library: the one in use, or a new one.
unfoldable pub handle_of : DynLoad → Text → Relocating → Option ℕ × Relocating
handle_of os name st = elim (lookup st.used_rpls name) [
  | some handle ↦ (some handle, st)
  | none ↦ elim (os.acquire st.calls name) [
    | none ↦ (none, record st { calls = acquired name ∷ st.calls })
    | some handle ↦ (
      some handle,
      record st { used_rpls = (name, handle) ∷ st.used_rpls; calls = acquired name ∷ st.calls },
    )
  ]
]

-- The address of an import: 0 counts as an error.
unfoldable pub function_address : DynLoad → ℕ → RelocationData → Relocating → Option ℕ × Relocating
function_address os handle cur st =
    let asked = record st { calls = looked_up handle cur.rpl_info.is_data cur.name ∷ st.calls } in
    elim (os.find_export st.calls handle cur.rpl_info.is_data cur.name) [
      | none ↦ (none, asked)
      | some address ↦ if address == 0 then (none, asked) else (some address, asked)
    ]

-- The call of `elfLinkOne`.
unfoldable pub link_import :
    (tramp_data tramp_length : ℕ) → RelocationData → ℕ → Relocating → Bool × Relocating
link_import tramp_data tramp_length cur address st =
    let r =
      link_one cur.type cur.offset cur.addend cur.destination address tramp_data tramp_length import
        st.machine in
    (r.0, record st { machine = r.1 })

-- One round of the loop; `false` is `return false`.
unfoldable pub relocate_one :
    DynLoad → (tramp_data tramp_length : ℕ) → RelocationData → Relocating → Bool × Relocating
relocate_one os tramp_data tramp_length cur st =
    let (found, st') = handle_of os cur.rpl_info.name st in
    elim found [
      | none ↦ (false, st')
      | some handle ↦
          let (address, st'') = function_address os handle cur st' in
          elim address [
            | none ↦ (false, st'')
            | some a ↦ link_import tramp_data tramp_length cur a st''
          ]
    ]

unfoldable pub relocate_all :
    DynLoad → (tramp_data tramp_length : ℕ) → List RelocationData → Relocating → Bool × Relocating
relocate_all os tramp_data tramp_length [] st = (true, st)
relocate_all os tramp_data tramp_length (cur ∷ rest) st =
    let (ok, st') = relocate_one os tramp_data tramp_length cur st in
    let others = relocate_all os tramp_data tramp_length rest st' in
    if ok then others else (false, st')

-- `doRelocation`: the calls so far are none of its own.
unfoldable pub do_relocation :
    DynLoad → List RelocationData → (tramp_data tramp_length : ℕ) → Machine → Bool × Relocating
do_relocation os reloc_data tramp_data tramp_length s =
    let (ok, st) =
      relocate_all os tramp_data tramp_length reloc_data
        (record { used_rpls = []; calls = []; machine = s }) in
    if ok
    then (
      true,
      record st { machine = sync_range tramp_data (tramp_length * entry_size) st.machine },
    )
    else (false, st)
