-- ===== src/ModuleDataFactory.antt =====
-- src/module/ModuleDataFactory.cpp: a module's sections are placed below an address, linked, and
-- its imports are listed. The parts stand in the children; `load` puts them together.
pub mod Placement
pub mod Linking
pub mod Imports
pub mod WellFormed
pub mod Room
pub mod Result
pub mod FromPath
pub mod Image
pub mod EntryPoint
pub mod Sample
mod Tests
use custom_rpxloader.Base.{
  ℕ, ◌+◌, ◌-◌, ◌*◌, ◌/◌, ◌%◌, ◌^◌, Bool, true, false, not, Option, none, some, List, [], ◌∷◌, ltb,
  length, replicate, if◌then◌else◌, bit_and,
}
use custom_rpxloader.Machine.{Machine, u32, add32, sub32, sync_range}
use custom_rpxloader.Outcome.{Cmd, Outcome, done, failed, pure, ◌>>=◌, ◌>>◌}
use custom_rpxloader.Reader.{Reader, Section}
use custom_rpxloader.ModuleData.{ModuleData, RelocationData, module_data, set_entrypoint, add_all}
use Placement.{target_address_of, initial, size_of_module, place_all}
use Linking.{link_all}
use Imports.{get_import_relocation_data}

abbrev sync : ℕ → ℕ → Cmd (Unit {0})
sync a n s = done tt (sync_range a n s)

-- `load` from the point where ELFIO has read the file. `allocated` says whether the array of
-- destinations could be allocated.
unfoldable pub load_reader :
    (reader : Reader) (allocated : Bool)
    (destination_address maximum_size trampolin_data trampolin_data_length : ℕ)
    → Cmd ModuleData
load_reader reader allocated destination_address maximum_size trampolin_data trampolin_data_length =
    let size = size_of_module 0 reader.sections in
    let target_address = target_address_of destination_address size in
    let entrypoint = sub32 (add32 target_address reader.entry) 0x02000000 in
    if not allocated then failed else if ltb maximum_size size then failed else do
      p ←
          place_all target_address destination_address reader.sections
            (initial target_address (length reader.sections))
      link_all reader p.destinations target_address p.offset_data trampolin_data
          trampolin_data_length reader.sections
      relocs ← get_import_relocation_data reader p.destinations
      sync target_address (sub32 destination_address target_address)
      pure (set_entrypoint entrypoint (add_all relocs p.module_data))

-- `load`: `file` is what `LoadFileToMem` has read, `parse` is ELFIO's `load`.
unfoldable pub load :
    (file : Option (List ℕ)) (parse : List ℕ → Option Reader) (allocated : Bool)
    (destination_address maximum_size trampolin_data trampolin_data_length : ℕ)
    → Cmd ModuleData
load none parse allocated d m t n = failed
load (some buffer) parse allocated d m t n = elim (parse buffer) [
  | none ↦ failed
  | some reader ↦ load_reader reader allocated d m t n
]
