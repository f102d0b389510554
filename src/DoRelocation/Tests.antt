-- ===== src/DoRelocation/Tests.antt =====
-- A system with one library, which has one function, and a module that imports it twice
-- (src/main.cpp, `doRelocation`).
use custom_rpxloader.Base.{
  ℕ, ◌*◌, ◌≡◌, refl, Bool, false, Option, none, some, List, [], ◌∷◌, if◌then◌else◌,
}
use custom_rpxloader.Machine.{Machine, sync_range}
use custom_rpxloader.Reader.{Text}
use custom_rpxloader.Trampolin.{entry_size}
use custom_rpxloader.ElfUtils.{r_ppc_addr32, link_one}
use custom_rpxloader.ImportRplInformation.{codes}
use custom_rpxloader.ModuleData.{RelocationData}
use custom_rpxloader.ModuleDataFactory.Placement.{text_eq}
use custom_rpxloader.DoRelocation.{
  acquired, looked_up, lookup, handle_of, function_address, link_import, relocate_one, relocate_all,
  do_relocation,
}
use custom_rpxloader.DoRelocation.Once.{AllDifferent, acquisitions, do_relocation-acquires_once}
use custom_rpxloader.DoRelocation.Resolve.{constant, link_all_resolved, do_relocation-resolves}

abbrev acquire : Text → Option ℕ
acquire name = if text_eq name (codes "coreinit") then some 7 else none

abbrev find_export : ℕ → Bool → Text → Option ℕ
find_export handle is_data name = if text_eq name (codes "OSFatal") then some 0x01031618 else none

abbrev import_at : ℕ → RelocationData
import_at offset = record {
  type = r_ppc_addr32;
  offset = offset;
  addend = 0;
  destination = 0x00fc0000;
  name = codes "OSFatal";
  rpl_info = record { name = codes "coreinit"; is_data = false };
}

abbrev imports : List RelocationData
imports = import_at 0 ∷ import_at 8 ∷ []

abbrev empty : Machine
empty = record { mem = λ _. 0; cache = [] }

-- One call for the library, one for each function.
calls_lem :
    (do_relocation (constant acquire find_export) imports 0x00900000 500 empty).1.calls
    ≡ looked_up 7 false (codes "OSFatal")
      ∷ looked_up 7 false (codes "OSFatal")
      ∷ acquired (codes "coreinit")
      ∷ []
unfolding do_relocation relocate_all relocate_one handle_of function_address link_import lookup
    link_one
calls_lem = refl

do_relocation-acquires_once_example : AllDifferent (
    acquisitions
      (do_relocation (constant acquire find_export) imports 0x00900000 500 empty).1.calls)
do_relocation-acquires_once_example =
    do_relocation-acquires_once (constant acquire find_export) imports 0x00900000 500 empty

do_relocation-resolves_example :
    let r = do_relocation (constant acquire find_export) imports 0x00900000 500 empty in
    let spec = link_all_resolved acquire find_export 0x00900000 500 imports empty in
    (r.0 ≡ spec.0)
    × (r.1.machine ≡ (if spec.0 then sync_range 0x00900000 (500 * entry_size) spec.1 else spec.1))
do_relocation-resolves_example =
    do_relocation-resolves acquire find_export imports 0x00900000 500 empty

-- The word between the two that are relocated.
