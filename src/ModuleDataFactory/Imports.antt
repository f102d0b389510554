-- ===== src/ModuleDataFactory/Imports.antt =====
-- `getImportRelocationData` (src/module/ModuleDataFactory.cpp): the relocations whose symbols are
-- imported, in the order of the file.
pub mod Listed
pub mod Unchanged
mod Tests
use custom_rpxloader.Base.{
  ℕ, zero, suc, ◌+◌, ◌%◌, ◌^◌, ◌||◌, none, some, List, [], ◌∷◌, ◌++◌, ltb, ◌==◌, if◌then◌else◌,
  get_elem?, get_or,
}
use custom_rpxloader.Machine.{u32, add32, sub32}
use custom_rpxloader.Outcome.{Cmd, done, fatal, ◌>>=◌}
use custom_rpxloader.Reader.{Section, Entry, Symbol, Reader, Text}
use custom_rpxloader.ImportRplInformation.{ImportRplInformation, create_import_rpl_information}
use custom_rpxloader.ModuleData.{RelocationData}
use custom_rpxloader.ModuleDataFactory.Placement.{sht_rpl_imports, text_base, import_base}
use custom_rpxloader.ModuleDataFactory.Linking.{symbol_of}

abbrev pub sht_rela : ℕ
sht_rela = 4

abbrev pub sht_rel : ℕ
sht_rel = 9

-- `infoMap[i]`: the name of the import section `i`, and the empty text for any other number.
unfoldable pub info_map : List Section → ℕ → Text
info_map sections i = elim (get_elem? sections i) [
  | none ↦ []
  | some p ↦ if p.type == sht_rpl_imports then p.name else []
]

-- The relocation that an entry of the section `p` asks for. The section's `info` is not compared with
-- the length of the array.
abbrev pub relocation_data :
    Reader → List ℕ → Section → Entry → Symbol → ImportRplInformation → RelocationData
relocation_data reader destinations p e sym rpl_info = record {
  type = e.type % 2 ^ 8;
  offset = sub32 (u32 e.offset) text_base;
  addend = u32 e.addend;
  destination = add32 (get_or destinations p.info (reader.beyond p.info)) text_base;
  name = sym.name;
  rpl_info = rpl_info;
}

-- The loop over the entries of the section `p`, with `k` left from `j` on. An import whose library
-- is not known ends the loop over this section.
unfoldable pub import_entries :
    Reader → List ℕ → Section → ℕ → ℕ → List RelocationData → Cmd (List RelocationData)
import_entries reader destinations p zero j result s = done result s
import_entries reader destinations p (suc k) j result s = elim (reader.get_entry p j) [
  | none ↦ fatal s
  | some e ↦ elim (symbol_of reader p e) [
    | none ↦ fatal s
    | some sym ↦
        let skipped = import_entries reader destinations p k (j + 1) result s in
        if ltb (u32 sym.value) import_base
        then skipped
        else elim (create_import_rpl_information (info_map reader.sections sym.section_index)) [
          | none ↦ done result s
          | some rpl_info ↦
              import_entries reader destinations p k (j + 1)
                (result ++ relocation_data reader destinations p e sym rpl_info ∷ []) s
        ]
  ]
]

unfoldable pub import_sections :
    Reader → List ℕ → List Section → List RelocationData → Cmd (List RelocationData)
import_sections reader destinations [] result = done result
import_sections reader destinations (p ∷ ps) result = do
  result' ←
      if p.type == sht_rela || p.type == sht_rel
      then import_entries reader destinations p (u32 (reader.entries_num p)) 0 result
      else done result
  import_sections reader destinations ps result'

-- `getImportRelocationData`
unfoldable pub get_import_relocation_data : Reader → List ℕ → Cmd (List RelocationData)
get_import_relocation_data reader destinations =
    import_sections reader destinations reader.sections []
