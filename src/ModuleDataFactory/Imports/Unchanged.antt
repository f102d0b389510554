-- ===== src/ModuleDataFactory/Imports/Unchanged.antt =====
-- The list of imports is made without a change of the memory (src/module/ModuleDataFactory.cpp,
-- `getImportRelocationData`).
use custom_rpxloader.Base.{
  ℕ, zero, suc, ◌+◌, ◌≡◌, refl, ◌∙◌, List, [], ◌∷◌, inl, inr, Bool-cases, Option-cases, ◌==◌, ltb,
  ◌||◌, ◌++◌,
}
use custom_rpxloader.Machine.{Machine, u32}
use custom_rpxloader.Outcome.{machine, and_then_ind}
use custom_rpxloader.Reader.{Reader, Section}
use custom_rpxloader.ModuleData.{RelocationData}
use custom_rpxloader.ImportRplInformation.{create_import_rpl_information}
use custom_rpxloader.ModuleDataFactory.Placement.{import_base}
use custom_rpxloader.ModuleDataFactory.Linking.{symbol_of}
use custom_rpxloader.ModuleDataFactory.Imports.{
  import_entries, import_sections, info_map, sht_rela, sht_rel, relocation_data,
}

module _ (reader : Reader) where
  import_entries-machine :
      (destinations : List ℕ) (p : Section) (k j : ℕ) (result : List RelocationData) (s : Machine)
      → machine (import_entries reader destinations p k j result s) ≡ s
  unfolding import_entries
  import_entries-machine destinations p zero j result s = refl
  import_entries-machine destinations p (suc k) j result s =
      elim (Option-cases (reader.get_entry p j)) [
        | inl e ↦ rw (import_entries, e) refl
        | inr (e, found) ↦ elim (Option-cases (symbol_of reader p e)) [
          | inl q ↦ rw (import_entries, found, q) refl
          | inr (symbol, q) ↦
              let skipped = import_entries-machine destinations p k (j + 1) result s in
              elim (Bool-cases (ltb (u32 symbol.value) import_base)) [
                | inl own ↦ rw (import_entries, found, q, own) skipped
                | inr other ↦
                    elim (Option-cases (
                      create_import_rpl_information
                        (info_map reader.sections symbol.section_index))) [
                          | inl unknown ↦ rw (import_entries, found, q, other, unknown) refl
                          | inr (info, known) ↦
                              rw (import_entries, found, q, other, known)
                                (import_entries-machine destinations p k (j + 1)
                                  (result
                                    ++ relocation_data reader destinations p e symbol info ∷ [])
                                  s)
                        ]
              ]
        ]
      ]

  pub import_sections-machine :
      (destinations : List ℕ) (ps : List Section) (result : List RelocationData) (s : Machine)
      → machine (import_sections reader destinations ps result s) ≡ s
  unfolding import_sections
  import_sections-machine destinations [] result s = refl
  import_sections-machine destinations (p ∷ ps) result s =
      elim (Bool-cases (p.type == sht_rela || p.type == sht_rel)) [
        | inr other ↦ rw (import_sections, other) (import_sections-machine destinations ps result s)
        | inl relocations ↦
            rw (import_sections, relocations)
              (and_then_ind (λ s'. s' ≡ s)
                (import_entries reader destinations p (u32 (reader.entries_num p)) 0 result s) _
                (import_entries-machine destinations p (u32 (reader.entries_num p)) 0 result s)
                (λ result' s' e same. import_sections-machine destinations ps result' s' ∙ same))
      ]
