-- ===== src/ModuleDataFactory/Result/Imported.antt =====
-- The words that the imports in the result of `load` are for (src/module/ModuleDataFactory.cpp).
use custom_rpxloader.Base.{
  ℕ, zero, suc, ◌+◌, ◌^◌, ◌≤◌, ◌≡◌, ap, ◌∙◌, true, some, List, [], ◌∷◌, ◌++◌, get_or,
  get_or-default, get_elem?, subst, inl, inr, Bool-cases, Option-cases, arith, ◌==◌, ltb, ◌||◌,
}
use custom_rpxloader.Machine.{Machine, u32, add32}
use custom_rpxloader.Outcome.{done, and_then-eq-done}
use custom_rpxloader.Reader.{Reader, Section, Entry, Symbol}
use custom_rpxloader.ModuleData.{RelocationData}
use custom_rpxloader.ImportRplInformation.{ImportRplInformation, create_import_rpl_information}
use custom_rpxloader.ModuleDataFactory.Placement.{is_placed, import_base}
use custom_rpxloader.ModuleDataFactory.Placement.Landed.{IsNumbered, Landed, AllLanded}
use custom_rpxloader.ModuleDataFactory.Linking.{symbol_of}
use custom_rpxloader.ModuleDataFactory.Imports.{
  import_entries, import_sections, info_map, sht_rela, sht_rel, relocation_data,
}
use custom_rpxloader.ModuleDataFactory.WellFormed.{IsWithin, ImportsOf, AllImports}
use custom_rpxloader.ModuleDataFactory.Result.{AllTargets, AllTargets-snoc}

module _ (low top : ℕ) where
  module _ (reader : Reader) (destinations : List ℕ) where
    -- The section of that number, if it is placed.
    AllLanded-get_elem :
        (k i : ℕ) (ps : List Section) (p : Section)
        → IsNumbered k ps
        → AllLanded low top destinations ps
        → get_elem? ps i ≡ some p
        → is_placed p ≡ true
        → Landed low top destinations p × (p.index ≡ k + i)
    AllLanded-get_elem k i [] p numbered landed found placed = cc
    AllLanded-get_elem k zero (q ∷ ps) p numbered landed found placed =
        let same : q ≡ p = cc in
        (
          subst (λ t. is_placed t ≡ true → Landed low top destinations t) same landed.0 placed,
          omega (arith, numbered.0, ap (λ (t : Section). t.index) same),
        )
    AllLanded-get_elem k (suc i) (q ∷ ps) p numbered landed found placed =
        let later = AllLanded-get_elem (k + 1) i ps p numbered.1 landed.1 found placed in
        (later.0, omega (arith, later.1))

    relocation_data_within :
        (q p : Section) (e : Entry) (symbol : Symbol) (info : ImportRplInformation)
        → Landed low top destinations p
        → p.index ≡ q.info
        → IsWithin reader p e
        → top ≤ 2 ^ 28
        → let r = relocation_data reader destinations q e symbol info in
          (low ≤ add32 r.destination r.offset) × (add32 r.destination r.offset + 4 ≤ top)
    relocation_data_within q p e symbol info landed same within small =
        let d : ℕ = get_or destinations q.info (reader.beyond q.info) in
        let entry : get_or destinations p.index 0 ≡ d =
          ap (λ i. get_or destinations i 0) same
          ∙ get_or-default destinations q.info 0 (reader.beyond q.info)
              (omega (arith, landed, same)) in
        let start : add32 d (u32 e.offset) + u32 p.address
            ≡ add32 d (u32 p.address) + u32 e.offset =
          omega (arith, landed, within, entry) in
        omega (arith, landed, within, start, entry)

    module _ (small : top ≤ 2 ^ 28) (numbered : IsNumbered 0 reader.sections)
        (landed : AllLanded low top destinations reader.sections) where
      import_entries-AllTargets :
          (q : Section) (k j : ℕ) (result result' : List RelocationData) (s s' : Machine)
          → ImportsOf reader q
          → import_entries reader destinations q k j result s ≡ done result' s'
          → AllTargets low top result
          → AllTargets low top result'
      unfolding import_entries
      import_entries-AllTargets q zero j result result' s s' within h targets =
          let same : result ≡ result' = cc in subst (AllTargets low top) same targets
      import_entries-AllTargets q (suc k) j result result' s s' within h targets =
          elim (Option-cases (reader.get_entry q j)) [
            | inl e ↦ cc (rw (import_entries, e) at h)
            | inr (e, found) ↦ elim (Option-cases (symbol_of reader q e)) [
              | inl none_lem ↦ cc (rw (import_entries, found, none_lem) at h)
              | inr (symbol, known) ↦ elim (Bool-cases (ltb (u32 symbol.value) import_base)) [
                | inl own ↦
                    import_entries-AllTargets q k (j + 1) result result' s s' within
                      (rw (import_entries, found, known, own) at h) targets
                | inr other ↦
                    elim (Option-cases (
                      create_import_rpl_information
                        (info_map reader.sections symbol.section_index))) [
                          | inl unknown ↦
                              let same : result ≡ result' =
                                cc (rw (import_entries, found, known, other, unknown) at h) in
                              subst (AllTargets low top) same targets
                          | inr (info, library) ↦
                              let (p, at_info, inside) = within j e symbol found known other in
                              let place_lem =
                                AllLanded-get_elem 0 q.info reader.sections p numbered landed
                                  at_info inside.0 in
                              import_entries-AllTargets q k (j + 1)
                                (result ++ relocation_data reader destinations q e symbol info ∷ [])
                                result' s s' within
                                (rw (import_entries, found, known, other, library) at h)
                                (AllTargets-snoc low top result
                                  (relocation_data reader destinations q e symbol info) targets
                                  (relocation_data_within q p e symbol info place_lem.0
                                    (omega (arith, place_lem.1)) inside small))
                        ]
              ]
            ]
          ]

      pub import_sections-AllTargets :
          (qs : List Section) (result result' : List RelocationData) (s s' : Machine)
          → AllImports reader qs
          → import_sections reader destinations qs result s ≡ done result' s'
          → AllTargets low top result
          → AllTargets low top result'
      unfolding import_sections
      import_sections-AllTargets [] result result' s s' within h targets =
          let same : result ≡ result' = cc in subst (AllTargets low top) same targets
      import_sections-AllTargets (q ∷ qs) result result' s s' within h targets =
          elim (Bool-cases (q.type == sht_rela || q.type == sht_rel)) [
            | inr other ↦
                import_sections-AllTargets qs result result' s s' within.1
                  (rw (import_sections, other) at h) targets
            | inl relocations ↦
                let (middle, t, e, rest) =
                  and_then-eq-done
                    (import_entries reader destinations q (u32 (reader.entries_num q)) 0 result s)
                    (λ r t. import_sections reader destinations qs r t)
                    (rw (import_sections, relocations) at h) in
                import_sections-AllTargets qs middle result' t s' within.1 rest (
                  import_entries-AllTargets q (u32 (reader.entries_num q)) 0 result middle s t
                    (within.0 relocations) e targets)
          ]
