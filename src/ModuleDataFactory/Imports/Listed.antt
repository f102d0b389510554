-- ===== src/ModuleDataFactory/Imports/Listed.antt =====
-- The list of imports against its description (src/module/ModuleDataFactory.cpp,
-- `getImportRelocationData`).
use mathlib.Core.List.{append_assoc, append-nil}
use custom_rpxloader.Base.{
  ℕ, ◌+◌, ◌%◌, ◌^◌, ◌≡◌, refl, sym, ap, ◌∙◌, Bool, true, ◌||◌, Option, none, some, List, [], ◌∷◌,
  ◌++◌, ltb, ◌==◌, if◌then◌else◌, length, get_elem?, get_or-get_elem, arith, inl, inr, Bool-cases,
  Option-cases,
}
use custom_rpxloader.Machine.{Machine, u32}
use custom_rpxloader.Outcome.{done}
use custom_rpxloader.Reader.{Section, Entry, Symbol, Reader}
use custom_rpxloader.ImportRplInformation.{ImportRplInformation, create_import_rpl_information}
use custom_rpxloader.ModuleData.{RelocationData}
use custom_rpxloader.ModuleDataFactory.Placement.{import_base}
use custom_rpxloader.ModuleDataFactory.Linking.{symbol_of}
use custom_rpxloader.ModuleDataFactory.Imports.{
  sht_rela, sht_rel, info_map, relocation_data, import_entries, import_sections,
  get_import_relocation_data,
}

-- An entry and its symbol.
abbrev pub Row : Type 0
Row = Entry × Symbol

abbrev pub imported : List Row → List Row
imported [] = []
imported ((e, symbol) ∷ rows) =
    if ltb (u32 symbol.value) import_base then imported rows else (e, symbol) ∷ imported rows

-- The results up to the first that is missing.
abbrev pub map_while : {A B : Type 0} → (A → Option B) → List A → List B
map_while f [] = []
map_while f (x ∷ xs) = elim (f x) [ none ↦ [] | some y ↦ y ∷ map_while f xs ]

map_while-some :
    {A B : Type 0} (f : A → Option B) (x : A) (y : B) (xs : List A)
    → f x ≡ some y
    → map_while f (x ∷ xs) ≡ y ∷ map_while f xs
map_while-some f x y xs h = rw (h, map_while) refl

abbrev pub is_relocations : Section → Bool
is_relocations p = p.type == sht_rela || p.type == sht_rel

module _ (reader : Reader) (destinations : List ℕ) where
  -- What an import of a library that is known becomes, for a section that has been put at `d`: the
  -- lowest byte of the entry's type, the addend as a word, the symbol's name and library, and the
  -- place that is `offset` bytes behind `d`, counted from 0x02000000 there and here.
  abbrev pub relocation_at : ℕ → Row → Option RelocationData
  relocation_at d (e, symbol) =
      elim (create_import_rpl_information (info_map reader.sections symbol.section_index)) [
        | none ↦ none
        | some info ↦ some (record {
          type = e.type % 256;
          offset = (e.offset + 0xfe000000) % 2 ^ 32;
          addend = e.addend % 2 ^ 32;
          destination = (d + 0x02000000) % 2 ^ 32;
          name = symbol.name;
          rpl_info = info;
        })
      ]

  -- The array's entry for the section that the relocations of `p` are for.
  abbrev pub start_of : Section → ℕ
  start_of p = elim (get_elem? destinations p.info) [ none ↦ 0 | some d ↦ d ]

  -- The imports of a module whose sections have these rows.
  abbrev pub listed : (Section → List Row) → List Section → List RelocationData
  listed rows [] = []
  listed rows (p ∷ ps) =
      (if is_relocations p then map_while (relocation_at (start_of p)) (imported (rows p)) else [])
      ++ listed rows ps

  -- The rows of a section, from the entry `j` on.
  abbrev pub IsRead : Section → ℕ → List Row → Type 0
  IsRead p j [] = Unit {0}
  IsRead p j ((e, symbol) ∷ rows) =
      (reader.get_entry p j ≡ some e) × (symbol_of reader p e ≡ some symbol) × IsRead p (j + 1) rows

  relocation_data-at :
      (p : Section) (d : ℕ) (e : Entry) (symbol : Symbol) (info : ImportRplInformation)
      → get_elem? destinations p.info ≡ some d
      → create_import_rpl_information (info_map reader.sections symbol.section_index) ≡ some info
      → relocation_at d (e, symbol) ≡ some (relocation_data reader destinations p e symbol info)
  relocation_data-at p d e symbol info entry known =
      rw (known, relocation_at)
        (ground (arith, get_or-get_elem destinations p.info (reader.beyond p.info) d entry))

  import_entries-listed :
      (p : Section) (d : ℕ) (rows : List Row) (j : ℕ) (result : List RelocationData) (s : Machine)
      → get_elem? destinations p.info ≡ some d
      → IsRead p j rows
      → import_entries reader destinations p (length rows) j result s
        ≡ done (result ++ map_while (relocation_at d) (imported rows)) s
  unfolding import_entries
  import_entries-listed p d [] j result s entry h = ap (λ l. done l s) (sym (append-nil result))
  import_entries-listed p d ((e, symbol) ∷ rows) j result s entry h =
      elim (Bool-cases (ltb (u32 symbol.value) import_base)) [
        | inl local ↦
            rw (import_entries, h.0, h.1, local)
              (import_entries-listed p d rows (j + 1) result s entry h.2)
        | inr remote ↦
            elim (Option-cases
              (create_import_rpl_information (info_map reader.sections symbol.section_index))) [
                | inl unknown ↦
                    rw (import_entries, h.0, h.1, remote, unknown)
                      (rw (map_while, unknown) (ap (λ l. done l s) (sym (append-nil result))))
                | inr (info, known) ↦
                    let r = relocation_data reader destinations p e symbol info in
                    let same = relocation_data-at p d e symbol info entry known in
                    rw (import_entries, h.0, h.1, remote, known)
                      (import_entries-listed p d rows (j + 1) (result ++ r ∷ []) s entry h.2
                        ∙ ap (λ l. done l s)
                            (append_assoc result (r ∷ [])
                                (map_while (relocation_at d) (imported rows))
                              ∙ ap (λ (l : List RelocationData). result ++ l)
                                  (sym (
                                    map_while-some (relocation_at d) (e, symbol) r (imported rows)
                                      same))))
              ]
      ]

  -- The sections of relocations in a list have these rows, as many as they say.
  abbrev pub IsTables : (Section → List Row) → List Section → Type 0
  IsTables rows [] = Unit {0}
  IsTables rows (p ∷ ps) =
      (is_relocations p ≡ true
        → (d : ℕ) × (get_elem? destinations p.info ≡ some d)
          × (length (rows p) ≡ u32 (reader.entries_num p))
          × IsRead p 0 (rows p))
      × IsTables rows ps

  import_sections-listed :
      (rows : Section → List Row) (ps : List Section) (result : List RelocationData) (s : Machine)
      → IsTables rows ps
      → import_sections reader destinations ps result s ≡ done (result ++ listed rows ps) s
  unfolding import_sections
  import_sections-listed rows [] result s h = ap (λ l. done l s) (sym (append-nil result))
  import_sections-listed rows (p ∷ ps) result s h = elim (Bool-cases (is_relocations p)) [
    | inr other ↦ rw (import_sections, other) (import_sections-listed rows ps result s h.1)
    | inl relocations ↦
        let (d, entry, size, read) = h.0 relocations in
        let start : start_of p ≡ d = rw (entry, start_of) refl in
        let here = import_entries-listed p d (rows p) 0 result s entry read in
        rw (import_sections, relocations, ← size, here, start)
          (import_sections-listed rows ps
              (result ++ map_while (relocation_at d) (imported (rows p))) s h.1
            ∙ ap (λ l. done l s)
                (append_assoc result (map_while (relocation_at d) (imported (rows p)))
                  (listed rows ps)))
  ]

-- If each section of relocations is for a section that the array of destinations has an entry for, and
-- has as many entries as it says, each with a symbol that can be read, then getImportRelocationData
-- ends and changes nothing; its result is, section by section in the order of the file, for each
-- entry with an imported symbol, in their order and up to the first whose library is not known, its
-- type, addend, name and library, and its place behind the destination of the section.
pub get_import_relocation_data-listed :
    (reader : Reader) (destinations : List ℕ) (rows : Section → List Row) (s : Machine)
    → IsTables reader destinations rows reader.sections
    → get_import_relocation_data reader destinations s
      ≡ done (listed reader destinations rows reader.sections) s
unfolding get_import_relocation_data
get_import_relocation_data-listed reader destinations rows s h =
    import_sections-listed reader destinations rows reader.sections [] s h
