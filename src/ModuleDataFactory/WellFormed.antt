-- ===== src/ModuleDataFactory/WellFormed.antt =====
-- The modules whose relocations stay in their own sections (src/module/ModuleDataFactory.cpp).
use custom_rpxloader.Base.{
  ℕ, ◌+◌, ◌≤◌, ◌≡◌, true, false, some, List, [], ◌∷◌, get_elem?, ◌==◌, ltb, ◌||◌,
}
use custom_rpxloader.Machine.{u32}
use custom_rpxloader.Reader.{Reader, Section, Entry, Symbol}
use custom_rpxloader.ModuleDataFactory.Placement.{is_placed, is_allocated, import_base}
use custom_rpxloader.ModuleDataFactory.Placement.Landed.{IsNumbered}
use custom_rpxloader.ModuleDataFactory.Linking.{symbol_of}
use custom_rpxloader.ModuleDataFactory.Imports.{sht_rela, sht_rel}

module _ (reader : Reader) where
  -- The entry is for a word of the section, which `load` puts into memory.
  abbrev pub IsWithin : Section → Entry → Type 0
  IsWithin p e =
      (is_placed p ≡ true)
      × (u32 p.address ≤ u32 e.offset)
      × (u32 e.offset + 4 ≤ u32 p.address + u32 p.size)

  -- The entries that `linkSection` reads for a section are for words of it.
  abbrev pub AllWithin : Section → List Section → Type 0
  AllWithin p [] = Unit {0}
  AllWithin p (q ∷ qs) =
      ((q.info == p.index) ≡ true
        → (j : ℕ) (e : Entry) → reader.get_entry q j ≡ some e
        → IsWithin p e)
      × AllWithin p qs

  abbrev pub EachWithin : List Section → Type 0
  EachWithin [] = Unit {0}
  EachWithin (p ∷ ps) = (is_allocated p ≡ true → AllWithin p reader.sections) × EachWithin ps

  -- A module whose sections are numbered as they stand, and whose relocations stay in the sections
  -- that they are for.
  abbrev pub IsWellFormed : Type 0
  IsWellFormed = IsNumbered 0 reader.sections × EachWithin reader.sections

  -- The imports that an entry of the section asks for are for words of a section that is placed.
  abbrev pub ImportsOf : Section → Type 0
  ImportsOf q =
      (j : ℕ) (e : Entry) (symbol : Symbol)
      → reader.get_entry q j ≡ some e
      → symbol_of reader q e ≡ some symbol
      → ltb (u32 symbol.value) import_base ≡ false
      → (p : Section) × (get_elem? reader.sections q.info ≡ some p) × IsWithin p e

  -- The same for all sections of relocations.
  abbrev pub AllImports : List Section → Type 0
  AllImports [] = Unit {0}
  AllImports (q ∷ qs) =
      ((q.type == sht_rela || q.type == sht_rel) ≡ true → ImportsOf q) × AllImports qs
