-- ===== src/ModuleDataFactory/Image/Tests.antt =====
-- The word that the sample module's own relocation is for, and its entry point (src/module/ModuleDataFactory.cpp).
use custom_rpxloader.Base.{
  ℕ, ◌%◌, ◌^◌, ◌↔◌, ◌≤◌, ◌≡◌, refl, ap, true, Option, none, some, List, [], ◌∷◌, ◌++◌, inl, inr,
  arith, length,
}
use custom_rpxloader.Machine.{read32}
use custom_rpxloader.Outcome.{Outcome, done, failed, fatal, machine}
use custom_rpxloader.Reader.{Reader, Section, Entry}
use custom_rpxloader.ModuleData.{ModuleData, add_all, module_data}
use custom_rpxloader.ElfUtils.{link_one}
use custom_rpxloader.ImportRplInformation.{codes, create_import_rpl_information, starts_with}
use custom_rpxloader.ModuleDataFactory.Placement.{
  Placing, count_section, size_of_module, initial, place_all, place, locate, store_section, fill,
  remember,
}
use custom_rpxloader.ModuleDataFactory.Linking.{
  adjust, link_all, link_section, link_sections, link_entries, link_entry, link_symbol, link_call,
}
use custom_rpxloader.ModuleDataFactory.Imports.{
  get_import_relocation_data, import_sections, import_entries, info_map,
}
use custom_rpxloader.ModuleDataFactory.{load, load_reader}
use custom_rpxloader.ModuleDataFactory.Sample.{section, reader, text, entry, empty}
use custom_rpxloader.ModuleDataFactory.Image.{load-word, load-byte}
use custom_rpxloader.ModuleDataFactory.EntryPoint.{load-entrypoint_iff}
use custom_rpxloader.ModuleDataFactory.Placement.Symbols.{code_size}

abbrev parse : List ℕ → Option Reader
parse buffer = some reader

abbrev run : Outcome ModuleData
run = load (some []) parse true 0x00fd0000 0x10000 0x00900000 500 empty

abbrev loaded : Outcome ModuleData → ModuleData
loaded (done m s) = m
loaded (failed s) = module_data
loaded (fatal s) = module_data

abbrev placing : Outcome Placing
placing =
    place_all 0x00fcff00 0x00fd0000 reader.sections (initial 0x00fcff00 (length reader.sections))
      empty

abbrev placed : Outcome Placing → Placing
placed (done v s) = v
placed (failed s) = initial 0 0
placed (fatal s) = initial 0 0

run_lem : run ≡ done (loaded run) (machine run)
unfolding load load_reader size_of_module count_section place_all place locate store_section fill
    remember link_all link_section link_sections link_entries link_entry link_symbol link_call
    link_one adjust get_import_relocation_data import_sections import_entries info_map
    create_import_rpl_information starts_with add_all
run_lem = refl

placing_lem : placing ≡ done (placed placing) (machine placing)
unfolding place_all place locate store_section fill remember
placing_lem = refl

abbrev before : List Section
before = section (codes "") 0 0 0 0 0 0 ∷ []

abbrev relocations : Section
relocations = section (codes ".rela.text") 4 0 24 0 1 2

abbrev imports : List Section
imports = section (codes ".fimport_coreinit") 0x80000002 4 8 0xc0000000 0 3 ∷ []

abbrev offset_of : Option Entry → ℕ
offset_of none = 0
offset_of (some e) = e.offset

later_offset :
    (j : ℕ) (e : Entry) → 1 ≤ j → reader.get_entry relocations j ≡ some e → e.offset ≡ 0x02000008
later_offset j e later found = ground (arith, ap offset_of found)

load-word_example : read32 (machine run).mem 0x00fcff04 ≡ 0x00fcff00
unfolding size_of_module count_section adjust place_all place locate store_section fill remember
load-word_example =
    load-word (some []) parse true 0x00fd0000 0x10000 0x00900000 500 [] reader before
      (relocations ∷ imports) (before ++ text ∷ []) imports before (relocations ∷ imports) text
      relocations text 0 4 0 (entry 0x02000004 0)
      (record { name = codes "main"; value = 0x02000000; section_index = 1 }) empty (machine run)
      (machine placing) (loaded run) (placed placing) refl refl run_lem placing_lem (omega arith)
      refl refl refl refl (omega arith) refl refl refl refl refl (omega arith) (omega arith)
      (omega arith) refl refl
      λ x from to. (
        inr (omega arith),
        (λ j e later found. inl (omega (arith, later_offset j e later found))),
        (λ own. cc, tt),
        (λ allocated. cc, (λ allocated. cc, tt)),
      )

load-entrypoint_iff_example :
    ((loaded run).entrypoint ≡ 0x00fcff00) ↔ (code_size before % 2 ^ 32 ≡ 0)
unfolding size_of_module count_section
load-entrypoint_iff_example =
    load-entrypoint_iff (some []) parse true 0x00fd0000 0x10000 0x00900000 500 [] reader before
      (relocations ∷ imports) text 0 empty (machine run) (loaded run) refl refl run_lem refl refl
      refl

offset_bounds :
    (j : ℕ) (e : Entry)
    → reader.get_entry relocations j ≡ some e
    → (0x02000004 ≤ e.offset) × (e.offset ≤ 0x02000008)
offset_bounds j e found = ground (arith, ap offset_of found)

load-byte_example : (machine run).mem 0x00fcff0c ≡ 0x60
unfolding size_of_module count_section place_all place locate store_section fill remember
load-byte_example =
    load-byte (some []) parse true 0x00fd0000 0x10000 0x00900000 500 [] reader before
      (relocations ∷ imports) text 12 empty (machine run) (machine placing) (loaded run)
      (placed placing) refl refl run_lem placing_lem refl refl (omega arith)
      (inl refl, (inl refl, tt)) (inr (omega arith))
      (
        (λ allocated. cc),
        (
          λ allocated. (
            λ own. cc,
            (
              λ own. cc,
              (λ own j e found. inr (omega (arith, offset_bounds j e found)), (λ own. cc, tt)),
            ),
          ),
          (λ allocated. cc, (λ allocated. cc, tt)),
        ),
      )
