-- ===== src/ModuleDataFactory/Imports/Tests.antt =====
-- A module with a relocation for one of its own symbols and two for functions of coreinit
-- (src/module/ModuleDataFactory.cpp).
use custom_rpxloader.Base.{ℕ, ◌≡◌, refl, false, some, List, [], ◌∷◌, ◌==◌, if◌then◌else◌}
use custom_rpxloader.Machine.{Machine}
use custom_rpxloader.Outcome.{done}
use custom_rpxloader.Reader.{Section, Entry, Symbol, Reader, Text}
use custom_rpxloader.ImportRplInformation.{codes, create_import_rpl_information, starts_with}
use custom_rpxloader.ModuleData.{RelocationData}
use custom_rpxloader.ModuleDataFactory.Imports.{info_map, get_import_relocation_data}
use custom_rpxloader.ModuleDataFactory.Imports.Listed.{
  Row, IsTables, get_import_relocation_data-listed,
}

abbrev section : Text → ℕ → ℕ → Section
section name type index = record {
  name = name;
  type = type;
  flags = 0;
  size = 0;
  address = 0;
  info = 0;
  link = 2;
  index = index;
  content = λ i. 0;
}

abbrev entry : ℕ → ℕ → Entry
entry offset symbol = record { offset = offset; symbol = symbol; type = 10; addend = 0 }

abbrev own : Symbol
own = record { name = codes "main"; value = 0x02000000; section_index = 0 }

abbrev report : Symbol
report = record { name = codes "OSReport"; value = 0xc0000008; section_index = 0 }

abbrev rows : List Row
rows = (entry 0x02000004 1, report) ∷ (entry 0x02000008 0, own) ∷ (entry 0x0200000c 1, report) ∷ []

abbrev symbol_at : ℕ → Symbol
symbol_at n = if n == 0 then own else report

abbrev reader : Reader
reader = record {
  sections =
      section (codes ".fimport_coreinit") 0x80000002 0 ∷ section (codes ".rela.text") 4 1 ∷ [];
  entry = 0x02000000;
  entries_num = λ p. 3;
  get_entry = λ p j.
      if j == 0
      then some (entry 0x02000004 1)
      else if j == 1
      then some (entry 0x02000008 0)
      else some (entry 0x0200000c 1);
  get_symbol = λ link n. some (symbol_at n);
  beyond = λ i. 0;
}

abbrev expected : ℕ → RelocationData
expected offset = record {
  type = 10;
  offset = offset;
  addend = 0;
  destination = 0x02fc0000;
  name = codes "OSReport";
  rpl_info = record { name = codes "coreinit"; is_data = false };
}

reader-IsTables : IsTables reader (0x00fc0000 ∷ []) (λ p. rows) reader.sections
reader-IsTables =
    (λ q. cc, (λ q. (0x00fc0000, refl, refl, (refl, refl, (refl, refl, (refl, refl, tt)))), tt))

abbrev machine : Machine
machine = record { mem = λ _. 0; cache = [] }

get_import_relocation_data-listed_example :
    get_import_relocation_data reader (0x00fc0000 ∷ []) machine
    ≡ done (expected 4 ∷ expected 12 ∷ []) machine
unfolding info_map create_import_rpl_information starts_with
get_import_relocation_data-listed_example =
    get_import_relocation_data-listed reader (0x00fc0000 ∷ []) (λ p. rows) machine reader-IsTables
