-- ===== src/ModuleDataFactory/Sample.antt =====
-- A module with sixteen bytes of code, as ELFIO reads it, for the tests of
-- src/module/ModuleDataFactory.cpp.
use custom_rpxloader.Base.{ℕ, some, [], ◌∷◌, if◌then◌else◌, ◌==◌}
use custom_rpxloader.Machine.{Machine}
use custom_rpxloader.Reader.{Section, Entry, Reader, Text}
use custom_rpxloader.ImportRplInformation.{codes}

abbrev pub section : Text → (type flags size address info index : ℕ) → Section
section name type flags size address info index = record {
  name = name;
  type = type;
  flags = flags;
  size = size;
  address = address;
  info = info;
  link = 4;
  index = index;
  content = λ i. 0x60;
}

abbrev pub entry : ℕ → ℕ → Entry
entry offset symbol = record { offset = offset; symbol = symbol; type = 1; addend = 0 }

abbrev pub text : Section
text = section (codes ".text") 1 6 16 0x02000000 0 1

-- Two relocations of the code: one for its own symbol `main`, one for the import `OSReport`.
abbrev pub reader : Reader
reader = record {
  sections =
      section (codes "") 0 0 0 0 0 0
      ∷ text
      ∷ section (codes ".rela.text") 4 0 24 0 1 2
      ∷ section (codes ".fimport_coreinit") 0x80000002 4 8 0xc0000000 0 3
      ∷ [];
  entry = 0x02000000;
  entries_num = λ p. 2;
  get_entry = λ p j. some (if j == 0 then entry 0x02000004 0 else entry 0x02000008 1);
  get_symbol = λ link n. some (
      if n == 0
      then record { name = codes "main"; value = 0x02000000; section_index = 1 }
      else record { name = codes "OSReport"; value = 0xc0000008; section_index = 3 });
  beyond = λ i. 0;
}

abbrev pub empty : Machine
empty = record { mem = λ _. 99; cache = [] }
