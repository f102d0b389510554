-- ===== src/ModuleDataFactory/Tests.antt =====
-- A small module at the end of the code area: two code bytes, three data bytes and a .bss of four
-- (src/module/ModuleDataFactory.cpp).
use custom_rpxloader.Base.{ℕ, ◌+◌, ◌%◌, ◌^◌, ◌≡◌, ◌↔◌, refl, List, [], ◌∷◌, ◌++◌, length, arith}
use custom_rpxloader.Machine.{Machine, blit, add32, sub32}
use custom_rpxloader.Machine.Laws.{SameOutside}
use custom_rpxloader.Outcome.{done, machine}
use custom_rpxloader.Reader.{Section, Text}
use custom_rpxloader.ImportRplInformation.{codes}
use custom_rpxloader.ModuleDataFactory.Placement.{
  target_address_of, initial, size_of_module, count_section, place_all, place, locate, fill,
  remember, store_section, Placing,
}
use custom_rpxloader.ModuleDataFactory.Placement.Bounds.{place_all-in_room}
use custom_rpxloader.ModuleDataFactory.Placement.Layout.{base_after, destination}
use custom_rpxloader.ModuleDataFactory.Placement.Symbols.{misplaced, adjust-destination_iff}
use custom_rpxloader.ModuleDataFactory.Linking.{adjust, at}
use custom_rpxloader.ModuleData.{module_data, set_bss_location}

abbrev section : Text → ℕ → ℕ → ℕ → ℕ → Section
section name type address size index = record {
  name = name;
  type = type;
  flags = 2;
  size = size;
  address = address;
  info = 0;
  link = 0;
  index = index;
  content = λ i. i + 1;
}

abbrev sections_before : List Section
sections_before = section (codes "") 0 0 0 0 ∷ section (codes ".text") 1 0x02000000 2 1 ∷ []

abbrev data_section : Section
data_section = section (codes ".data") 1 0x10000000 3 2

abbrev bss : List Section
bss = section (codes ".bss") 8 0x10000004 4 3 ∷ []

abbrev sections : List Section
sections = sections_before ++ data_section ∷ bss

abbrev empty : Machine
empty = record { mem = λ _. 99; cache = [] }

abbrev low : ℕ
low = 0xfcff00

low_lem : target_address_of 0xfd0000 (size_of_module 0 sections) ≡ low
unfolding size_of_module count_section
low_lem = refl

-- The code, then the data and the .bss behind it.
placed_bytes :
    let m = (machine (place_all low 0xfd0000 sections (initial low 4) empty)).mem in
    m low
      ∷ m (low + 1)
      ∷ m (low + 2)
      ∷ m (low + 4)
      ∷ m (low + 5)
      ∷ m (low + 6)
      ∷ m (low + 9)
      ∷ m (low + 10)
      ∷ []
    ≡ 1 ∷ 2 ∷ 1 ∷ 3 ∷ 99 ∷ 0 ∷ 0 ∷ 99 ∷ []
unfolding place_all place locate fill remember store_section blit
placed_bytes = refl

place_all-in_room_example :
    let low = target_address_of 0xfd0000 (size_of_module 0 sections) in
    SameOutside low 0xfd0000 empty.mem
      (machine (place_all low 0xfd0000 sections (initial low (length sections)) empty)).mem
place_all-in_room_example = place_all-in_room sections 0xfd0000 empty (omega arith) (omega arith)

-- The run of the copy loop over these sections.
abbrev placed : Placing
placed = record {
  base_offset = low + 2;
  offset_data = low + 2;
  destinations =
      0 ∷ sub32 low 0x02000000 ∷ sub32 (low + 2) 0x10000000 ∷ sub32 (low + 2) 0x10000000 ∷ [];
  module_data = set_bss_location (low + 6) 4 module_data;
}

abbrev after : Machine
after = machine (place_all low 0xfd0000 sections (initial low 4) empty)

run_lem : place_all low 0xfd0000 sections (initial low 4) empty ≡ done placed after
unfolding place_all place locate fill remember store_section blit
run_lem = refl

-- A byte of .data: all the code stands before it.
adjust-destination_iff_example :
    (adjust low placed.offset_data (0x10000000 + 1)
      ≡ at (add32 (destination (base_after low sections_before) data_section) 1))
    ↔ (misplaced data_section sections_before bss % 2 ^ 32 ≡ 0)
adjust-destination_iff_example =
    adjust-destination_iff sections_before bss data_section low 0xfd0000 4 placed empty after 1
      run_lem (omega arith) refl (omega arith) (omega arith)
