-- ===== src/Start/Tests.antt =====
-- A loader that ends at 0x00812345 and a small module (src/main.cpp).
use custom_rpxloader.Base.{
  ℕ, ◌+◌, ◌*◌, ◌<◌, ◌≡◌, ◌≢◌, refl, true, none, List, [], ◌∷◌, length, arith,
}
use custom_rpxloader.Machine.{Machine}
use custom_rpxloader.Outcome.{machine, done}
use custom_rpxloader.Reader.{Section}
use custom_rpxloader.Trampolin.{entry_size, trampolin_list_length}
use custom_rpxloader.ImportRplInformation.{codes}
use custom_rpxloader.ModuleData.{ModuleData}
use custom_rpxloader.ModuleDataFactory.Placement.{
  count_section, size_of_module, target_address_of, initial, place_all,
}
use custom_rpxloader.DoRelocation.{do_relocation, relocate_all}
use custom_rpxloader.StringTools.Format.{printed}
use custom_rpxloader.Start.{
  exiting, System, module_end, application_memory_end, module_data_start, clear_bss, start_module,
}
use custom_rpxloader.Start.Layout.{place_all-spares_table}
use custom_rpxloader.Start.Waiting.{start_module-cleared}

abbrev text : List Section
text =
    record {
      name = codes ".text";
      type = 1;
      flags = 6;
      size = 0x1000;
      address = 0x02000000;
      info = 0;
      link = 0;
      index = 1;
      content = λ i. 0x60;
    }
    ∷ []

abbrev empty : Machine
empty = record { mem = λ _. 99; cache = [] }

-- The table and the module's lowest address.
layout_lem :
    (application_memory_end 0x00812345 ≡ 0x00812400) × (module_data_start 0x00812345 ≡ 0x00820000)
layout_lem = (refl, refl)

size_lem : size_of_module 0 text ≡ 0x1001
unfolding size_of_module count_section
size_lem = refl

place_all-spares_table_example :
    let table = application_memory_end 0x00812345 in
    let low = target_address_of module_end (size_of_module 0 text) in
    (0x00812345 < table)
    × (table + trampolin_list_length * entry_size < low)
    × ((x : ℕ)
        → x < low
        → (machine (place_all low module_end text (initial low (length text)) empty)).mem x ≡ 99)
place_all-spares_table_example =
    place_all-spares_table 0x00812345 text empty (omega arith) (omega arith)
      (omega (arith, size_lem))

abbrev sys : System
sys = record {
  title_id = 0x0005001010040200;
  file = none;
  parse = λ _. none;
  allocated = true;
  dyn_load = record { acquire = λ _ _. none; find_export = λ _ _ _ _. none };
  to_physical = λ a. a;
  value_at = 0;
  default_slot = true;
  slot = 1;
  messages = λ i. exiting;
  vsprintf = λ format text. printed text;
  tmp = 0x00811000;
  buffer_size = λ screen. 0x1000;
  memalign = λ alignment size. 0x10000000;
  ticks = λ ms. ms;
}

abbrev module_with_bss : ModuleData
module_with_bss = record {
  relocation_data_list = [];
  bss_addr = 0x00fcff00;
  bss_size = 16;
  sbss_addr = 0;
  sbss_size = 0;
  entrypoint = 0x00fc0000;
}

abbrev started : Machine
started = machine (start_module sys 0x00812400 module_with_bss empty)

start_lem : start_module sys 0x00812400 module_with_bss empty ≡ done 0x00fc0000 started
unfolding start_module do_relocation relocate_all clear_bss
start_lem = refl

start_module-cleared_example :
    (0x00fc0000 ≡ module_with_bss.entrypoint)
    × ((i : ℕ) → module_with_bss.bss_addr ≢ 0 → i < 16 → started.mem (0x00fcff00 + i) ≡ 0)
    × ((i : ℕ) → module_with_bss.sbss_addr ≢ 0 → i < 0 → started.mem (0 + i) ≡ 0)
start_module-cleared_example =
    start_module-cleared sys 0x00812400 0x00fc0000 module_with_bss empty started start_lem
