-- ===== src/Start/Spared/Tests.antt =====
-- The start of a module with one relocation of its own and one import (src/main.cpp,
-- src/module/ModuleDataFactory.cpp).
use custom_rpxloader.Base.{
  ℕ, ◌≤◌, ◌≡◌, refl, ap, true, Option, none, some, List, [], inl, arith, ◌==◌, if◌then◌else◌,
}
use custom_rpxloader.Outcome.{machine}
use custom_rpxloader.Reader.{Entry, Reader}
use custom_rpxloader.ModuleDataFactory.Sample.{entry, text, reader, empty}
use custom_rpxloader.ModuleDataFactory.{load}
use custom_rpxloader.ModuleDataFactory.Placement.{size_of_module, count_section, is_allocated}
use custom_rpxloader.ModuleDataFactory.WellFormed.{IsWellFormed, AllWithin, AllImports}
use custom_rpxloader.ModuleDataFactory.Room.{load-in_room}
use custom_rpxloader.StringTools.Format.{printed, strfmt}
use custom_rpxloader.Start.{exiting, System, module_end, do_start, failure_message}
use custom_rpxloader.Start.Spared.{message_size, do_start-spares_loader}

abbrev offset_of : Option Entry → ℕ
offset_of none = 0
offset_of (some e) = e.offset

entry_bounds :
    (j : ℕ) (e : Entry)
    → some (if j == 0 then entry 0x02000004 0 else entry 0x02000008 1) ≡ some e
    → (0x02000004 ≤ e.offset) × (e.offset ≤ 0x02000008)
entry_bounds j e found = ground (arith, ap offset_of found)

reader-IsWellFormed : IsWellFormed reader
reader-IsWellFormed =
    (omega arith, (λ placed. cc, (code_within, (λ placed. cc, (λ placed. cc, tt)))))
  where
    code_within : is_allocated text ≡ true → AllWithin reader text reader.sections
    code_within placed = (
      λ own. cc,
      (
        λ own. cc,
        (
          λ own j e found.
              let bounds = entry_bounds j e found in
              (refl, omega (arith, bounds), omega (arith, bounds)),
          (λ own. cc, tt),
        ),
      ),
    )

reader-AllImports : AllImports reader reader.sections
reader-AllImports = (
  λ relocations. cc,
  (
    λ relocations. cc,
    (
      λ relocations j e symbol found known imported.
          let bounds = entry_bounds j e found in
          (text, refl, (refl, omega (arith, bounds), omega (arith, bounds))),
      (λ relocations. cc, tt),
    ),
  ),
)

abbrev parse : List ℕ → Option Reader
parse buffer = some reader

load-in_room_example :
    (machine (load (some []) parse true module_end 0x10000 0x00812400 500 empty)).mem 0x00900000
    ≡ 99
unfolding size_of_module count_section
load-in_room_example =
    load-in_room (some []) parse true module_end 0x10000 0x00812400 500 empty [] reader 0x00900000
      refl refl reader-IsWellFormed (omega arith) (omega arith) (inl (omega arith)) (omega arith)

abbrev sys : System
sys = record {
  title_id = 0x0005001010040200;
  file = some [];
  parse = parse;
  allocated = true;
  dyn_load = record { acquire = λ _ _. some 1; find_export = λ _ _ _ _. some 0x01000000 };
  to_physical = λ a. a;
  value_at = 0x10000000;
  default_slot = true;
  slot = 1;
  messages = λ i. exiting;
  vsprintf = λ format text. printed text;
  tmp = 0x00811000;
  buffer_size = λ screen. 0x1000;
  memalign = λ alignment size. 0x10000000;
  ticks = λ ms. ms;
}

message_lem : message_size sys ≤ 512
unfolding failure_message strfmt
message_lem = omega arith

do_start-spares_loader_example :
    (machine (do_start sys 0x00812345 3 none empty)).mem 0x00801000 ≡ 99
do_start-spares_loader_example =
    do_start-spares_loader sys 0x00812345 3 none empty 0x00801000 (omega arith) (omega arith)
      message_lem (omega arith) [] reader (omega arith) (omega arith) refl refl reader-IsWellFormed
      reader-AllImports (omega arith)
