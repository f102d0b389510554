-- ===== src/ModuleDataFactory/Placement.antt =====
-- The two section loops at the start of `load` (src/module/ModuleDataFactory.cpp): the size of the
-- module, and the copy of its sections to their places.
pub mod Steps
pub mod Bounds
pub mod Layout
pub mod Landed
pub mod Symbols
use custom_rpxloader.Base.{
  ℕ, ◌+◌, ◌-◌, ◌*◌, ◌/◌, ◌%◌, ◌^◌, Bool, true, false, not, ◌&&◌, ◌||◌, Option, none, some, List, [],
  ◌∷◌, ltb, leb, ◌==◌, nonzero, if◌then◌else◌, set, replicate, bit_and,
}
use custom_rpxloader.Machine.{Machine, u32, add32, sub32, memset, memcpy, sync_range}
use custom_rpxloader.Outcome.{Cmd, Outcome, done, failed, fatal, and_then, ◌>>=◌}
use custom_rpxloader.Reader.{Section, Text}
use custom_rpxloader.ImportRplInformation.{codes}
use custom_rpxloader.ModuleData.{ModuleData, module_data, set_bss_location, set_sbss_location}

-- SHT_PROGBITS, SHT_NOBITS, the type of an import section, SHF_ALLOC
abbrev pub sht_progbits : ℕ
sht_progbits = 1

abbrev pub sht_nobits : ℕ
sht_nobits = 8

abbrev pub sht_rpl_imports : ℕ
sht_rpl_imports = 0x80000002

abbrev pub shf_alloc : ℕ
shf_alloc = 2

abbrev pub text_eq : Text → Text → Bool
text_eq [] [] = true
text_eq [] (d ∷ t) = false
text_eq (c ∷ s) [] = false
text_eq (c ∷ s) (d ∷ t) = c == d && text_eq s t

-- A section that takes room in memory.
abbrev pub is_allocated : Section → Bool
is_allocated p =
    (p.type == sht_progbits || p.type == sht_nobits) && nonzero (bit_and p.flags shf_alloc)

-- One round of the first loop, and the loop, from the size `acc`.
unfoldable pub count_section : ℕ → Section → ℕ
count_section acc p =
    if p.type == sht_rpl_imports
    then acc
    else if is_allocated p
    then u32 (acc + p.size + 1)
    else acc

unfoldable pub size_of_module : ℕ → List Section → ℕ
size_of_module acc [] = acc
size_of_module acc (p ∷ ps) = size_of_module (count_section acc p) ps

-- The variables of the second loop.
pub record Placing : Type 0 where
  pub base_offset : ℕ
  pub offset_data : ℕ
  pub destinations : List ℕ
  pub module_data : ModuleData

abbrev pub text_base : ℕ
text_base = 0x02000000

abbrev pub data_base : ℕ
data_base = 0x10000000

abbrev pub import_base : ℕ
import_base = 0xc0000000

-- The module's lowest address: the room below `destination_address`, rounded down to 256 bytes.
abbrev pub target_address_of : ℕ → ℕ → ℕ
target_address_of destination_address size = bit_and (sub32 destination_address size) 0xffffff00

-- The variables before the second loop.
abbrev pub initial : ℕ → ℕ → Placing
initial target_address sec_num = record {
  base_offset = target_address;
  offset_data = target_address;
  destinations = replicate sec_num 0;
  module_data = module_data;
}

-- The part of the second loop that works out where a section goes: its destination and the new
-- variables; `none` for an address that is not supported.
unfoldable pub locate : Section → Placing → Option (ℕ × Placing)
locate p v =
    let section_size = u32 p.size in
    let address = u32 p.address in
    let destination = add32 v.base_offset address in
    if leb text_base address && ltb address data_base
    then some (
      sub32 destination text_base,
      record {
        base_offset = add32 v.base_offset section_size;
        offset_data = add32 v.offset_data section_size;
        destinations = set v.destinations p.index (sub32 v.base_offset text_base);
        module_data = v.module_data;
      },
    )
    else if leb data_base address && ltb address import_base
    then some (
      sub32 destination data_base,
      record v { destinations = set v.destinations p.index (sub32 v.base_offset data_base) },
    )
    else none

-- The bytes of a section put at its destination: zeros, or its content.
unfoldable pub fill : Section → ℕ → Machine → Machine
fill p destination s =
    if p.type == sht_nobits
    then memset destination 0 (u32 p.size) s
    else if p.type == sht_progbits
    then memcpy destination p.content (u32 p.size) s
    else s

-- What is remembered of a section's place.
unfoldable pub remember : Section → ℕ → ModuleData → ModuleData
remember p destination m =
    if text_eq p.name (codes ".bss")
    then set_bss_location destination (u32 p.size) m
    else if text_eq p.name (codes ".sbss")
    then set_sbss_location destination (u32 p.size) m
    else m

-- The second half of the loop's body: the two checks, which end in `OSFatal`, and the copy.
unfoldable pub store_section :
    (target_address destination_address : ℕ) → Section → ℕ → Placing → Cmd Placing
store_section target_address destination_address p destination v s =
    if ltb destination target_address
    then fatal s
    else if ltb destination_address (add32 destination (u32 p.size))
    then fatal s
    else done (record v { module_data = remember p destination v.module_data })
        (sync_range destination (u32 p.size) (fill p destination s))

-- A section that the second loop puts into memory.
abbrev pub is_placed : Section → Bool
is_placed p =
    not (p.type == sht_rpl_imports || text_eq p.name (codes ".wut_load_bounds")) && is_allocated p

unfoldable pub place : (target_address destination_address : ℕ) → Section → Placing → Cmd Placing
place target_address destination_address p v s =
    if p.type == sht_rpl_imports || text_eq p.name (codes ".wut_load_bounds")
    then done v s
    else if is_allocated p
    then elim (locate p v) [
      | none ↦ failed s
      | some (destination, v') ↦ store_section target_address destination_address p destination v' s
    ]
    else done v s

-- The second loop.
unfoldable pub place_all :
    (target_address destination_address : ℕ) → List Section → Placing → Cmd Placing
place_all target_address destination_address [] v = done v
place_all target_address destination_address (p ∷ ps) v = do
  v' ← place target_address destination_address p v
  place_all target_address destination_address ps v'
