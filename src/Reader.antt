-- ===== src/Reader.antt =====
-- What the loader uses of an ELF file that the ELFIO library (src/elfio, not modelled) has read:
-- its sections, its relocation entries and its symbols, as the accessors return them. Sizes,
-- addresses, flags and offsets are 64 bits wide in ELFIO; an addend is its 64-bit pattern.
use custom_rpxloader.Base.{ℕ, Option, List, ◌≡◌, get_elem?, some}

abbrev pub Text : Type 0
Text = List ℕ

pub record Section : Type 0 where
  pub name : Text
  pub type : ℕ
  pub flags : ℕ
  pub size : ℕ
  pub address : ℕ
  pub info : ℕ
  pub link : ℕ
  pub index : ℕ
  -- the bytes at `get_data()`
  pub content : ℕ → ℕ

-- relocation_section_accessor::get_entry
pub record Entry : Type 0 where
  pub offset : ℕ
  pub symbol : ℕ
  pub type : ℕ
  pub addend : ℕ

-- symbol_section_accessor::get_symbol, the values that are used
pub record Symbol : Type 0 where
  pub name : Text
  pub value : ℕ
  pub section_index : ℕ

-- `none` is a false result. `get_symbol link symbol` reads the symbol table in the section `link`.
pub record Reader : Type 0 where
  pub sections : List Section
  pub entry : ℕ
  pub entries_num : Section → ℕ
  pub get_entry : Section → ℕ → Option Entry
  pub get_symbol : ℕ → ℕ → Option Symbol
  -- not of ELFIO: the word of memory that `load` reads for a section number behind the end of its
  -- array of destinations
  pub beyond : ℕ → ℕ

-- ELFIO numbers the sections by their place in the file.
abbrev pub IsIndexed : List Section → Type 0
IsIndexed sections = (i : ℕ) (p : Section) → get_elem? sections i ≡ some p → p.index ≡ i
