-- ===== src/ModuleData.antt =====
-- src/module/ModuleData.h and src/module/RelocationData.h: what the loader learns of a module.
pub mod Print
use custom_rpxloader.Base.{ℕ, List, [], ◌∷◌, ◌++◌}
use custom_rpxloader.Reader.{Text}
use custom_rpxloader.ImportRplInformation.{ImportRplInformation}

-- `type` is a `char`; `offset` and `destination` are 32 bits wide; `addend` is an `int32_t`.
pub record RelocationData : Type 0 where
  pub type : ℕ
  pub offset : ℕ
  pub addend : ℕ
  pub destination : ℕ
  pub name : Text
  pub rpl_info : ImportRplInformation

pub record ModuleData : Type 0 where
  pub relocation_data_list : List RelocationData
  pub bss_addr : ℕ
  pub bss_size : ℕ
  pub sbss_addr : ℕ
  pub sbss_size : ℕ
  pub entrypoint : ℕ

abbrev pub module_data : ModuleData
module_data = record {
  relocation_data_list = [];
  bss_addr = 0;
  bss_size = 0;
  sbss_addr = 0;
  sbss_size = 0;
  entrypoint = 0;
}

abbrev pub set_bss_location : ℕ → ℕ → ModuleData → ModuleData
set_bss_location addr size m = record m { bss_addr = addr; bss_size = size }

abbrev pub set_sbss_location : ℕ → ℕ → ModuleData → ModuleData
set_sbss_location addr size m = record m { sbss_addr = addr; sbss_size = size }

abbrev pub set_entrypoint : ℕ → ModuleData → ModuleData
set_entrypoint addr m = record m { entrypoint = addr }

abbrev pub add_relocation_data : RelocationData → ModuleData → ModuleData
add_relocation_data r m = record m { relocation_data_list = m.relocation_data_list ++ r ∷ [] }

-- The loop that adds a list of relocations.
unfoldable pub add_all : List RelocationData → ModuleData → ModuleData
add_all [] m = m
add_all (r ∷ rs) m = add_all rs (add_relocation_data r m)
