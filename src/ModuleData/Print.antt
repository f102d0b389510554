-- ===== src/ModuleData/Print.antt =====
-- `ModuleData::toString` and `RelocationData::toString` (src/module/ModuleData.cpp,
-- src/module/RelocationData.cpp). `vsprintf` is a parameter, of a format and its arguments. Only the
-- text that `strfmt` gives is kept here, not what it leaves in its static buffer.
mod Tests
use custom_rpxloader.Base.{ℕ, List, [], ◌∷◌, ◌++◌, if◌then◌else◌}
use custom_rpxloader.Reader.{Text}
use custom_rpxloader.ImportRplInformation.{ImportRplInformation, codes}
use custom_rpxloader.ModuleData.{RelocationData, ModuleData}
use custom_rpxloader.StringTools.Format.{Printed, strfmt}

pub data Argument : Type 0 where
  string_argument : Text → Argument
  int_argument : ℕ → Argument

module _ (vsprintf : Text → List Argument → Printed) where
  -- `RelocationData::toString`
  unfoldable pub relocation_to_string : RelocationData → Text
  relocation_to_string r =
      (strfmt (
        vsprintf
          (codes "%s destination: %08X offset: %08X type: %02X addend: %d rplName: %s isData: %d "
            ++ b'\n' ∷ [])
          (string_argument r.name
            ∷ int_argument r.destination
            ∷ int_argument r.offset
            ∷ int_argument r.type
            ∷ int_argument r.addend
            ∷ string_argument r.rpl_info.name
            ∷ int_argument (if r.rpl_info.is_data then 1 else 0)
            ∷ []))).0

  -- The loop of `ModuleData::toString`, with the text so far in `res`.
  unfoldable pub add_relocations : Text → List RelocationData → Text
  add_relocations res [] = res
  add_relocations res (reloc ∷ rest) = add_relocations (res ++ relocation_to_string reloc) rest

  -- `ModuleData::toString`
  unfoldable pub to_string : ModuleData → Text
  to_string m =
      add_relocations
        ((strfmt (
          vsprintf (codes "Entrypoint %08X, bss: %08X (%d), bss: %08X (%d)" ++ b'\n' ∷ []) (
            int_argument m.entrypoint
            ∷ int_argument m.bss_addr
            ∷ int_argument m.bss_size
            ∷ int_argument m.sbss_addr
            ∷ int_argument m.sbss_size
            ∷ []))).0)
        m.relocation_data_list
