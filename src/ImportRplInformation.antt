-- ===== src/ImportRplInformation.antt =====
-- src/module/ImportRPLInformation.h: the library that an import section stands for.
pub mod Laws
mod Tests
use Prim.Native.Char.{code}
use Prim.Native.String.{String}
use custom_rpxloader.Base.{
  ℕ, Bool, true, false, ◌&&◌, Option, none, some, List, [], ◌∷◌, ltb, ◌==◌, length, drop,
  if◌then◌else◌,
}
use custom_rpxloader.Reader.{Text}

-- The bytes of an ASCII text.
abbrev pub codes : String → Text
codes String.[] = []
codes (String.◌∷◌ c s) = code c ∷ codes s

pub record ImportRplInformation : Type 0 where
  pub name : Text
  pub is_data : Bool

abbrev pub fimport : Text
fimport = codes ".fimport_"

abbrev pub dimport : Text
dimport = codes ".dimport_"

-- std::equal(prefix.begin(), prefix.end(), text.begin()), on a text that is long enough.
unfoldable pub starts_with : Text → Text → Bool
starts_with [] text = true
starts_with (c ∷ prefix) [] = false
starts_with (c ∷ prefix) (d ∷ text) = c == d && starts_with prefix text

-- createImportRPLInformation
unfoldable pub create_import_rpl_information : Text → Option ImportRplInformation
create_import_rpl_information raw_section_name =
    if ltb (length raw_section_name) (length fimport)
    then none
    else if starts_with fimport raw_section_name
    then some (record { name = drop (length fimport) raw_section_name; is_data = false })
    else if starts_with dimport raw_section_name
    then some (record { name = drop (length dimport) raw_section_name; is_data = true })
    else none
