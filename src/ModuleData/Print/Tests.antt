-- ===== src/ModuleData/Print/Tests.antt =====
-- A module with one relocation, printed as the strings among its arguments
-- (src/module/ModuleData.cpp).
use custom_rpxloader.Base.{◌≡◌, refl, false, List, [], ◌∷◌, ◌++◌}
use custom_rpxloader.Reader.{Text}
use custom_rpxloader.ImportRplInformation.{codes}
use custom_rpxloader.ModuleData.{RelocationData, module_data, add_relocation_data}
use custom_rpxloader.ModuleData.Print.{
  Argument, string_argument, int_argument, relocation_to_string, add_relocations, to_string,
}
use custom_rpxloader.StringTools.Format.{printed, strfmt}

abbrev strings : List Argument → Text
strings [] = []
strings (string_argument text ∷ arguments) = text ++ strings arguments
strings (int_argument n ∷ arguments) = strings arguments

abbrev relocation : RelocationData
relocation = record {
  type = 10;
  offset = 4;
  addend = 0;
  destination = 0x00900000;
  name = codes "OSReport";
  rpl_info = record { name = codes "coreinit"; is_data = false };
}

to_string_test :
    to_string
      (λ format arguments. printed (strings arguments))
      (add_relocation_data relocation module_data)
    ≡ codes "OSReportcoreinit"
unfolding to_string add_relocations relocation_to_string strfmt
to_string_test = refl
