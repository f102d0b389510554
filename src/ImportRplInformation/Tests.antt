-- ===== src/ImportRplInformation/Tests.antt =====
-- Section names of src/module/ImportRPLInformation.h.
use custom_rpxloader.Base.{◌≡◌, ◌↔◌, refl, true, false, none, some, ◌++◌}
use custom_rpxloader.ImportRplInformation.{
  ImportRplInformation, codes, starts_with, create_import_rpl_information,
}
use custom_rpxloader.ImportRplInformation.Laws.{prefix, create_import_rpl_information_iff}

data_section :
    create_import_rpl_information (codes ".dimport_gx2")
    ≡ some (record { name = codes "gx2"; is_data = true })
unfolding create_import_rpl_information starts_with
data_section = refl

other_section : create_import_rpl_information (codes ".text_and_more") ≡ none
unfolding create_import_rpl_information starts_with
other_section = refl

abbrev coreinit : ImportRplInformation
coreinit = record { name = codes "coreinit"; is_data = false }

create_import_rpl_information_iff_example :
    (create_import_rpl_information (codes ".fimport_coreinit") ≡ some coreinit)
    ↔ (codes ".fimport_coreinit" ≡ prefix false ++ codes "coreinit")
create_import_rpl_information_iff_example =
    create_import_rpl_information_iff (codes ".fimport_coreinit") coreinit
