-- ===== src/ImportRplInformation/Laws.antt =====
-- Which section names src/module/ImportRPLInformation.h accepts.
use custom_rpxloader.Base.{
  ◌≡◌, ◌↔◌, refl, Bool, true, false, some, [], ◌∷◌, ◌++◌, arith, length, drop, Bool-cases, inl, inr,
  ==_refl,
}
use custom_rpxloader.Reader.{Text}
use custom_rpxloader.ImportRplInformation.{
  ImportRplInformation, fimport, dimport, starts_with, create_import_rpl_information,
}

starts_with-append : (p rest : Text) → starts_with p (p ++ rest) ≡ true
unfolding starts_with
starts_with-append [] rest = refl
starts_with-append (c ∷ p) rest = rw (==_refl, starts_with-append p rest)

drop-append : (p rest : Text) → drop (length p) (p ++ rest) ≡ rest
drop-append [] rest = refl
drop-append (c ∷ p) rest = drop-append p rest

append-drop : (p t : Text) → starts_with p t ≡ true → t ≡ p ++ drop (length p) t
unfolding starts_with
append-drop [] t h = refl
append-drop (c ∷ p) [] h = cc
append-drop (c ∷ p) (d ∷ t) h = ground (arith, append-drop p t)

-- The prefix of a section of functions, or of data.
abbrev pub prefix : Bool → Text
prefix true = dimport
prefix false = fimport

abbrev info : Bool → Text → ImportRplInformation
info b n = record { name = n; is_data = b }

accepts : (b : Bool) (n : Text) → create_import_rpl_information (prefix b ++ n) ≡ some (info b n)
unfolding create_import_rpl_information starts_with
accepts true n = ground arith
accepts false n = ground arith

inverts :
    (t : Text) (i : ImportRplInformation)
    → create_import_rpl_information t ≡ some i
    → t ≡ prefix i.is_data ++ i.name
unfolding create_import_rpl_information
inverts t i h = elim (Bool-cases (starts_with fimport t)) [
  | inl yes_f ↦ ground (arith, append-drop fimport t yes_f)
  | inr no_f ↦ elim (Bool-cases (starts_with dimport t)) [
    | inl yes_d ↦ ground (arith, append-drop dimport t yes_d)
    | inr no_d ↦ ground arith
  ]
]

-- A section name is accepted exactly when it is ".fimport_" or ".dimport_" followed by the
-- library's name, and tells then which of the two it was.
pub create_import_rpl_information_iff :
    (raw_section_name : Text) (i : ImportRplInformation)
    → (create_import_rpl_information raw_section_name ≡ some i)
      ↔ (raw_section_name ≡ prefix i.is_data ++ i.name)
create_import_rpl_information_iff t i = (inverts t i, λ e. rw e (accepts i.is_data i.name))
