-- ===== src/StringTools.antt =====
-- src/utils/StringTools.cpp, on lists of bytes: `EndsWith` and `stringSplit` here, which runs on fuel,
-- one round for each piece, and the other functions in the children.
pub mod Split
pub mod Path
pub mod Edit
pub mod Format
pub mod Compare
mod Tests
use custom_rpxloader.Base.{
  ℕ, zero, suc, ◌+◌, ◌-◌, Bool, true, false, Option, none, some, List, [], ◌∷◌, ◌++◌, length, take,
  drop, ltb, ◌==◌, if◌then◌else◌,
}
use custom_rpxloader.Reader.{Text}
use custom_rpxloader.ImportRplInformation.{starts_with}
use custom_rpxloader.ModuleDataFactory.Placement.{text_eq}

-- `EndsWith`
unfoldable pub ends_with : Text → Text → Bool
ends_with a b =
    if ltb (length a) (length b) then false else text_eq (drop (length a - length b) a) b

-- std::string::find: the first place of a text.
unfoldable pub find : Text → Text → Option ℕ
find s [] = if starts_with s [] then some 0 else none
find s (c ∷ text) =
    let later = find s text in
    if starts_with s (c ∷ text) then some 0 else elim later [ none ↦ none | some i ↦ some (suc i) ]

-- The loop of `stringSplit`; `none` is out of fuel.
unfoldable pub string_split : (fuel : ℕ) → Text → Text → Option (List Text)
string_split zero value splitter = none
string_split (suc fuel) value splitter = elim (find splitter value) [
  | none ↦ some (value ∷ [])
  | some index ↦
      let first = take index value in
      let rest = string_split fuel (drop (index + length splitter) value) splitter in
      if index + length splitter == length value
      then some (first ∷ [] ∷ [])
      else if ltb (length value) (index + length splitter)
      then some (first ∷ [])
      else elim rest [ none ↦ none | some others ↦ some (first ∷ others) ]
]
