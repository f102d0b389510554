-- ===== src/StringTools/Path.antt =====
-- `FullpathToFilename` and `RemoveDoubleSlashs` (src/utils/StringTools.cpp).
pub mod Filename
pub mod Squeeze
use custom_rpxloader.Base.{
  ℕ, zero, suc, ◌+◌, ◌-◌, ◌≡◌, ◌≢◌, ◌⊎◌, refl, sym, ap, ◌∙◌, Bool, true, false, not, ◌&&◌, Option,
  none, some, List, [], ◌∷◌, ◌++◌, length, take, drop, get_or, ltb, ◌==◌, if◌then◌else◌, arith, inl,
  inr, Bool-cases,
}
use mathlib.Core.List.{append_assoc}
use custom_rpxloader.Reader.{Text}

abbrev pub slash : ℕ
slash = b'/'

abbrev pub is_empty : Text → Bool
is_empty [] = true
is_empty (c ∷ t) = false

-- The loop of `FullpathToFilename`: the text at `ptr`, and the text at `Filename`.
unfoldable pub filename_from : (ptr filename : Text) → Text
filename_from [] filename = filename
filename_from (c ∷ ptr) filename =
    filename_from ptr (if c == slash && not (is_empty ptr) then ptr else filename)

-- `FullpathToFilename`; `none` is the null pointer, and a pointer into the path is the text there.
unfoldable pub fullpath_to_filename : Option Text → Option Text
fullpath_to_filename none = none
fullpath_to_filename (some path) = some (filename_from path path)

-- std::string::erase(i, 1)
abbrev pub erase : ℕ → Text → Text
erase i str = take i str ++ drop (i + 1) str

abbrev pub doubled : ℕ → Text → Bool
doubled i str = get_or str (i - 1) 0 == slash && get_or str i 0 == slash

-- The loop of `RemoveDoubleSlashs`, with `rounds` the number of bytes from `i` on: a round erases
-- one or passes one.
unfoldable pub remove_from : (rounds i : ℕ) → Text → Text
remove_from zero i str = str
remove_from (suc rounds) i str =
    let double = doubled i str in
    remove_from rounds (if double then i else i + 1) (if double then erase i str else str)

-- `RemoveDoubleSlashs`
unfoldable pub remove_double_slashs : Text → Text
remove_double_slashs str = remove_from (length str - 1) 1 str
