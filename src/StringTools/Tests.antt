-- ===== src/StringTools/Tests.antt =====
-- Paths, names and pieces of text (src/utils/StringTools.cpp).
use custom_rpxloader.Base.{
  ℕ, ◌≡◌, refl, true, false, Option, none, some, List, [], ◌∷◌, arith, take,
}
use custom_rpxloader.Reader.{Text}
use custom_rpxloader.ImportRplInformation.{codes, starts_with}
use custom_rpxloader.StringTools.{find, string_split, ends_with}
use custom_rpxloader.StringTools.Split.{IsSplit, string_split-IsSplit, string_split-endless}
use custom_rpxloader.StringTools.Path.{
  filename_from, fullpath_to_filename, remove_from, remove_double_slashs,
}
use custom_rpxloader.StringTools.Edit.{
  text, binary_from, byte_to_binary, find_char, remove_char_from_string, count_places,
  replace_places, str_replace,
}
use custom_rpxloader.StringTools.Edit.Replace.{str_replace-join}
use custom_rpxloader.StringTools.Format.{terminated, wfmt}
use custom_rpxloader.StringTools.Compare.{
  strcasecmp, minus_one, tokens_from, is_token, strtokcmp, strrchr, strextcmp,
}

pieces_lem :
    string_split 6 (codes "a//b/") (codes "/")
    ≡ some (codes "a" ∷ codes "" ∷ codes "b" ∷ codes "" ∷ [])
unfolding string_split find starts_with
pieces_lem = refl

ends_with_lem :
    (ends_with (codes "payload.rpx") (codes ".rpx") ≡ true)
    × (ends_with (codes "rpx") (codes ".rpx") ≡ false)
unfolding ends_with
ends_with_lem = (refl, refl)

string_split-IsSplit_example :
    (pieces : List Text) × (string_split 6 (codes "a//b/") (codes "/") ≡ some pieces)
    × IsSplit (codes "/") (codes "a//b/") pieces
string_split-IsSplit_example =
    string_split-IsSplit 6 (codes "a//b/") (codes "/") (λ q. cc) (omega arith)

string_split-endless_example : string_split 1000 (codes "a//b/") [] ≡ none
string_split-endless_example = string_split-endless 1000 97 (codes "//b/")

filename_lem :
    (fullpath_to_filename (some (codes "wiiu/apps/a.rpx")) ≡ some (codes "a.rpx"))
    × (fullpath_to_filename (some (codes "wiiu/apps/")) ≡ some (codes "apps/"))
unfolding fullpath_to_filename filename_from
filename_lem = (refl, refl)

double_lem : remove_double_slashs (codes "//sd:///a/b") ≡ codes "/sd:/a/b"
unfolding remove_double_slashs remove_from
double_lem = refl

binary_lem : byte_to_binary 0x1a5 ≡ codes "10100101"
unfolding byte_to_binary binary_from
binary_lem = refl

replace_lem :
    str_replace (λ n. true) 9 (some (codes "a b  c")) (some (codes " ")) (some (codes "%20"))
    ≡ some (text (codes "a%20b%20%20c"))
unfolding str_replace count_places replace_places find starts_with
replace_lem = refl

-- Pieces of "a b  c".
abbrev words : List Text
words = codes "a" ∷ codes "b" ∷ codes "" ∷ codes "c" ∷ []

words_lem : string_split 9 (codes "a b  c") (codes " ") ≡ some words
unfolding string_split find starts_with
words_lem = refl

str_replace-join_example :
    str_replace (λ n. true) 9 (some (codes "a b  c")) (some (codes " ")) (some (codes "%20"))
    ≡ some (text (codes "a%20b%20%20c"))
str_replace-join_example =
    str_replace-join (λ n. true) 9 (codes "a b  c") (codes " ") (codes "%20") words (omega arith)
      (λ q. cc) words_lem (omega arith) (omega arith) (omega arith) refl

-- Each byte as one wide character.
abbrev widen : Text → ℕ → Option (List ℕ)
widen s n = some (take n s)

wide_lem : wfmt widen (some (codes "%s")) (some (codes "abc")) ≡ some (terminated (codes "abc"))
unfolding wfmt
wide_lem = refl

extension_lem :
    (strextcmp (some (codes "payload.RPX")) (some (codes "rpx")) b'.' ≡ 0)
    × (strextcmp (some (codes "payload")) (some (codes "rpx")) b'.' ≡ minus_one)
unfolding strextcmp strrchr strcasecmp
extension_lem = (refl, refl)

tokens_lem : tokens_from (codes ",;") [] (codes ";rpx,,elf") ≡ codes "rpx" ∷ codes "elf" ∷ []
unfolding tokens_from
tokens_lem = refl

without_lem : remove_char_from_string 6 (codes "a-b-c") b'-' ≡ some (codes "abc")
unfolding remove_char_from_string find_char
without_lem = refl

token_lem : strtokcmp (some (codes "ELF")) (some (codes "rpx,elf")) (codes ",;") ≡ 0
unfolding strtokcmp tokens_from is_token strcasecmp
token_lem = refl
