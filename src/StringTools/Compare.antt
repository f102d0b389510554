-- ===== src/StringTools/Compare.antt =====
-- `strtokcmp` and `strextcmp` (src/utils/StringTools.cpp), with the C functions that they use on
-- texts: `strtok`, `strcasecmp` and `strrchr`. A result is the pattern of an `int32_t`.
pub mod Tokens
pub mod Extension
use custom_rpxloader.Base.{
  ℕ, zero, suc, ◌+◌, ◌-◌, ◌^◌, Bool, true, false, ◌&&◌, ◌||◌, Option, none, some, List, [], ◌∷◌,
  ◌++◌, length, take, leb, ◌==◌, if◌then◌else◌,
}
use custom_rpxloader.Machine.{sub32}
use custom_rpxloader.Reader.{Text}

-- tolower in the C locale
abbrev pub to_lower : ℕ → ℕ
to_lower c = if leb b'A' c && leb c b'Z' then c + 32 else c

-- strcasecmp: 0, or the difference of the first two bytes that differ.
unfoldable pub strcasecmp : Text → Text → ℕ
strcasecmp [] [] = 0
strcasecmp [] (d ∷ t) = sub32 0 (to_lower d)
strcasecmp (c ∷ s) [] = to_lower c
strcasecmp (c ∷ s) (d ∷ t) =
    let rest = strcasecmp s t in
    if to_lower c == to_lower d then rest else sub32 (to_lower c) (to_lower d)

abbrev pub minus_one : ℕ
minus_one = 2 ^ 32 - 1

abbrev pub is_separator : Text → ℕ → Bool
is_separator [] c = false
is_separator (d ∷ separators) c = c == d || is_separator separators c

-- The tokens that the calls of `strtok` give one after the other: the runs of bytes that are no
-- separators. `token` is the run that has been read so far.
unfoldable pub tokens_from : (separators token : Text) → Text → List Text
tokens_from separators [] [] = []
tokens_from separators (d ∷ token) [] = (d ∷ token) ∷ []
tokens_from separators [] (c ∷ text) =
    tokens_from separators (if is_separator separators c then [] else c ∷ []) text
tokens_from separators (d ∷ token) (c ∷ text) =
    let ended = (d ∷ token) ∷ tokens_from separators [] text in
    let longer = tokens_from separators (d ∷ (token ++ c ∷ [])) text in
    if is_separator separators c then ended else longer

-- The loop of `strtokcmp`.
unfoldable pub is_token : Text → List Text → Bool
is_token string [] = false
is_token string (token ∷ tokens) = strcasecmp string token == 0 || is_token string tokens

-- `strtokcmp`: of `compare`, the first 511 bytes are looked at. `none` is a null pointer.
unfoldable pub strtokcmp : (string compare : Option Text) → (separator : Text) → ℕ
strtokcmp none compare separator = minus_one
strtokcmp (some string) none separator = minus_one
strtokcmp (some string) (some compare) separator =
    if is_token string (tokens_from separator [] (take 511 compare)) then 0 else minus_one

-- strrchr: the text from the last place of the byte on.
unfoldable pub strrchr : Text → ℕ → Option Text
strrchr [] d = none
strrchr (c ∷ text) d = elim (strrchr text d) [
  | some found ↦ some found
  | none ↦ if c == d then some (c ∷ text) else none
]

abbrev pub behind : Text → Text
behind [] = []
behind (c ∷ text) = text

-- `strextcmp`
unfoldable pub strextcmp : (string extension : Option Text) → (seperator : ℕ) → ℕ
strextcmp none extension seperator = minus_one
strextcmp (some string) none seperator = minus_one
strextcmp (some string) (some extension) seperator = elim (strrchr string seperator) [
  | none ↦ minus_one
  | some ptr ↦ strcasecmp (behind ptr) extension
]
