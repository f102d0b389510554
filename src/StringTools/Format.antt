-- ===== src/StringTools/Format.antt =====
-- `fmt`, `wfmt`, `strprintf`, `strfmt` and `char2wchar_t` (src/utils/StringTools.cpp). `vsprintf`
-- and `mbstowcs` are parameters: the text that is formatted, and the wide characters that a number
-- of bytes stands for; `none` is a negative result, for `strfmt` `negative`. The static buffers have 512 elements.
pub mod Fits
use custom_rpxloader.Base.{
  ℕ, ◌+◌, Bool, true, false, Option, none, some, List, [], ◌∷◌, ◌++◌, length, take, ltb, ◌==◌,
  if◌then◌else◌,
}
use custom_rpxloader.Reader.{Text}

-- A buffer: its text, and the number of elements that have been written, a final zero included.
pub record Buffer : Type 0 where
  pub text : List ℕ
  pub written : ℕ

abbrev pub buffer_size : ℕ
buffer_size = 512

-- `buffer[0] = 0`
abbrev pub cleared : Buffer
cleared = record { text = []; written = 1 }

-- A text and the zero behind it: a buffer after `vsprintf` or after `buffer[bt] = 0`.
abbrev pub terminated : List ℕ → Buffer
terminated text = record { text = text; written = length text + 1 }

-- `fmt`: the buffer, or NULL.
unfoldable pub fmt : Option Text → Option Buffer
fmt none = none
fmt (some text) = some (terminated text)

-- `strprintf`: the text of `str` and the result.
unfoldable pub strprintf : (str : Text) → Option Text → Text × ℕ
strprintf str none = (str, 0)
strprintf str (some text) = (text, length text)

-- What `vsprintf` does with a buffer: the text that it prints, or, with a negative result, the bytes
-- that it has written until then.
pub data Printed : Type 0 where
  printed : Text → Printed
  negative : List ℕ → Printed

-- `strfmt`: the text, and the bytes that are then at the start of its static buffer.
unfoldable pub strfmt : Printed → Text × List ℕ
strfmt (printed text) = (text, text ++ 0 ∷ [])
strfmt (negative []) = ([], 0 ∷ [])
strfmt (negative (c ∷ cs)) = ([], c ∷ cs)

-- A result of `mbstowcs` as the code tests it, `bt > 0`.
abbrev pub positive : Option (List ℕ) → Option (List ℕ)
positive none = none
positive (some []) = none
positive (some (w ∷ ws)) = some (w ∷ ws)

-- `wfmt`: the wide buffer, or NULL. `format` is `none` for NULL.
unfoldable pub wfmt :
    (mbstowcs : Text → ℕ → Option (List ℕ)) (format output : Option Text) → Option Buffer
wfmt mbstowcs none output = some cleared
wfmt mbstowcs (some []) output = some cleared
wfmt mbstowcs (some (c ∷ cs)) none = none
wfmt mbstowcs (some (c ∷ cs)) (some tmp) =
    let n = if ltb (length tmp) buffer_size then length tmp else buffer_size in
    elim (positive (mbstowcs tmp n)) [ none ↦ none | some ws ↦ some (terminated ws) ]

-- `char2wchar_t`: the wide text at `dest`, if the result is true. `none` is a null pointer.
unfoldable pub char2wchar_t :
    (mbstowcs : Text → ℕ → Option (List ℕ)) (str_char : Option Text) (dest : Bool) → Option Buffer
char2wchar_t mbstowcs none dest = none
char2wchar_t mbstowcs (some text) false = none
char2wchar_t mbstowcs (some text) true = elim (positive (mbstowcs text (length text))) [
  | none ↦ none
  | some ws ↦ some (terminated ws)
]
