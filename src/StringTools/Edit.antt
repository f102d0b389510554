-- ===== src/StringTools/Edit.antt =====
-- `byte_to_binary`, `removeCharFromString` and `str_replace` (src/utils/StringTools.cpp). The loops
-- run on fuel: one round more than the text has bytes, or the eight bits of a byte.
pub mod Binary
pub mod Without
pub mod Replace
use custom_rpxloader.Base.{
  ℕ, zero, suc, ◌+◌, ◌-◌, ◌*◌, ◌/◌, ◌^◌, Bool, true, false, Option, none, some, List, [], ◌∷◌, ◌++◌,
  length, take, drop, ltb, ◌==◌, if◌then◌else◌, bit_and,
}
use custom_rpxloader.Machine.{u32, sub32}
use custom_rpxloader.Reader.{Text}
use custom_rpxloader.StringTools.{find}
use custom_rpxloader.StringTools.Path.{erase}

-- The loop of `byte_to_binary`: `z` runs through the powers of 2 down to 1.
unfoldable pub binary_from : (rounds z x : ℕ) → Text
binary_from zero z x = []
binary_from (suc rounds) z x =
    (if bit_and x z == z then b'1' else b'0') ∷ binary_from rounds (z / 2) x

-- `byte_to_binary`, of an `int32_t`
unfoldable pub byte_to_binary : ℕ → Text
byte_to_binary x = binary_from 8 128 x

-- std::string::find of one byte
unfoldable pub find_char : ℕ → Text → Option ℕ
find_char d [] = none
find_char d (c ∷ text) =
    let later = find_char d text in
    if c == d then some 0 else elim later [ none ↦ none | some i ↦ some (suc i) ]

-- `removeCharFromString`; `none` is out of fuel.
unfoldable pub remove_char_from_string : (fuel : ℕ) → Text → ℕ → Option Text
remove_char_from_string zero output to_be_removed = none
remove_char_from_string (suc fuel) output to_be_removed = elim (find_char to_be_removed output) [
  | none ↦ some output
  | some position ↦ remove_char_from_string fuel (erase position output) to_be_removed
]

-- The first loop of `str_replace`: the number of places of `rep`.
unfoldable pub count_places : (fuel : ℕ) → (ins rep : Text) → Option ℕ
count_places zero ins rep = none
count_places (suc fuel) ins rep = elim (find rep ins) [
  | none ↦ some 0
  | some i ↦ elim (count_places fuel (drop (i + length rep) ins) rep) [
    | none ↦ none
    | some n ↦ some (suc n)
  ]
]

-- What `str_replace` ends with: NULL, the text in its block, or a write behind the block.
pub data Replaced : Type 0 where
  null : Replaced
  text : Text → Replaced
  overrun : Replaced

-- The second loop, with the text before `tmp` in `out`, in a block of so many bytes. Each round
-- copies `with` with its final zero, and so does the last copy. `none` is the use of a null pointer.
unfoldable pub replace_places : (capacity count : ℕ) → (orig rep with out : Text) → Option Replaced
replace_places capacity zero orig rep with out =
    some (if ltb capacity (length (out ++ orig) + 1) then overrun else text (out ++ orig))
replace_places capacity (suc count) orig rep with out = elim (find rep orig) [
  | none ↦ none
  | some i ↦
      let out' = out ++ (take i orig ++ with) in
      let later = replace_places capacity count (drop (i + length rep) orig) rep with out' in
      if ltb capacity (length out' + 1) then some overrun else later
]

-- The size that is allocated, an `int` that becomes a `size_t`.
abbrev pub replaced_size : (orig rep with : Text) → ℕ → ℕ
replaced_size orig rep with count = u32 (length orig + sub32 (length with) (length rep) * count + 1)

-- `str_replace`; `none` is out of fuel or the use of a null pointer. `malloc` says whether so many
-- bytes are there.
unfoldable pub str_replace :
    (malloc : ℕ → Bool) (fuel : ℕ) → (orig rep with : Option Text) → Option Replaced
str_replace malloc fuel none rep with = some null
str_replace malloc fuel (some orig) none with = some null
str_replace malloc fuel (some orig) (some []) with = some null
str_replace malloc fuel (some orig) (some (c ∷ cs)) with =
    let rep = c ∷ cs in
    let with' : Text = elim with [ none ↦ [] | some t ↦ t ] in
    elim (count_places fuel orig rep) [
      | none ↦ none
      | some count ↦
          let size = replaced_size orig rep with' count in
          if malloc size then replace_places size count orig rep with' [] else some null
    ]
