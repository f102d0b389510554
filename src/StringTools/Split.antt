-- ===== src/StringTools/Split.antt =====
-- The pieces of a text (src/utils/StringTools.cpp, `stringSplit`).
use custom_rpxloader.Base.{
  ℕ, zero, suc, ◌+◌, ◌≤◌, ◌<◌, ◌≡◌, ◌≢◌, refl, ap, sym, ◌∙◌, true, false, none, some, List, [], ◌∷◌,
  ◌++◌, length, take, drop, ltb, ◌==◌, arith, inl, inr, Bool-cases, Option-cases, length-append,
}
use custom_rpxloader.Reader.{Text}
use custom_rpxloader.ImportRplInformation.{starts_with}
use custom_rpxloader.StringTools.{find, string_split}

-- The pieces with the splitter between them.
abbrev pub join : Text → List Text → Text
join splitter [] = []
join splitter (piece ∷ []) = piece
join splitter (piece ∷ next ∷ pieces) = piece ++ splitter ++ join splitter (next ∷ pieces)

-- The splitter is in none of the pieces.
abbrev pub AllWithout : Text → List Text → Type 0
AllWithout splitter [] = Unit {0}
AllWithout splitter (piece ∷ pieces) = (find splitter piece ≡ none) × AllWithout splitter pieces

pub starts_with-drop : (s t : Text) → starts_with s t ≡ true → t ≡ s ++ drop (length s) t
unfolding starts_with
starts_with-drop [] t h = refl
starts_with-drop (c ∷ s) [] h = cc
starts_with-drop (c ∷ s) (d ∷ t) h =
    let same : d ≡ c = ground arith in
    let rest : t ≡ s ++ drop (length s) t = starts_with-drop s t (ground arith) in
    ap (λ (a : ℕ). a ∷ t) same ∙ ap (λ (l : Text). c ∷ l) rest

-- A text that starts so does so with more behind it.
pub starts_with-take :
    (s t : Text) (n : ℕ) → starts_with s (take n t) ≡ true → starts_with s t ≡ true
unfolding starts_with
starts_with-take [] t n h = refl
starts_with-take (c ∷ s) t zero h = cc
starts_with-take (c ∷ s) [] (suc n) h = cc
starts_with-take (c ∷ s) (d ∷ t) (suc n) h = ground (arith, starts_with-take s t n)

find-zero : (s t : Text) → find s t ≡ some 0 → starts_with s t ≡ true
unfolding find
find-zero s [] h = ground arith
find-zero s (c ∷ t) h = elim (Option-cases (find s t)) [
  | inl e ↦ ground (arith, rw (find, e) at h)
  | inr (i, e) ↦ ground (arith, rw (find, e) at h)
]

find-suc :
    (s t : Text) (c i : ℕ)
    → find s (c ∷ t) ≡ some (suc i)
    → (starts_with s (c ∷ t) ≡ false) × (find s t ≡ some i)
unfolding find
find-suc s t c i h = elim (Option-cases (find s t)) [
  | inl e ↦ ground (arith, rw (find, e) at h)
  | inr (j, e) ↦ ground (arith, rw (find, e) at h)
]

find-nil : (s : Text) (i : ℕ) → find s [] ≢ some (suc i)
unfolding find
find-nil s i h = ground arith

drop-nil : (n : ℕ) → drop {A = ℕ} n [] ≡ []
drop-nil zero = refl
drop-nil (suc n) = refl

drop-add : (i n : ℕ) (t : Text) → drop (i + n) t ≡ drop n (drop i t)
drop-add zero n t = ap (λ k. drop k t) (omega arith)
drop-add (suc i) n [] = drop-nil (suc i + n) ∙ sym (drop-nil n)
drop-add (suc i) n (c ∷ t) =
    let sum : suc i + n ≡ suc (i + n) = omega arith in ap (λ k. drop k (c ∷ t)) sum ∙ drop-add i n t

-- A text at the first place of the splitter.
pub find-split :
    (s t : Text) (i : ℕ) → find s t ≡ some i → t ≡ take i t ++ s ++ drop (length s) (drop i t)
find-split s t zero h = starts_with-drop s t (find-zero s t h)
find-split s [] (suc i) h = absurd (find-nil s i h)
find-split s (c ∷ t) (suc i) h = ap (λ (l : Text). c ∷ l) (find-split s t i (find-suc s t c i h).1)

-- The piece before the first place does not hold the splitter.
find-before : (s t : Text) (i : ℕ) → s ≢ [] → find s t ≡ some i → find s (take i t) ≡ none
unfolding find starts_with
find-before [] t i some_splitter h = absurd (some_splitter refl)
find-before (d ∷ s) t zero some_splitter h = refl
find-before (d ∷ s) [] (suc i) some_splitter h = refl
find-before (d ∷ s) (c ∷ t) (suc i) some_splitter h =
    let later = find-suc (d ∷ s) t c i h in
    rw (find-before (d ∷ s) t i some_splitter later.1)
      (elim (Bool-cases (starts_with (d ∷ s) (c ∷ take i t))) [
        | inl e ↦ cc (starts_with-take (d ∷ s) (c ∷ t) (suc i) e, later.0)
        | inr e ↦ rw e refl
      ])

pub find-bounded : (s t : Text) (i : ℕ) → find s t ≡ some i → i + length s ≤ length t
find-bounded s t zero h =
    omega (
      arith,
      ap length (starts_with-drop s t (find-zero s t h)),
      length-append s (drop (length s) t),
    )
find-bounded s [] (suc i) h = absurd (find-nil s i h)
find-bounded s (c ∷ t) (suc i) h = omega (arith, find-bounded s t i (find-suc s t c i h).1)

pub find-empty : (s : Text) → s ≢ [] → find s [] ≡ none
unfolding find starts_with
find-empty [] h = absurd (h refl)
find-empty (c ∷ s) h = refl

pub length-positive : (t : Text) → t ≢ [] → 0 < length t
length-positive [] h = absurd (h refl)
length-positive (c ∷ t) h = omega arith

pub length-zero : (t : Text) → length t ≡ 0 → t ≡ []
length-zero [] h = refl
length-zero (c ∷ t) h = absurd (omega arith)

-- The rest behind the first place.
pub length-drop : (n : ℕ) (t : Text) → n ≤ length t → length (drop n t) + n ≡ length t
length-drop zero t h = omega arith
length-drop (suc n) [] h = absurd (omega arith)
length-drop (suc n) (c ∷ t) h = omega (arith, length-drop n t (omega arith))

-- A text and its pieces.
pub record IsSplit (splitter value : Text) (pieces : List Text) : Type 0 where
  pub some_piece : pieces ≢ []
  pub joined : join splitter pieces ≡ value
  pub without : AllWithout splitter pieces

pub join-cons :
    (splitter piece : Text) (pieces : List Text)
    → pieces ≢ []
    → join splitter (piece ∷ pieces) ≡ piece ++ splitter ++ join splitter pieces
join-cons splitter piece [] h = absurd (h refl)
join-cons splitter piece (next ∷ pieces) h = refl

-- A piece before the pieces of the rest.
IsSplit-cons :
    (splitter value : Text) (index : ℕ) (pieces : List Text)
    → splitter ≢ []
    → find splitter value ≡ some index
    → IsSplit splitter (drop (index + length splitter) value) pieces
    → IsSplit splitter value (take index value ∷ pieces)
IsSplit-cons splitter value index pieces some_splitter found k = record {
  some_piece = λ q. cc;
  joined =
      join-cons splitter (take index value) pieces k.some_piece
      ∙ ap (λ (l : Text). take index value ++ splitter ++ l)
          (k.joined ∙ drop-add index (length splitter) value)
      ∙ sym (find-split splitter value index found);
  without = (find-before splitter value index some_splitter found, k.without);
}

IsSplit-single :
    (splitter value : Text) → find splitter value ≡ none → IsSplit splitter value (value ∷ [])
IsSplit-single splitter value e = record { some_piece = λ q. cc; joined = refl; without = (e, tt) }

-- For a splitter that is not empty, with fuel for one round more than the text has bytes,
-- `stringSplit` ends: its pieces with the splitter between them are the text, and the splitter is
-- in none of them.
pub string_split-IsSplit :
    (fuel : ℕ) (value splitter : Text)
    → splitter ≢ []
    → length value < fuel
    → (pieces : List Text) × (string_split fuel value splitter ≡ some pieces)
      × IsSplit splitter value pieces
unfolding string_split
string_split-IsSplit zero value splitter some_splitter enough = absurd (omega arith)
string_split-IsSplit (suc fuel) value splitter some_splitter enough =
    elim (Option-cases (find splitter value)) [
      | inl e ↦ (value ∷ [], rw (e, string_split) refl, IsSplit-single splitter value e)
      | inr (index, e) ↦
          let bounded = find-bounded splitter value index e in
          let left = length-drop (index + length splitter) value bounded in
          elim (Bool-cases (index + length splitter == length value)) [
            | inl last ↦
                let nothing : drop (index + length splitter) value ≡ [] =
                  length-zero (drop (index + length splitter) value) (ground arith) in
                (
                  take index value ∷ [] ∷ [],
                  rw (e, last, string_split) refl,
                  IsSplit-cons splitter value index ([] ∷ []) some_splitter e
                      (rw nothing (IsSplit-single splitter [] (find-empty splitter some_splitter))),
                )
            | inr more ↦
                let inside : ltb (length value) (index + length splitter) ≡ false = ground arith in
                let (pieces, found, k) =
                  string_split-IsSplit fuel (drop (index + length splitter) value) splitter
                    some_splitter (omega (arith, left, length-positive splitter some_splitter)) in
                (
                  take index value ∷ pieces,
                  rw (e, more, inside, found, string_split) refl,
                  IsSplit-cons splitter value index pieces some_splitter e k,
                )
          ]
    ]

-- With an empty splitter and a text that is not empty, `stringSplit` does not end: no fuel is
-- enough.
pub string_split-endless : (fuel c : ℕ) (value : Text) → string_split fuel (c ∷ value) [] ≡ none
unfolding string_split find starts_with
string_split-endless zero c value = refl
string_split-endless (suc fuel) c value =
    let later = string_split-endless fuel c value in
    let not_last : (0 == suc (length value)) ≡ false = ground arith in
    let inside : ltb (suc (length value)) 0 ≡ false = ground arith in
    rw (not_last, inside, later) refl
