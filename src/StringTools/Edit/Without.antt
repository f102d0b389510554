-- ===== src/StringTools/Edit/Without.antt =====
-- A text without a byte (src/utils/StringTools.cpp, `removeCharFromString`).
use custom_rpxloader.Base.{
  ℕ, zero, suc, ◌+◌, ◌<◌, ◌≡◌, refl, sym, ap, ◌∙◌, true, false, none, some, [], ◌∷◌, ◌++◌, length,
  take, drop, ◌==◌, if◌then◌else◌, arith, inl, inr, Option-cases,
}
use custom_rpxloader.Reader.{Text}
use custom_rpxloader.StringTools.Path.{erase}
use custom_rpxloader.StringTools.Edit.{find_char, remove_char_from_string}

abbrev pub without : ℕ → Text → Text
without d [] = []
without d (c ∷ t) =
    let kept = c ∷ without d t in let rest = without d t in if c == d then rest else kept

without-none : (d : ℕ) (t : Text) → find_char d t ≡ none → without d t ≡ t
unfolding find_char
without-none d [] h = refl
without-none d (c ∷ t) h = elim (Option-cases (find_char d t)) [
  | inl e ↦ ground (arith, rw (find_char, e) at h, without-none d t e)
  | inr (i, e) ↦ ground (arith, rw (find_char, e) at h)
]

find_char-zero : (d c : ℕ) (t : Text) → find_char d (c ∷ t) ≡ some 0 → (c == d) ≡ true
unfolding find_char
find_char-zero d c t h = elim (Option-cases (find_char d t)) [
  | inl e ↦ ground (arith, rw (find_char, e) at h)
  | inr (i, e) ↦ ground (arith, rw (find_char, e) at h)
]

find_char-suc :
    (d c i : ℕ) (t : Text)
    → find_char d (c ∷ t) ≡ some (suc i)
    → ((c == d) ≡ false) × (find_char d t ≡ some i)
unfolding find_char
find_char-suc d c i t h = elim (Option-cases (find_char d t)) [
  | inl e ↦ ground (arith, rw (find_char, e) at h)
  | inr (j, e) ↦ ground (arith, rw (find_char, e) at h)
]

erase-suc : (i c : ℕ) (t : Text) → erase (suc i) (c ∷ t) ≡ c ∷ erase i t
erase-suc i c t =
    let next : suc i + 1 ≡ suc (i + 1) = omega arith in
    ap (λ (k : ℕ). c ∷ (take i t ++ drop k (c ∷ t))) next

-- The byte at the first place, and the rest.
without-erase :
    (d : ℕ) (t : Text) (i : ℕ)
    → find_char d t ≡ some i
    → (without d (erase i t) ≡ without d t) × (length (erase i t) + 1 ≡ length t)
unfolding find_char
without-erase d [] i h = cc
without-erase d (c ∷ t) zero h = (rw (find_char-zero d c t h) refl, omega arith)
without-erase d (c ∷ t) (suc i) h =
    let later = find_char-suc d c i t h in
    let rest = without-erase d t i later.1 in
    (
      ap (without d) (erase-suc i c t) ∙ rw (later.0, rest.0) refl,
      ap (λ (l : Text). length l + 1) (erase-suc i c t) ∙ omega (arith, rest.1),
    )

-- With fuel for one round more than the text has bytes, `removeCharFromString` ends and gives the
-- text without the bytes to be removed, in the same order.
pub remove_char_from_string-without :
    (fuel d : ℕ) (t : Text)
    → length t < fuel
    → remove_char_from_string fuel t d ≡ some (without d t)
unfolding remove_char_from_string
remove_char_from_string-without zero d t h = absurd (omega arith)
remove_char_from_string-without (suc fuel) d t h = elim (Option-cases (find_char d t)) [
  | inl e ↦ rw (e, remove_char_from_string) (ap some (sym (without-none d t e)))
  | inr (i, e) ↦
      let less = without-erase d t i e in
      rw (e, remove_char_from_string)
        (remove_char_from_string-without fuel d (erase i t) (omega (arith, less.1))
          ∙ ap some less.0)
]
