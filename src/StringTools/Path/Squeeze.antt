-- ===== src/StringTools/Path/Squeeze.antt =====
-- `RemoveDoubleSlashs` leaves one slash of each run (src/utils/StringTools.cpp).
use custom_rpxloader.Base.{
  ℕ, suc, ◌+◌, ◌-◌, ◌≡◌, refl, sym, ap, ◌∙◌, Bool, true, false, ◌&&◌, ◌||◌, [], ◌∷◌, ◌++◌, length,
  take, drop, get_or, ◌==◌, if◌then◌else◌, arith, inl, inr, Bool-cases, length-append,
}
use mathlib.Core.List.{append_assoc}
use custom_rpxloader.Reader.{Text}
use custom_rpxloader.StringTools.Path.{slash, erase, doubled, remove_from, remove_double_slashs}

-- The text behind the byte `c` without the slashes that follow a slash.
abbrev pub squeeze : ℕ → Text → Text
squeeze c [] = []
squeeze c (d ∷ t) =
    let kept = d ∷ squeeze d t in
    let rest = squeeze c t in if c == slash && d == slash then rest else kept

abbrev pub squeezed : Text → Text
squeezed [] = []
squeezed (c ∷ t) = c ∷ squeeze c t

get_or-append : (front : Text) (c : ℕ) (t : Text) → get_or (front ++ c ∷ t) (length front) 0 ≡ c
get_or-append [] c t = refl
get_or-append (d ∷ front) c t = get_or-append front c t

take-append : (front t : Text) → take (length front) (front ++ t) ≡ front
take-append [] t = refl
take-append (d ∷ front) t = ap (λ (l : Text). d ∷ l) (take-append front t)

drop-append : (front t : Text) → drop (length front) (front ++ t) ≡ t
drop-append [] t = refl
drop-append (d ∷ front) t = drop-append front t

length-snoc : (front : Text) (c : ℕ) → length (front ++ c ∷ []) ≡ length front + 1
length-snoc front c = length-append front (c ∷ [])

erase-append :
    (front : Text) (d : ℕ) (t : Text) → erase (length front) (front ++ d ∷ t) ≡ front ++ t
erase-append front d t =
    let whole : front ++ d ∷ t ≡ (front ++ d ∷ []) ++ t = sym (append_assoc front (d ∷ []) t) in
    let behind : drop (length front + 1) (front ++ d ∷ t) ≡ t =
      rw (sym (length-snoc front d), whole) (drop-append (front ++ d ∷ []) t) in
    rw (take-append front (d ∷ t), behind) refl

doubled-append :
    (front : Text) (c d : ℕ) (t : Text)
    → doubled (length front + 1) (front ++ c ∷ d ∷ t) ≡ (c == slash && d == slash)
doubled-append front c d t =
    let whole : front ++ c ∷ d ∷ t ≡ (front ++ c ∷ []) ++ d ∷ t =
      sym (append_assoc front (c ∷ []) (d ∷ t)) in
    let before : length front + 1 - 1 ≡ length front = omega arith in
    let here : get_or (front ++ c ∷ d ∷ t) (length front + 1) 0 ≡ d =
      rw (sym (length-snoc front c), whole) (get_or-append (front ++ c ∷ []) d t) in
    rw (before, here, get_or-append front c (d ∷ t)) refl

remove_from-step :
    (rounds i : ℕ) (str : Text) (double : Bool)
    → doubled i str ≡ double
    → remove_from (suc rounds) i str
      ≡ remove_from rounds (if double then i else i + 1) (if double then erase i str else str)
unfolding remove_from
remove_from-step rounds i str double e = rw (sym e) refl

-- The loop, with the byte `c` before the place that it has come to.
remove_from-squeeze :
    (front : Text) (c : ℕ) (t : Text)
    → remove_from (length t) (length front + 1) (front ++ c ∷ t) ≡ front ++ c ∷ squeeze c t
unfolding remove_from
remove_from-squeeze front c [] = refl
remove_from-squeeze front c (d ∷ t) =
    let whole : front ++ c ∷ d ∷ t ≡ (front ++ c ∷ []) ++ d ∷ t =
      sym (append_assoc front (c ∷ []) (d ∷ t)) in
    elim (Bool-cases (c == slash && d == slash)) [
      | inl e ↦
          let erased : erase (length front + 1) (front ++ c ∷ d ∷ t) ≡ front ++ c ∷ t =
            rw (sym (length-snoc front c), whole) (erase-append (front ++ c ∷ []) d t)
            ∙ append_assoc front (c ∷ []) t in
          remove_from-step (length t) (length front + 1) (front ++ c ∷ d ∷ t) true
            (doubled-append front c d t ∙ e)
          ∙ rw (erased, e) (remove_from-squeeze front c t)
      | inr e ↦
          let passed : remove_from (length t) (length front + 1 + 1) (front ++ c ∷ d ∷ t)
              ≡ front ++ c ∷ d ∷ squeeze d t =
            rw (sym (length-snoc front c), whole) (remove_from-squeeze (front ++ c ∷ []) d t)
            ∙ append_assoc front (c ∷ []) (d ∷ squeeze d t) in
          remove_from-step (length t) (length front + 1) (front ++ c ∷ d ∷ t) false
            (doubled-append front c d t ∙ e)
          ∙ rw e passed
    ]

-- `RemoveDoubleSlashs` keeps every byte but the slashes that follow a slash.
pub remove_double_slashs-eq-squeezed : (str : Text) → remove_double_slashs str ≡ squeezed str
unfolding remove_double_slashs remove_from
remove_double_slashs-eq-squeezed [] = refl
remove_double_slashs-eq-squeezed (c ∷ t) =
    let rounds : length (c ∷ t) - 1 ≡ length t = omega arith in
    rw rounds (remove_from-squeeze [] c t)

-- Two slashes side by side.
abbrev pub has_double : Text → Bool
has_double [] = false
has_double (c ∷ []) = false
has_double (c ∷ d ∷ t) = c == slash && d == slash || has_double (d ∷ t)

squeezed-single : (c : ℕ) (t : Text) → has_double (c ∷ squeeze c t) ≡ false
squeezed-single c [] = refl
squeezed-single c (d ∷ t) = elim (Bool-cases (c == slash && d == slash)) [
  | inl e ↦ rw e (squeezed-single c t)
  | inr e ↦ rw e (rw (e, squeezed-single d t) refl)
]

squeeze-single : (c : ℕ) (t : Text) → has_double (c ∷ t) ≡ false → squeeze c t ≡ t
squeeze-single c [] h = refl
squeeze-single c (d ∷ t) h =
    let apart : (c == slash && d == slash) ≡ false = ground arith in
    rw apart (ap (λ (l : Text). d ∷ l) (squeeze-single d t (ground arith)))

squeezed-single_text : (str : Text) → has_double (squeezed str) ≡ false
squeezed-single_text [] = refl
squeezed-single_text (c ∷ t) = squeezed-single c t

squeezed-unchanged : (str : Text) → has_double str ≡ false → squeezed str ≡ str
squeezed-unchanged [] h = refl
squeezed-unchanged (c ∷ t) h = ap (λ (l : Text). c ∷ l) (squeeze-single c t h)

-- `RemoveDoubleSlashs` leaves no two slashes side by side, and changes nothing the second time.
pub remove_double_slashs-single :
    (str : Text)
    → (has_double (remove_double_slashs str) ≡ false)
      × (remove_double_slashs (remove_double_slashs str) ≡ remove_double_slashs str)
remove_double_slashs-single str = rw (remove_double_slashs-eq-squeezed str) (
  squeezed-single_text str,
  remove_double_slashs-eq-squeezed (squeezed str)
      ∙ squeezed-unchanged (squeezed str) (squeezed-single_text str),
)
