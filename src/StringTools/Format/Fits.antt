-- ===== src/StringTools/Format/Fits.antt =====
-- Which texts the static buffers hold (src/utils/StringTools.cpp).
use custom_rpxloader.Base.{
  ℕ, ◌≤◌, ◌<◌, ◌≡◌, true, Option, none, some, List, [], ◌∷◌, length, ltb, arith, inl, inr,
  Option-cases,
}
use custom_rpxloader.Reader.{Text}
use custom_rpxloader.StringTools.Format.{Buffer, buffer_size, positive, wfmt}

-- `mbstowcs` gives at most as many wide characters as it was asked for.
abbrev pub IsLimited : (Text → ℕ → Option (List ℕ)) → Type 0
IsLimited mbstowcs = (text : Text) (n : ℕ) (ws : List ℕ) → mbstowcs text n ≡ some ws → length ws ≤ n

positive-eq-some : (r : Option (List ℕ)) (ws : List ℕ) → positive r ≡ some ws → r ≡ some ws
positive-eq-some none ws h = cc
positive-eq-some (some []) ws h = cc
positive-eq-some (some (w ∷ others)) ws h = h

-- If `mbstowcs` gives no more than it is asked for and the formatted text has less than 512 bytes,
-- then a result of `wfmt` has been written within its buffer of 512 elements, final zero included.
pub wfmt-fits :
    (mbstowcs : Text → ℕ → Option (List ℕ)) (text format : Text) (b : Buffer)
    → IsLimited mbstowcs
    → length text < buffer_size
    → wfmt mbstowcs (some format) (some text) ≡ some b
    → b.written ≤ buffer_size
unfolding wfmt
wfmt-fits mbstowcs text [] b limited small h = ground arith
wfmt-fits mbstowcs text (c ∷ cs) b limited small h =
    let inside : ltb (length text) buffer_size ≡ true = ground arith in
    elim (Option-cases (positive (mbstowcs text (length text)))) [
      | inl e ↦ cc (rw (wfmt, inside, e) at h)
      | inr (ws, e) ↦
          let bound =
            limited text (length text) ws (positive-eq-some (mbstowcs text (length text)) ws e) in
          ground (arith, rw (wfmt, inside, e) at h, bound)
    ]
