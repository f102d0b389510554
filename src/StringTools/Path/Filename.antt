-- ===== src/StringTools/Path/Filename.antt =====
-- The last part of a path (src/utils/StringTools.cpp, `FullpathToFilename`).
use custom_rpxloader.Base.{
  ℕ, ◌≡◌, ◌⊎◌, refl, sym, ap, ◌∙◌, Bool, false, not, ◌&&◌, ◌||◌, some, [], ◌∷◌, ◌++◌, ◌==◌, arith,
  inl, inr, Bool-cases,
}
use mathlib.Core.List.{append_assoc}
use custom_rpxloader.Reader.{Text}
use custom_rpxloader.StringTools.Path.{slash, is_empty, filename_from, fullpath_to_filename}

-- A slash with something behind it.
abbrev pub has_inner_slash : Text → Bool
has_inner_slash [] = false
has_inner_slash (c ∷ t) = c == slash && not (is_empty t) || has_inner_slash t

-- The path is nothing or a text that ends in a slash, and then a name with no slash but at its end.
pub record IsFilename (path name : Text) : Type 0 where
  pub front : Text
  pub split : path ≡ front ++ name
  pub at_slash : (front ≡ []) ⊎ ((f : Text) × (front ≡ f ++ slash ∷ []))
  pub no_inner : has_inner_slash name ≡ false

abbrev NoSlash : Text → Type 0
NoSlash [] = Unit {0}
NoSlash (c ∷ t) = ((c == slash) ≡ false) × NoSlash t

NoSlash-snoc : (s : Text) (c : ℕ) → NoSlash s → (c == slash) ≡ false → NoSlash (s ++ c ∷ [])
NoSlash-snoc [] c h e = (e, tt)
NoSlash-snoc (d ∷ s) c (e', h) e = (e', NoSlash-snoc s c h e)

-- A text without slashes and one byte behind it.
has_inner_slash-snoc :
    (s t : Text) → NoSlash s → has_inner_slash t ≡ false → has_inner_slash (s ++ t) ≡ false
has_inner_slash-snoc [] t h e = e
has_inner_slash-snoc (d ∷ s) t (e', h) e = rw e' (has_inner_slash-snoc s t h e)

-- The loop, with `s` the bytes of the name that it has passed.
filename_from-IsFilename :
    (path front s ptr : Text)
    → path ≡ front ++ (s ++ ptr)
    → (front ≡ []) ⊎ ((f : Text) × (front ≡ f ++ slash ∷ []))
    → NoSlash s
    → IsFilename path (filename_from ptr (s ++ ptr))
unfolding filename_from
filename_from-IsFilename path front s [] split at_slash clean = record {
  front = front;
  split = split;
  at_slash = at_slash;
  no_inner = has_inner_slash-snoc s [] clean refl;
}
filename_from-IsFilename path front s (c ∷ []) split at_slash clean =
    let last : (c == slash && false) ≡ false = ground arith in
    let no_inner : has_inner_slash (c ∷ []) ≡ false = ground arith in
    rw last (record {
      front = front;
      split = split;
      at_slash = at_slash;
      no_inner = has_inner_slash-snoc s (c ∷ []) clean no_inner;
    })
filename_from-IsFilename path front s (c ∷ d ∷ t) split at_slash clean =
    elim (Bool-cases (c == slash)) [
      | inl e ↦
          let same : c ≡ slash = ground arith in
          rw e (
            filename_from-IsFilename path (front ++ (s ++ c ∷ [])) [] (d ∷ t)
              (split ∙ simp append_assoc)
              (inr (
                front ++ s,
                ap (λ (b : ℕ). front ++ (s ++ b ∷ [])) same
                    ∙ sym (append_assoc front s (slash ∷ [])),
              ))
              tt)
      | inr e ↦
          let move : s ++ c ∷ d ∷ t ≡ (s ++ c ∷ []) ++ d ∷ t =
            sym (append_assoc s (c ∷ []) (d ∷ t)) in
          rw (e, move)
            (filename_from-IsFilename path front (s ++ c ∷ []) (d ∷ t)
              (split ∙ ap (λ (l : Text). front ++ l) move) at_slash (NoSlash-snoc s c clean e))
    ]

-- The result of `FullpathToFilename`, for a path that is not null, is the path's last part: what
-- stands behind its last slash that has something behind it.
pub fullpath_to_filename-IsFilename :
    (path : Text)
    → (name : Text) × (fullpath_to_filename (some path) ≡ some name) × IsFilename path name
unfolding fullpath_to_filename
fullpath_to_filename-IsFilename path =
    (filename_from path path, refl, filename_from-IsFilename path [] [] path refl (inl refl) tt)
