-- ===== src/Logger/Filename.antt =====
-- The name of the source file in a line of the debug output (src/utils/logger.h).
use custom_rpxloader.Base.{◌≡◌, refl, sym, ap, ◌∙◌, false, ◌∷◌, ◌++◌, inl, inr, Option-cases}
use custom_rpxloader.Reader.{Text}
use custom_rpxloader.StringTools.Compare.{strrchr, behind}
use custom_rpxloader.StringTools.Compare.Extension.{has_byte, strrchr-IsLast, strrchr-none}
use custom_rpxloader.Logger.{filename_x, filename}

-- What a line calls a source file.
pub data IsName (file name : Text) : Type 0 where
  behind_slash :
      (front : Text) → file ≡ front ++ b'/' ∷ name → has_byte b'/' name ≡ false → IsName file name
  behind_backslash :
      (front : Text)
      → has_byte b'/' file ≡ false
      → file ≡ front ++ b'\\' ∷ name
      → has_byte b'\\' name ≡ false
      → IsName file name
  whole_path :
      has_byte b'/' file ≡ false → has_byte b'\\' file ≡ false → name ≡ file → IsName file name

-- The name is what stands behind the last slash of the path; without a slash, what stands behind
-- the last backslash; without both, the path.
pub filename-IsName : (file : Text) → IsName file (filename file)
unfolding filename filename_x
filename-IsName file = elim (Option-cases (strrchr file b'/')) [
  | inl e ↦ elim (Option-cases (strrchr file b'\\')) [
    | inl e' ↦
        whole_path (strrchr-none file b'/' e) (strrchr-none file b'\\' e')
          (rw (filename, e, filename_x, e') refl)
    | inr (found, e') ↦
        let k = strrchr-IsLast file b'\\' found e' in
        rw (filename, e, filename_x, e')
          (behind_backslash k.front (strrchr-none file b'/' e)
            (k.split ∙ ap (λ (t : Text). k.front ++ b'\\' ∷ behind t) (sym k.shape))
            (ap (λ (t : Text). has_byte b'\\' (behind t)) k.shape ∙ k.no_byte))
  ]
  | inr (found, e) ↦
      let k = strrchr-IsLast file b'/' found e in
      rw (filename, e)
        (behind_slash k.front
          (k.split ∙ ap (λ (t : Text). k.front ++ b'/' ∷ behind t) (sym k.shape))
          (ap (λ (t : Text). has_byte b'/' (behind t)) k.shape ∙ k.no_byte))
]
