-- ===== src/StringTools/Compare/Tokens.antt =====
-- The tokens of a text that was put together with one separator between them
-- (src/utils/StringTools.cpp, `strtokcmp`).
use custom_rpxloader.Base.{
  ℕ, zero, suc, ◌≤◌, ◌<◌, ◌≡◌, ◌≢◌, refl, sym, ap, ◌∙◌, true, false, some, List, [], ◌∷◌, ◌++◌,
  length, take, if◌then◌else◌, arith,
}
use mathlib.Core.List.{append_assoc, append-nil}
use custom_rpxloader.Reader.{Text}
use custom_rpxloader.StringTools.Split.{join}
use custom_rpxloader.StringTools.Compare.{minus_one, is_separator, tokens_from, is_token, strtokcmp}

-- A token: a text that is not empty and holds no separator.
abbrev pub NoSeparator : Text → Text → Type 0
NoSeparator separators [] = Unit {0}
NoSeparator separators (c ∷ t) = (is_separator separators c ≡ false) × NoSeparator separators t

abbrev pub AllTokens : Text → List Text → Type 0
AllTokens separators [] = Unit {0}
AllTokens separators (token ∷ tokens) =
    (token ≢ []) × NoSeparator separators token × AllTokens separators tokens

module _ (separators : Text) where
  -- The bytes of a token behind those that have been read.
  tokens_from-token :
      (read : Text) (c : ℕ) (token rest : Text)
      → NoSeparator separators token
      → tokens_from separators (c ∷ read) (token ++ rest)
        ≡ tokens_from separators (c ∷ (read ++ token)) rest
  unfolding tokens_from
  tokens_from-token read c [] rest h =
      ap (λ (l : Text). tokens_from separators (c ∷ l) rest) (sym (append-nil read))
  tokens_from-token read c (d ∷ token) rest (e, h) = rw e (
      tokens_from-token (read ++ d ∷ []) c token rest h
      ∙ ap (λ (l : Text). tokens_from separators (c ∷ l) rest) (append_assoc read (d ∷ []) token))

  tokens_from-first :
      (c : ℕ) (token rest : Text)
      → NoSeparator separators (c ∷ token)
      → tokens_from separators [] (c ∷ token ++ rest) ≡ tokens_from separators (c ∷ token) rest
  unfolding tokens_from
  tokens_from-first c token rest (e, h) = rw (e, tokens_from) (tokens_from-token [] c token rest h)

  -- The tokens of the pieces with a separator between them are the pieces.
  tokens_from-join :
      (d : ℕ) (pieces : List Text)
      → is_separator separators d ≡ true
      → AllTokens separators pieces
      → tokens_from separators [] (join (d ∷ []) pieces) ≡ pieces
  unfolding tokens_from
  tokens_from-join d [] sep h = refl
  tokens_from-join d ([] ∷ pieces) sep h = absurd (h.0 refl)
  tokens_from-join d ((c ∷ token) ∷ []) sep h =
      ap (λ (l : Text). tokens_from separators [] (c ∷ l)) (sym (append-nil token))
      ∙ tokens_from-first c token [] h.1
  tokens_from-join d ((c ∷ token) ∷ next ∷ pieces) sep h =
      ap (tokens_from separators [])
        (append_assoc (c ∷ token) (d ∷ []) (join (d ∷ []) (next ∷ pieces)))
      ∙ tokens_from-first c token (d ∷ join (d ∷ []) (next ∷ pieces)) h.1
      ∙ rw sep
          (ap (λ (l : List Text). (c ∷ token) ∷ l) (tokens_from-join d (next ∷ pieces) sep h.2))

take-all : (n : ℕ) (t : Text) → length t ≤ n → take n t ≡ t
take-all zero [] h = refl
take-all zero (c ∷ t) h = absurd (omega arith)
take-all (suc n) [] h = refl
take-all (suc n) (c ∷ t) h = ap (λ (l : Text). c ∷ l) (take-all n t (omega arith))

-- For tokens that were put together with one separator between them, less than 512 bytes in all,
-- `strtokcmp` is 0 exactly if the text is one of the tokens but for the case of its letters, and -1
-- otherwise.
pub strtokcmp-join :
    (separators string : Text) (d : ℕ) (pieces : List Text)
    → is_separator separators d ≡ true
    → AllTokens separators pieces
    → length (join (d ∷ []) pieces) < 512
    → strtokcmp (some string) (some (join (d ∷ []) pieces)) separators
      ≡ (if is_token string pieces then 0 else minus_one)
unfolding strtokcmp
strtokcmp-join separators string d pieces sep h small =
    rw
      (
        take-all 511 (join (d ∷ []) pieces) (omega arith),
        tokens_from-join separators d pieces sep h,
      )
      refl
