-- ===== src/StringTools/Edit/Replace.antt =====
-- `str_replace` against `stringSplit` (src/utils/StringTools.cpp).
use custom_rpxloader.Base.{
  ℕ, zero, suc, ◌+◌, ◌-◌, ◌*◌, ◌^◌, ◌<◌, ◌≤◌, ◌≡◌, ◌≢◌, refl, sym, ap, ◌∙◌, Bool, true, false, none,
  some, List, [], ◌∷◌, ◌++◌, length, take, drop, ltb, ltb→lt, ◌==◌, arith, inl, inr, Bool-cases,
  Option-cases, length-append,
}
use mathlib.Core.List.{append_assoc}
use custom_rpxloader.Machine.{u32, sub32}
use custom_rpxloader.Reader.{Text}
use custom_rpxloader.StringTools.{find, string_split}
use custom_rpxloader.StringTools.Split.{
  join, join-cons, find-bounded, find-empty, length-drop, length-zero, length-positive,
}
use custom_rpxloader.StringTools.Edit.{
  text, count_places, replace_places, replaced_size, str_replace,
}

-- The two loops agree with a split into pieces.
pub record IsReplaced (fuel : ℕ) (orig rep with : Text) (n : ℕ) (pieces : List Text) : Type 0 where
  pub count : count_places fuel orig rep ≡ some n
  pub split : string_split fuel orig rep ≡ some pieces
  pub some_piece : pieces ≢ []
  pub replaced :
      (capacity : ℕ) (out : Text)
      → length out + length (join with pieces) + 1 ≤ capacity
      → replace_places capacity n orig rep with out ≡ some (text (out ++ join with pieces))
  pub size : length (join with pieces) + n * length rep ≡ length orig + n * length with

suc_mul : (n k : ℕ) → suc n * k ≡ k + n * k
suc_mul n k = omega arith

length-take : (n : ℕ) (t : Text) → n ≤ length t → length (take n t) ≡ n
length-take zero t h = refl
length-take (suc n) [] h = absurd (omega arith)
length-take (suc n) (c ∷ t) h = ap suc (length-take n t (omega arith))

module _ (rep with : Text) (some_rep : rep ≢ []) where
  IsReplaced-none :
      (fuel : ℕ) (orig : Text)
      → find rep orig ≡ none
      → IsReplaced (suc fuel) orig rep with 0 (orig ∷ [])
  unfolding count_places string_split replace_places
  IsReplaced-none fuel orig e = record {
    count = rw (e, count_places) refl;
    split = rw (e, string_split) refl;
    some_piece = λ q. cc;
    replaced = λ capacity out fits.
        let inside : ltb capacity (length (out ++ orig) + 1) ≡ false =
          ground (arith, fits, length-append out orig) in
        rw inside refl;
    size = omega arith;
  }

  IsReplaced-some :
      (fuel : ℕ) (orig : Text) (i n : ℕ) (pieces : List Text)
      → find rep orig ≡ some i
      → string_split (suc fuel) orig rep ≡ some (take i orig ∷ pieces)
      → IsReplaced fuel (drop (i + length rep) orig) rep with n pieces
      → IsReplaced (suc fuel) orig rep with (suc n) (take i orig ∷ pieces)
  unfolding count_places replace_places
  IsReplaced-some fuel orig i n pieces e split k = record {
    count = rw (e, count_places) (rw k.count refl);
    split = split;
    some_piece = λ q. cc;
    replaced = λ capacity out fits.
        let out' = out ++ (take i orig ++ with) in
        let rest = join with pieces in
        let whole : length out' + length rest
            ≡ length out + length (join with (take i orig ∷ pieces)) =
          omega (
            arith,
            ap length (join-cons with (take i orig) pieces k.some_piece),
            length-append (take i orig ++ with) rest,
            length-append out (take i orig ++ with),
          ) in
        let inside : ltb capacity (length out' + 1) ≡ false = ground (arith, fits, whole) in
        rw (e, replace_places)
          (rw inside (k.replaced capacity out' (omega (arith, fits, whole)))
            ∙ ap (λ (l : Text). some (text l))
                (append_assoc out (take i orig ++ with) rest
                  ∙ ap (λ (l : Text). out ++ l)
                      (sym (join-cons with (take i orig) pieces k.some_piece))));
    size = omega (
      arith,
      k.size,
      ap length (join-cons with (take i orig) pieces k.some_piece),
      length-append (take i orig ++ with) (join with pieces),
      length-append (take i orig) with,
      length-take i orig (omega (arith, find-bounded rep orig i e)),
      length-drop (i + length rep) orig (find-bounded rep orig i e),
      suc_mul n (length rep),
      suc_mul n (length with),
    );
  }

  string_split-empty : (fuel : ℕ) → string_split (suc fuel) [] rep ≡ some ([] ∷ [])
  unfolding string_split
  string_split-empty fuel = rw (find-empty rep some_rep, string_split) refl

  -- One more piece before those of the rest.
  string_split-cons :
      (fuel : ℕ) (orig : Text) (i : ℕ) (pieces : List Text)
      → length orig < suc fuel
      → find rep orig ≡ some i
      → string_split fuel (drop (i + length rep) orig) rep ≡ some pieces
      → string_split (suc fuel) orig rep ≡ some (take i orig ∷ pieces)
  unfolding string_split
  string_split-cons zero orig i pieces enough e k =
      absurd (omega (arith, find-bounded rep orig i e, length-positive rep some_rep))
  string_split-cons (suc fuel) orig i pieces enough e k =
      let bounded = find-bounded rep orig i e in
      let left = length-drop (i + length rep) orig bounded in
      elim (Bool-cases (i + length rep == length orig)) [
        | inl last ↦
            let nothing : drop (i + length rep) orig ≡ [] =
              length-zero (drop (i + length rep) orig) (ground arith) in
            let single : pieces ≡ [] ∷ [] = cc (
              sym (string_split-empty fuel)
              ∙ ap (λ (l : Text). string_split (suc fuel) l rep) (sym nothing)
              ∙ k) in
            rw (e, last, string_split) (rw single refl)
        | inr more ↦
            let inside : ltb (length orig) (i + length rep) ≡ false = ground arith in
            rw (e, more, inside, string_split) (rw k refl)
      ]

  replaced :
      (fuel : ℕ) (orig : Text)
      → length orig < fuel
      → (n : ℕ) × (pieces : List Text) × IsReplaced fuel orig rep with n pieces
  replaced zero orig enough = absurd (omega arith)
  replaced (suc fuel) orig enough = elim (Option-cases (find rep orig)) [
    | inl e ↦ (0, orig ∷ [], IsReplaced-none fuel orig e)
    | inr (i, e) ↦
        let left = length-drop (i + length rep) orig (find-bounded rep orig i e) in
        let (n, pieces, k) =
          replaced fuel (drop (i + length rep) orig)
            (omega (arith, left, length-positive rep some_rep)) in
        (
          suc n,
          take i orig ∷ pieces,
          IsReplaced-some fuel orig i n pieces e
              (string_split-cons fuel orig i pieces enough e k.split) k,
        )
  ]

size_shrinks :
    (lo lr lw n size f d : ℕ)
    → lw + d ≡ lr
    → f + d ≡ 2 ^ 32
    → size + n * lr ≡ lo + n * lw
    → size + 1 < 2 ^ 32
    → u32 (lo + f * n + 1) ≡ size + 1
size_shrinks lo lr lw n size f d e e' h lt =
    omega (arith, ap (λ (k : ℕ). n * k) e, ap (λ (k : ℕ). k * n) e')

size_grows :
    (lo lr lw n size f : ℕ)
    → lr + f ≡ lw
    → size + n * lr ≡ lo + n * lw
    → size + 1 < 2 ^ 32
    → u32 (lo + f * n + 1) ≡ size + 1
size_grows lo lr lw n size f e h lt = omega (arith, ap (λ (k : ℕ). n * k) e)

-- The allocated size is that of the result and its final zero.
replaced_size-exact :
    (orig rep with : Text) (n size : ℕ)
    → size + n * length rep ≡ length orig + n * length with
    → length rep < 2 ^ 32
    → length with < 2 ^ 32
    → size + 1 < 2 ^ 32
    → replaced_size orig rep with n ≡ size + 1
replaced_size-exact orig rep with n size h rep_lt with_lt size_lt =
    elim (Bool-cases (ltb (length with) (length rep))) [
      | inl e ↦
          let less = ltb→lt (length with) (length rep) e in
          size_shrinks (length orig) (length rep) (length with) n size
            (sub32 (length with) (length rep)) (length rep - length with) (omega arith)
            (omega arith) h size_lt
      | inr e ↦
          let more : length rep ≤ length with = ground arith in
          size_grows (length orig) (length rep) (length with) n size
            (sub32 (length with) (length rep)) (omega arith) h size_lt
    ]

-- With fuel for one round more than the text has bytes, a `rep` that is not empty, a result that
-- takes less than 2^32 bytes with its final zero, as `rep` and the new text do, and memory for the
-- result, `str_replace` gives the pieces of `stringSplit` with the new text between them, written
-- within its block.
pub str_replace-join :
    (malloc : ℕ → Bool) (fuel : ℕ) (orig rep with : Text) (pieces : List Text)
    → length orig < fuel
    → rep ≢ []
    → string_split fuel orig rep ≡ some pieces
    → length rep < 2 ^ 32
    → length with < 2 ^ 32
    → length (join with pieces) + 1 < 2 ^ 32
    → malloc (length (join with pieces) + 1) ≡ true
    → str_replace malloc fuel (some orig) (some rep) (some with) ≡ some (text (join with pieces))
unfolding str_replace
str_replace-join malloc fuel orig [] with pieces enough some_rep split rep_lt with_lt lt memory =
    absurd (some_rep refl)
str_replace-join malloc fuel orig (c ∷ cs) with pieces enough some_rep split rep_lt with_lt lt
      memory =
    let (n, pieces', k) = replaced (c ∷ cs) with some_rep fuel orig enough in
    let same : pieces' ≡ pieces = cc (sym k.split ∙ split) in
    let joined : length (join with pieces') ≡ length (join with pieces) =
      ap (λ (l : List Text). length (join with l)) same in
    let size : replaced_size orig (c ∷ cs) with n ≡ length (join with pieces) + 1 =
      replaced_size-exact orig (c ∷ cs) with n (length (join with pieces)) (rw (sym joined) k.size)
        rep_lt with_lt lt in
    rw (k.count, str_replace)
      (rw (size, memory)
        (k.replaced (length (join with pieces) + 1) [] (omega (arith, joined))
          ∙ ap (λ (l : List Text). some (text (join with l))) same))
