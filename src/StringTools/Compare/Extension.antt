-- ===== src/StringTools/Compare/Extension.antt =====
-- The comparison of a name's extension (src/utils/StringTools.cpp, `strextcmp`).
use custom_rpxloader.Base.{
  ℕ, ◌<◌, ◌≡◌, ◌≢◌, ◌↔◌, refl, sym, subst, ap, ◌∙◌, Bool, true, false, none, some, [], ◌∷◌, ◌++◌,
  map, ◌==◌, ==_iff, ==_refl, ◌||◌, arith, inl, inr, Bool-cases, Option-cases,
}
use custom_rpxloader.Machine.{sub32}
use custom_rpxloader.Reader.{Text}
use custom_rpxloader.StringTools.Compare.{to_lower, strcasecmp, strrchr, behind, strextcmp}

-- A C string: bytes that are not 0.
abbrev pub IsString : Text → Type 0
IsString [] = Unit {0}
IsString (c ∷ t) = (0 < c) × (c < 256) × IsString t

-- The same text but for the case of its letters.
abbrev pub IsSameCaseless : Text → Text → Type 0
IsSameCaseless s t = map to_lower s ≡ map to_lower t

to_lower_bounds : (c : ℕ) → 0 < c → c < 256 → (0 < to_lower c) × (to_lower c < 512)
to_lower_bounds c pos lt = ground arith

lower_apart : (x y : ℕ) → x < 512 → y < 512 → (x == y) ≡ false → sub32 x y ≢ 0
lower_apart x y h h' e q = ground arith

ne : (x y : ℕ) → (x == y) ≡ false → x ≢ y
ne x y e q = ground arith

strcasecmp_iff : (s t : Text) → IsString s → IsString t → (strcasecmp s t ≡ 0) ↔ IsSameCaseless s t
unfolding strcasecmp
strcasecmp_iff [] [] hs ht = (λ h. refl, λ h. refl)
strcasecmp_iff [] (d ∷ t) hs ht =
    let b = to_lower_bounds d ht.0 ht.1 in (λ h. absurd (omega (arith, b, h)), λ h. cc)
strcasecmp_iff (c ∷ s) [] hs ht =
    let b = to_lower_bounds c hs.0 hs.1 in (λ h. absurd (omega (arith, b, h)), λ h. cc)
strcasecmp_iff (c ∷ s) (d ∷ t) hs ht =
    let b = to_lower_bounds c hs.0 hs.1 in
    let b' = to_lower_bounds d ht.0 ht.1 in
    let rest = strcasecmp_iff s t hs.2 ht.2 in
    elim (Bool-cases (to_lower c == to_lower d)) [
      | inl e ↦
          let same : to_lower c ≡ to_lower d = (==_iff (to_lower c) (to_lower d)).0 e in
          rw (e, same) (λ h. ap (λ (l : Text). to_lower d ∷ l) (rest.0 h), λ h. rest.1 (cc))
      | inr e ↦ rw e (
        λ h. absurd (lower_apart (to_lower c) (to_lower d) b.1 b'.1 e h),
        λ h. absurd (ne (to_lower c) (to_lower d) e (cc)),
      )
    ]

abbrev pub has_byte : ℕ → Text → Bool
has_byte d [] = false
has_byte d (c ∷ t) = c == d || has_byte d t

-- The name ends in the byte and, behind it, the extension, whose letters may be of another case;
-- the byte is not in the extension.
pub record HasExtension (s extension : Text) (d : ℕ) : Type 0 where
  pub front : Text
  pub last : Text
  pub split : s ≡ front ++ d ∷ last
  pub no_byte : has_byte d last ≡ false
  pub same : IsSameCaseless last extension

pub strrchr-none : (t : Text) (d : ℕ) → strrchr t d ≡ none → has_byte d t ≡ false
unfolding strrchr
strrchr-none [] d h = refl
strrchr-none (c ∷ t) d h = elim (Option-cases (strrchr t d)) [
  | inl e ↦ ground (arith, rw (strrchr, e) at h, strrchr-none t d e)
  | inr (found, e) ↦ cc (rw (strrchr, e) at h)
]

none-strrchr : (t : Text) (d : ℕ) → has_byte d t ≡ false → strrchr t d ≡ none
unfolding strrchr
none-strrchr [] d h = refl
none-strrchr (c ∷ t) d h =
    let here : (c == d) ≡ false = ground arith in
    rw (none-strrchr t d (ground arith)) (rw here refl)

strrchr-append :
    (front last : Text) (d : ℕ)
    → has_byte d last ≡ false
    → strrchr (front ++ d ∷ last) d ≡ some (d ∷ last)
unfolding strrchr
strrchr-append [] last d h = rw (none-strrchr last d h, ==_refl d) refl
strrchr-append (c ∷ front) last d h = rw (strrchr-append front last d h) refl

-- The text from the last place of a byte on.
pub record IsLast (s : Text) (d : ℕ) (found : Text) : Type 0 where
  pub front : Text
  pub last : Text
  pub shape : found ≡ d ∷ last
  pub split : s ≡ front ++ d ∷ last
  pub no_byte : has_byte d last ≡ false

pub strrchr-IsLast : (s : Text) (d : ℕ) (found : Text) → strrchr s d ≡ some found → IsLast s d found
unfolding strrchr
strrchr-IsLast [] d found h = cc
strrchr-IsLast (c ∷ s) d found h = elim (Option-cases (strrchr s d)) [
  | inl e ↦
      let here : ((c == d) ≡ true) × (found ≡ c ∷ s) = ground (arith, rw (strrchr, e) at h) in
      let same : c ≡ d = (==_iff c d).0 here.0 in
      record {
        front = [];
        last = s;
        shape = here.1 ∙ ap (λ (b : ℕ). b ∷ s) same;
        split = ap (λ (b : ℕ). b ∷ s) same;
        no_byte = strrchr-none s d e;
      }
  | inr (later, e) ↦
      let k = strrchr-IsLast s d later e in
      let same : later ≡ found = cc (rw (strrchr, e) at h) in
      record {
        front = c ∷ k.front;
        last = k.last;
        shape = sym same ∙ k.shape;
        split = ap (λ (l : Text). c ∷ l) k.split;
        no_byte = k.no_byte;
      }
]

IsString-append :
    (front : Text) (d : ℕ) (last : Text) → IsString (front ++ d ∷ last) → IsString last
IsString-append [] d last h = h.2
IsString-append (c ∷ front) d last h = IsString-append front d last h.2

-- `strextcmp` of two C strings is 0 exactly if what stands behind the last separator of the name is
-- the extension, but for the case of its letters.
pub strextcmp_iff :
    (s extension : Text) (d : ℕ)
    → IsString s
    → IsString extension
    → (strextcmp (some s) (some extension) d ≡ 0) ↔ HasExtension s extension d
unfolding strextcmp
strextcmp_iff s extension d hs he = (
  λ h. elim (Option-cases (strrchr s d)) [
    | inl e ↦ absurd (omega (arith, rw (strextcmp, e) at h))
    | inr (found, e) ↦
        let k = strrchr-IsLast s d found e in
        let string = IsString-append k.front d k.last (subst IsString k.split hs) in
        let zero_lem : strcasecmp k.last extension ≡ 0 =
          ap (λ (l : Text). strcasecmp (behind l) extension) (sym k.shape)
          ∙ rw (strextcmp, e) at h in
        record {
          front = k.front;
          last = k.last;
          split = k.split;
          no_byte = k.no_byte;
          same = (strcasecmp_iff k.last extension string he).0 zero_lem;
        }
  ],
  λ k.
      let string = IsString-append k.front d k.last (subst IsString k.split hs) in
      let found : strrchr s d ≡ some (d ∷ k.last) =
        ap (λ (l : Text). strrchr l d) k.split ∙ strrchr-append k.front k.last d k.no_byte in
      rw (found, strextcmp) ((strcasecmp_iff k.last extension string he).1 k.same),
)
