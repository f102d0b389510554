-- ===== src/ModuleDataFactory/Placement/Layout.antt =====
-- Where the sections of a module stand after the copy loop of `load`
-- (src/module/ModuleDataFactory.cpp), as a function of the sections alone.
use custom_rpxloader.Base.{
  ℕ, ◌+◌, ◌≤◌, ◌<◌, ◌≡◌, refl, ap, ◌∙◌, Bool, true, false, ◌&&◌, some, List, [], ◌∷◌, ◌++◌, ◌⊎◌,
  inl, inr, arith, Bool-cases, Option-cases, if◌then◌else◌, ◌==◌, ltb, leb, set,
}
use custom_rpxloader.Machine.{Machine, Memory, u32, add32, sub32}
use custom_rpxloader.Machine.Laws.{blit-inside}
use custom_rpxloader.Outcome.{done, and_then-eq-done}
use custom_rpxloader.Reader.{Section}
use custom_rpxloader.ModuleDataFactory.Placement.Bounds.{fill-outside}
use custom_rpxloader.ModuleDataFactory.Placement.Steps.{
  place-skip, place-unsupported, place-locate, IsStored, store_section-IsStored,
}
use custom_rpxloader.ModuleDataFactory.Placement.{
  is_placed, sht_nobits, sht_progbits, Placing, locate, fill, place, place_all, text_base,
  data_base,
}

-- The section's address is in the code area.
abbrev pub at_text : Section → Bool
at_text p = leb text_base (u32 p.address) && ltb (u32 p.address) data_base

abbrev pub area : Section → ℕ
area p = if at_text p then text_base else data_base

-- Where the section stands if its round starts with the base offset `b`, and what the next round
-- starts with: a code section moves the base on by its size.
abbrev pub destination : ℕ → Section → ℕ
destination b p = sub32 (add32 b (u32 p.address)) (area p)

abbrev pub next_base : ℕ → Section → ℕ
next_base b p = if is_placed p && at_text p then u32 (b + u32 p.size) else b

abbrev pub base_after : ℕ → List Section → ℕ
base_after b [] = b
base_after b (p ∷ ps) = base_after (next_base b p) ps

-- The address `x` lies in none of the placed sections.
abbrev pub Clear : ℕ → ℕ → List Section → Type 0
Clear x b [] = Unit {0}
Clear x b (p ∷ ps) =
    ((is_placed p ≡ false) ⊎ (x < destination b p) ⊎ (destination b p + u32 p.size ≤ x))
    × Clear x (next_base b p) ps

-- The byte `i` of a section in memory.
abbrev pub byte : Section → ℕ → ℕ
byte p i = if p.type == sht_nobits then 0 else p.content i

-- What one round does to the variables and to the memory.
pub record IsRound (p : Section) (v v' : Placing) (s s' : Machine) : Type 0 where
  pub base : v'.base_offset ≡ next_base v.base_offset p
  pub offset : v'.offset_data ≡ next_base v.offset_data p
  pub destinations : v'.destinations ≡ (
      if is_placed p
      then set v.destinations p.index (sub32 v.base_offset (area p))
      else v.destinations)
  pub bytes :
      (x : ℕ)
      → s'.mem x ≡ (if is_placed p then (fill p (destination v.base_offset p) s).mem x else s.mem x)

pub record IsLocated (p : Section) (v v' : Placing) (d : ℕ) : Type 0 where
  pub place : d ≡ destination v.base_offset p
  pub base :
      v'.base_offset ≡ (if at_text p then u32 (v.base_offset + u32 p.size) else v.base_offset)
  pub offset :
      v'.offset_data ≡ (if at_text p then u32 (v.offset_data + u32 p.size) else v.offset_data)
  pub destinations : v'.destinations ≡ set v.destinations p.index (sub32 v.base_offset (area p))

pub locate-IsLocated :
    (p : Section) (v v' : Placing) (d : ℕ) → locate p v ≡ some (d, v') → IsLocated p v v' d
unfolding locate
locate-IsLocated p v v' d h = ground arith

module _ (low top : ℕ) where
  pub place-IsRound :
      (p : Section) (v v' : Placing) (s s' : Machine)
      → place low top p v s ≡ done v' s'
      → IsRound p v v' s s'
  place-IsRound p v v' s s' h = elim (Bool-cases (is_placed p)) [
    | inr skipped ↦ ground (arith, rw (place-skip low top p v s skipped) at h)
    | inl placed ↦ elim (Option-cases (locate p v)) [
      | inl e ↦ cc (rw (place-unsupported low top p v s placed e) at h)
      | inr ((d, v1), e) ↦ stored placed d v1 (locate-IsLocated p v v1 d e) (
          store_section-IsStored low top p d v1 v' s s'
            (rw (place-locate low top p v v1 d s placed e) at h))
    ]
  ]
    where
      stored :
          is_placed p ≡ true
          → (d : ℕ) (v1 : Placing) → IsLocated p v v1 d
          → IsStored low top p d v1 v' s s'
          → IsRound p v v' s s'
      stored placed d v1 l t = record {
        base = ground arith;
        offset = ground arith;
        destinations = ground arith;
        bytes = λ x. ground (arith, ap (λ (m : Memory). m x) t.bytes);
      }

  -- The rounds of a list one behind the other.
  pub place_all-append :
      (ps qs : List Section) (v v' : Placing) (s s' : Machine)
      → place_all low top (ps ++ qs) v s ≡ done v' s'
      → (w : Placing) × (t : Machine) × (place_all low top ps v s ≡ done w t)
        × (place_all low top qs w t ≡ done v' s')
  unfolding place_all
  place_all-append [] qs v v' s s' h = (v, s, refl, h)
  place_all-append (p ∷ ps) qs v v' s s' h =
      let (v1, s1, e, rest) =
        and_then-eq-done (place low top p v s) (λ v1 s1. place_all low top (ps ++ qs) v1 s1) h in
      let (w, t, e', rest') = place_all-append ps qs v1 v' s1 s' rest in (w, t, rw e e', rest')

  pub place_all-cons :
      (p : Section) (ps : List Section) (v v' : Placing) (s s' : Machine)
      → place_all low top (p ∷ ps) v s ≡ done v' s'
      → (w : Placing) × (t : Machine) × IsRound p v w s t × (place_all low top ps w t ≡ done v' s')
  unfolding place_all
  place_all-cons p ps v v' s s' h =
      let (w, t, e, rest) =
        and_then-eq-done (place low top p v s) (λ v1 s1. place_all low top ps v1 s1) h in
      (w, t, place-IsRound p v w s t e, rest)

  pub place_all-base :
      (ps : List Section) (v v' : Placing) (s s' : Machine)
      → place_all low top ps v s ≡ done v' s'
      → (v'.base_offset ≡ base_after v.base_offset ps)
        × (v'.offset_data ≡ base_after v.offset_data ps)
  unfolding place_all
  place_all-base [] v v' s s' h = ground arith
  place_all-base (p ∷ ps) v v' s s' h =
      let (w, t, r, rest) = place_all-cons p ps v v' s s' h in
      let (b, o) = place_all-base ps w v' t s' rest in (b ∙ rw r.base, o ∙ rw r.offset)

  -- An address that is in none of the placed sections keeps its byte.
  pub place_all-Clear :
      (ps : List Section) (v v' : Placing) (s s' : Machine) (x : ℕ)
      → place_all low top ps v s ≡ done v' s'
      → Clear x v.base_offset ps
      → s'.mem x ≡ s.mem x
  unfolding place_all
  place_all-Clear [] v v' s s' x h c = ground arith
  place_all-Clear (p ∷ ps) v v' s s' x h c =
      let (w, t, r, rest) = place_all-cons p ps v v' s s' h in
      place_all-Clear ps w v' t s' x rest (rw r.base c.1)
      ∙ ground (arith, r.bytes x, fill-outside p (destination v.base_offset p) s x)

fill-byte :
    (p : Section) (d : ℕ) (s : Machine) (i : ℕ)
    → is_placed p ≡ true
    → i < u32 p.size
    → (fill p d s).mem (d + i) ≡ byte p i
unfolding fill
fill-byte p d s i placed h = elim (Bool-cases (p.type == sht_nobits)) [
  | inl zeros ↦ rw zeros (blit-inside s.mem d (u32 p.size) (λ k. 0) i h)
  | inr other ↦
      let copied : (p.type == sht_progbits) ≡ true = ground arith in
      rw (other, copied) (blit-inside s.mem d (u32 p.size) p.content i h)
]

-- After the loop a placed section's bytes stand at its destination, its content or zeros, wherever
-- no later section has been put over them; the destination follows from the module's lowest address
-- and the sections before it.
pub place_all-bytes :
    (low top : ℕ) (pre post : List Section) (p : Section) (v v' : Placing) (s s' : Machine) (i : ℕ)
    → place_all low top (pre ++ p ∷ post) v s ≡ done v' s'
    → is_placed p ≡ true
    → i < u32 p.size
    → let b = base_after v.base_offset pre in
      Clear (destination b p + i) (next_base b p) post → s'.mem (destination b p + i) ≡ byte p i
place_all-bytes low top pre post p v v' s s' i h placed small clear =
    let (w, t, e, rest) = place_all-append low top pre (p ∷ post) v v' s s' h in
    let (w', t', r, rest') = place_all-cons low top p post w v' t s' rest in
    let b : w.base_offset ≡ base_after v.base_offset pre =
      (place_all-base low top pre v w s t e).0 in
    let x : ℕ = destination (base_after v.base_offset pre) p + i in
    place_all-Clear low top post w' v' t' s' x rest' (rw (r.base, b) clear)
    ∙ r.bytes x
    ∙ rw (b, placed) (fill-byte p (destination (base_after v.base_offset pre) p) t i placed small)
