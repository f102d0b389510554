-- ===== src/ModuleDataFactory/Placement/Landed.antt =====
-- Where the copy loop of `load` leaves each section, by the array of destinations
-- (src/module/ModuleDataFactory.cpp).
use custom_rpxloader.Base.{
  ℕ, ◌+◌, ◌^◌, ◌≤◌, ◌<◌, ◌≡◌, ◌≢◌, refl, ap, ◌∙◌, subst, true, List, [], ◌∷◌, ◌++◌, length,
  length-append, get_or, inl, inr, Option-cases, arith, if_ind, get_or-set_self, get_or-set_ne,
  length-set,
}
use custom_rpxloader.Machine.{Machine, u32, add32, sub32}
use custom_rpxloader.Outcome.{done, and_then-eq-done}
use custom_rpxloader.Reader.{Section}
use custom_rpxloader.ModuleDataFactory.Placement.Bounds.{
  counted, exact_size, locate_room, place_room, placed_counts,
}
use custom_rpxloader.ModuleDataFactory.Placement.Layout.{
  area, place-IsRound, destination, locate-IsLocated, base_after, place_all-append, place_all-cons,
  place_all-base,
}
use custom_rpxloader.ModuleDataFactory.Placement.Steps.{
  place-unsupported, place-locate, store_section-IsStored,
}
use custom_rpxloader.ModuleDataFactory.Placement.{is_placed, Placing, locate, place, place_all}

-- The sections are numbered from `k` on.
abbrev pub IsNumbered : ℕ → List Section → Type 0
IsNumbered k [] = Unit {0}
IsNumbered k (p ∷ ps) = (p.index ≡ k) × IsNumbered (k + 1) ps

-- By the array of destinations, which has an entry for it, the section lies between the two
-- addresses.
abbrev pub Landed : (low top : ℕ) → List ℕ → Section → Type 0
Landed low top destinations p =
    let start = add32 (get_or destinations p.index 0) (u32 p.address) in
    (low ≤ start) × (start + u32 p.size ≤ top) × (p.index < length destinations)

abbrev pub AllLanded : (low top : ℕ) → List ℕ → List Section → Type 0
AllLanded low top destinations [] = Unit {0}
AllLanded low top destinations (p ∷ ps) =
    (is_placed p ≡ true → Landed low top destinations p) × AllLanded low top destinations ps

module _ (low top : ℕ) where
  -- The loop writes no entry before the first section's, and keeps the array's length.
  place_all-before :
      (k j : ℕ) (ps : List Section) (v v' : Placing) (s s' : Machine)
      → IsNumbered k ps
      → j < k
      → place_all low top ps v s ≡ done v' s'
      → get_or v'.destinations j 0 ≡ get_or v.destinations j 0
  unfolding place_all
  place_all-before k j [] v v' s s' numbered lt h = ground arith
  place_all-before k j (p ∷ ps) v v' s s' numbered lt h =
      let (w, t, e, rest) =
        and_then-eq-done (place low top p v s) (λ v1 s1. place_all low top ps v1 s1) h in
      let r = place-IsRound low top p v w s t e in
      let other : p.index ≢ j = omega (arith, numbered.0) in
      place_all-before (k + 1) j ps w v' t s' numbered.1 (omega arith) rest
      ∙ ap (λ l. get_or l j 0) r.destinations
      ∙ if_ind (λ (l : List ℕ). get_or l j 0 ≡ get_or v.destinations j 0) (is_placed p)
          (get_or-set_ne v.destinations p.index j (sub32 v.base_offset (area p)) 0 other) refl

  place_all-length :
      (ps : List Section) (v v' : Placing) (s s' : Machine)
      → place_all low top ps v s ≡ done v' s'
      → length v'.destinations ≡ length v.destinations
  unfolding place_all
  place_all-length [] v v' s s' h = ground arith
  place_all-length (p ∷ ps) v v' s s' h =
      let (w, t, e, rest) =
        and_then-eq-done (place low top p v s) (λ v1 s1. place_all low top ps v1 s1) h in
      place_all-length ps w v' t s' rest
      ∙ ap (λ l. length l) (place-IsRound low top p v w s t e).destinations
      ∙ if_ind (λ (l : List ℕ). length l ≡ length v.destinations) (is_placed p)
          (length-set v.destinations p.index (sub32 v.base_offset (area p))) refl

  IsNumbered-append :
      (k : ℕ) (ps qs : List Section) → IsNumbered k (ps ++ qs) → IsNumbered (k + length ps) qs
  IsNumbered-append k [] qs h = subst (λ n. IsNumbered n qs) {x = k} {y = k + 0} (omega arith) h
  IsNumbered-append k (p ∷ ps) qs h =
      subst (λ n. IsNumbered n qs) {x = k + 1 + length ps} {y = k + length (p ∷ ps)} (omega arith)
        (IsNumbered-append (k + 1) ps qs h.1)

  -- After the loop, the array's entry for a section that has been placed is the base of its round less
  -- the start of its area.
  pub place_all-entry :
      (pre post : List Section) (q : Section) (v v' : Placing) (s s' : Machine)
      → IsNumbered 0 (pre ++ q ∷ post)
      → length (pre ++ q ∷ post) ≤ length v.destinations
      → place_all low top (pre ++ q ∷ post) v s ≡ done v' s'
      → is_placed q ≡ true
      → get_or v'.destinations q.index 0 ≡ sub32 (base_after v.base_offset pre) (area q)
  place_all-entry pre post q v v' s s' numbered long h placed =
      let (w, t, first, second) = place_all-append low top pre (q ∷ post) v v' s s' h in
      let (w', t', r, rest) = place_all-cons low top q post w v' t s' second in
      let base : w.base_offset ≡ base_after v.base_offset pre =
        (place_all-base low top pre v w s t first).0 in
      let number = IsNumbered-append 0 pre (q ∷ post) numbered in
      let kept = place_all-length pre v w s t first in
      let inside : q.index < length w.destinations =
        omega (arith, number.0, kept, long, length-append pre (q ∷ post)) in
      place_all-before (0 + length pre + 1) q.index post w' v' t' s' number.1
        (omega (arith, number.0)) rest
      ∙ ap (λ l. get_or l q.index 0) r.destinations
      ∙ rw placed (get_or-set_self w.destinations q.index (sub32 w.base_offset (area q)) 0 inside)
      ∙ ap (λ n. sub32 n (area q)) base

module _ (low top : ℕ) (small : top ≤ 2 ^ 28) where
  -- One round of the loop, for a section that it places.
  place-bounds :
      (p : Section) (v v' : Placing) (s s' : Machine) (room : ℕ)
      → place low top p v s ≡ done v' s'
      → is_placed p ≡ true
      → v.base_offset + counted p + room ≤ top
      → (low ≤ destination v.base_offset p) × (destination v.base_offset p + u32 p.size ≤ top)
  place-bounds p v v' s s' room h placed fits = elim (Option-cases (locate p v)) [
    | inl e ↦ cc (rw (place-unsupported low top p v s placed e) at h)
    | inr ((d, v1), e) ↦
        let r =
          locate_room p v v1 d room top e (omega (arith, placed_counts low top p placed)) small in
        let t =
          store_section-IsStored low top p d v1 v' s s'
            (rw (place-locate low top p v v1 d s placed e) at h) in
        let l = locate-IsLocated p v v1 d e in omega (arith, r, t.not_below, t.not_above, l.place)
  ]

  -- The address of a section by the entry that its round writes.
  add32-sub32 : (b : ℕ) (p : Section) → add32 (sub32 b (area p)) (u32 p.address) ≡ destination b p
  add32-sub32 b p = ground arith

  -- After the loop, each section that has been placed lies between the two addresses, by the array
  -- of destinations.
  pub place_all-AllLanded :
      (k : ℕ) (ps : List Section) (v v' : Placing) (s s' : Machine)
      → IsNumbered k ps
      → k + length ps ≤ length v.destinations
      → v.base_offset + exact_size ps ≤ top
      → place_all low top ps v s ≡ done v' s'
      → AllLanded low top v'.destinations ps
  unfolding place_all
  place_all-AllLanded k [] v v' s s' numbered long fits h = tt
  place_all-AllLanded k (p ∷ ps) v v' s s' numbered long fits h =
      let (w, t, e, rest) =
        and_then-eq-done (place low top p v s) (λ v1 s1. place_all low top ps v1 s1) h in
      let r = place-IsRound low top p v w s t e in
      let room = place_room low top p v w s t (exact_size ps) e (omega arith) small in
      let same : length w.destinations ≡ length v.destinations =
        ap (λ l. length l) r.destinations
        ∙ if_ind (λ (l : List ℕ). length l ≡ length v.destinations) (is_placed p)
            (length-set v.destinations p.index (sub32 v.base_offset (area p))) refl in
      (
        λ placed.
            let entry : get_or v'.destinations p.index 0 ≡ sub32 v.base_offset (area p) =
              place_all-before low top (k + 1) p.index ps w v' t s' numbered.1
                (omega (arith, numbered.0)) rest
              ∙ ap (λ l. get_or l p.index 0) r.destinations
              ∙ rw placed (
                  get_or-set_self v.destinations p.index (sub32 v.base_offset (area p)) 0
                    (omega (arith, numbered.0))) in
            let bounds = place-bounds p v w s t (exact_size ps) e placed (omega arith) in
            let at : add32 (get_or v'.destinations p.index 0) (u32 p.address)
                ≡ destination v.base_offset p =
              ap (λ d. add32 d (u32 p.address)) entry ∙ add32-sub32 v.base_offset p in
            let kept = place_all-length low top (p ∷ ps) v v' s s' h in
            let inside : p.index < length v.destinations = omega (arith, numbered.0, long) in
            omega (arith, at, bounds, kept, inside),
        place_all-AllLanded (k + 1) ps w v' t s' numbered.1 (omega (arith, same)) room rest,
      )
