-- ===== src/ModuleDataFactory/Placement/Symbols.antt =====
-- Where `linkSection` believes the sections to be, against where the copy loop of `load` has put
-- them (src/module/ModuleDataFactory.cpp).
use custom_rpxloader.Base.{
  ℕ, ◌+◌, ◌%◌, ◌^◌, ◌≤◌, ◌<◌, ◌≡◌, refl, ap, ◌∙◌, true, ◌&&◌, List, [], ◌∷◌, ◌++◌, inl, inr, ◌↔◌,
  arith, Bool-cases, if◌then◌else◌,
}
use custom_rpxloader.Machine.{Machine, u32, add32, sub32}
use custom_rpxloader.Outcome.{done}
use custom_rpxloader.Reader.{Section}
use custom_rpxloader.ModuleDataFactory.Placement.{
  is_placed, Placing, initial, place_all, text_base, data_base, import_base,
}
use custom_rpxloader.ModuleDataFactory.Placement.Layout.{
  at_text, destination, next_base, base_after, place_all-base,
}
use custom_rpxloader.ModuleDataFactory.Linking.{Adjusted, at, skip, unhandled, adjust}

-- The bytes of code among the placed sections.
abbrev pub code_size : List Section → ℕ
code_size [] = 0
code_size (p ∷ ps) = (if is_placed p && at_text p then u32 p.size else 0) + code_size ps

-- The bytes of code that stand on the wrong side of a section: before a code section, behind a data
-- section.
abbrev pub misplaced : Section → (pre post : List Section) → ℕ
misplaced p pre post = if at_text p then code_size pre else code_size post

-- The end of the area that the section's address is in.
abbrev pub area_end : Section → ℕ
area_end p = if at_text p then data_base else import_base

pub base_after-code_size :
    (b : ℕ) (ps : List Section) → b < 2 ^ 32 → base_after b ps ≡ u32 (b + code_size ps)
base_after-code_size b [] h = omega arith
base_after-code_size b (p ∷ ps) h = elim (Bool-cases (is_placed p && at_text p)) [
  | inl e ↦ rw (e, base_after-code_size (u32 (b + u32 p.size)) ps (omega arith)) (omega arith)
  | inr e ↦ rw (e, base_after-code_size b ps h) (omega arith)
]

base_after-append :
    (b : ℕ) (ps qs : List Section) → base_after b (ps ++ qs) ≡ base_after (base_after b ps) qs
base_after-append b [] qs = refl
base_after-append b (p ∷ ps) qs = base_after-append (next_base b p) ps qs

adjust-text :
    (low offset v : ℕ)
    → text_base ≤ v
    → v < data_base
    → adjust low offset v ≡ at (add32 (sub32 v text_base) low)
unfolding adjust
adjust-text low offset v from to = ground arith

adjust-data :
    (low offset v : ℕ)
    → data_base ≤ v
    → v < import_base
    → adjust low offset v ≡ at (add32 (sub32 v data_base) offset)
unfolding adjust
adjust-data low offset v from to = ground arith

abbrev address_of : Adjusted → ℕ
address_of (at a) = a
address_of skip = 0
address_of unhandled = 0

sum_text :
    (low before a i : ℕ)
    → text_base ≤ a
    → (add32 (sub32 (a + i) text_base) low
          ≡ add32 (sub32 (add32 (u32 (low + before)) a) text_base) i
        → before % 2 ^ 32 ≡ 0)
      × (before % 2 ^ 32 ≡ 0
          → add32 (sub32 (a + i) text_base) low
            ≡ add32 (sub32 (add32 (u32 (low + before)) a) text_base) i)
sum_text low before a i h = (λ q. omega (arith, q), λ q. omega (arith, q))

sum_data :
    (low before behind a i : ℕ)
    → data_base ≤ a
    → (add32 (sub32 (a + i) data_base) (u32 (low + before + 0 + behind))
          ≡ add32 (sub32 (add32 (u32 (low + before)) a) data_base) i
        → behind % 2 ^ 32 ≡ 0)
      × (behind % 2 ^ 32 ≡ 0
          → add32 (sub32 (a + i) data_base) (u32 (low + before + 0 + behind))
            ≡ add32 (sub32 (add32 (u32 (low + before)) a) data_base) i)
sum_data low before behind a i h = (λ q. omega (arith, q), λ q. omega (arith, q))

at_iff : (a b n : ℕ) → (a ≡ b → n ≡ 0) × (n ≡ 0 → a ≡ b) → (at a ≡ at b) ↔ (n ≡ 0)
at_iff a b n (f, g) = (λ q. f (ap address_of q), λ q. ap at (g q))

-- The address that a symbol in a section is given, if the sections before it and those behind it
-- have so much code.
symbol_sum :
    (p : Section) (low before behind i : ℕ)
    → text_base ≤ u32 p.address
    → u32 p.address + i < area_end p
    → let offset = u32 (low + before + (if at_text p then u32 p.size else 0) + behind) in
      (adjust low offset (u32 p.address + i) ≡ at (add32 (destination (u32 (low + before)) p) i))
      ↔ ((if at_text p then before else behind) % 2 ^ 32 ≡ 0)
symbol_sum p low before behind i from to = elim (Bool-cases (at_text p)) [
  | inl e ↦
      let small : u32 p.address + i < data_base = ground arith in
      rw
        (
          e,
          adjust-text low (u32 (low + before + u32 p.size + behind)) (u32 p.address + i)
              (omega arith) small,
        )
        (at_iff (add32 (sub32 (u32 p.address + i) text_base) low)
          (add32 (sub32 (add32 (u32 (low + before)) (u32 p.address)) text_base) i) (before % 2 ^ 32)
          (sum_text low before (u32 p.address) i from))
  | inr e ↦
      let large : data_base ≤ u32 p.address = ground arith in
      let small : u32 p.address + i < import_base = ground arith in
      rw
        (
          e,
          adjust-data low (u32 (low + before + 0 + behind)) (u32 p.address + i) (omega arith) small,
        )
        (at_iff (add32 (sub32 (u32 p.address + i) data_base) (u32 (low + before + 0 + behind)))
          (add32 (sub32 (add32 (u32 (low + before)) (u32 p.address)) data_base) i) (behind % 2 ^ 32)
          (sum_data low before behind (u32 p.address) i large))
]

code_size-append : (ps qs : List Section) → code_size (ps ++ qs) ≡ code_size ps + code_size qs
code_size-append [] qs = omega arith
code_size-append (p ∷ ps) qs = omega (arith, code_size-append ps qs)

-- The symbol table's address of a byte of a placed section, adjusted by the offsets that the copy
-- loop has left, is the address where the loop has put the section's byte exactly when there is no
-- code, modulo 2 ^ 32, in the sections before it, for a code section, and in the sections behind
-- it, for a data section.
pub adjust-destination_iff :
    (pre post : List Section) (p : Section) (low top n : ℕ) (v' : Placing) (s s' : Machine) (i : ℕ)
    → place_all low top (pre ++ p ∷ post) (initial low n) s ≡ done v' s'
    → low < 2 ^ 32
    → is_placed p ≡ true
    → text_base ≤ u32 p.address
    → u32 p.address + i < area_end p
    → (adjust low v'.offset_data (u32 p.address + i)
        ≡ at (add32 (destination (base_after low pre) p) i))
      ↔ (misplaced p pre post % 2 ^ 32 ≡ 0)
adjust-destination_iff pre post p low top n v' s s' i run small placed from to =
    let sums : v'.offset_data
        ≡ u32 (low + code_size pre + (if at_text p then u32 p.size else 0) + code_size post) =
      (place_all-base low top (pre ++ p ∷ post) (initial low n) v' s s' run).1
      ∙ base_after-code_size low (pre ++ p ∷ post) small
      ∙ rw (code_size-append pre (p ∷ post), placed) (omega arith) in
    rw (sums, base_after-code_size low pre small)
      (symbol_sum p low (code_size pre) (code_size post) i from to)
