-- ===== src/ModuleDataFactory/Placement/Bounds.antt =====
-- The copy of a module's sections stays in the room that `load` has made for it
-- (src/module/ModuleDataFactory.cpp, the first two loops of `load`).
use custom_rpxloader.Base.{
  ℕ, ◌+◌, ◌%◌, ◌^◌, ◌≤◌, ◌<◌, ◌≡◌, refl, ◌∙◌, true, some, List, [], length, ◌∷◌, inl, inr, arith,
  Bool-cases, Option-cases, if◌then◌else◌, ◌==◌, bit_and_field, if_ind,
}
use custom_rpxloader.Machine.{Machine, u32, sub32}
use custom_rpxloader.Machine.Laws.{SameOutside, SameOutside-trans, blit-outside}
use custom_rpxloader.Outcome.{done, machine, and_then_ind}
use custom_rpxloader.Reader.{Section}
use custom_rpxloader.ModuleDataFactory.Placement.Steps.{
  place-skip, place-unsupported, place-locate, store_section-IsStored,
}
use custom_rpxloader.ModuleDataFactory.Placement.{
  initial, target_address_of, is_allocated, is_placed, sht_nobits, sht_progbits, sht_rpl_imports,
  count_section, size_of_module, Placing, locate, fill, store_section, place, place_all,
}

-- The size that a section counts for, and their sum, with no wrap-around.
abbrev pub counted : Section → ℕ
counted p = if p.type == sht_rpl_imports then 0 else if is_allocated p then p.size + 1 else 0

abbrev pub exact_size : List Section → ℕ
exact_size [] = 0
exact_size (p ∷ ps) = counted p + exact_size ps

count_section-exact :
    (acc : ℕ) (p : Section) → acc + counted p < 2 ^ 32 → count_section acc p ≡ acc + counted p
unfolding count_section
count_section-exact acc p h = ground arith

size_of_module-add :
    (acc : ℕ) (ps : List Section)
    → acc + exact_size ps < 2 ^ 32
    → size_of_module acc ps ≡ acc + exact_size ps
unfolding size_of_module
size_of_module-add acc [] h = omega arith
size_of_module-add acc (p ∷ ps) h =
    rw (count_section-exact acc p (omega arith))
      (size_of_module-add (acc + counted p) ps (omega arith) ∙ omega arith)

-- A section that fits where the next one starts leaves room for those behind it, and its end does
-- not wrap around.
pub locate_room :
    (p : Section) (v v' : Placing) (d room top : ℕ)
    → locate p v ≡ some (d, v')
    → v.base_offset + (p.size + 1) + room ≤ top
    → top ≤ 2 ^ 28
    → (d + p.size < 2 ^ 32) × (v'.base_offset + room ≤ top) × (u32 p.size ≡ p.size)
unfolding locate
locate_room p v v' d room top h fits small = ground arith

pub fill-outside :
    (p : Section) (d : ℕ) (s : Machine) → SameOutside d (d + u32 p.size) s.mem (fill p d s).mem
unfolding fill
fill-outside p d s x h =
    if_ind P (p.type == sht_nobits) (blit-outside s.mem d (u32 p.size) (λ i. 0) x h)
      (if_ind P (p.type == sht_progbits) (blit-outside s.mem d (u32 p.size) p.content x h) refl)
  where
    P : Machine → Type 0
    P s' = s'.mem x ≡ s.mem x

module _ (low top : ℕ) where
  -- However a round ends, it has written between the two addresses only.
  store_section-outside :
      (p : Section) (d : ℕ) (v : Placing) (s : Machine)
      → d + u32 p.size < 2 ^ 32
      → SameOutside low top s.mem (machine (store_section low top p d v s)).mem
  unfolding store_section
  store_section-outside p d v s h x out = ground (arith, fill-outside p d s x)

  pub placed_counts : (p : Section) → is_placed p ≡ true → counted p ≡ p.size + 1
  placed_counts p h = ground arith

  place-outside :
      (p : Section) (v : Placing) (s : Machine) (room : ℕ)
      → v.base_offset + counted p + room ≤ top
      → top ≤ 2 ^ 28
      → SameOutside low top s.mem (machine (place low top p v s)).mem
  place-outside p v s room fits small x out = elim (Bool-cases (is_placed p)) [
    | inr skipped ↦ rw (place-skip low top p v s skipped) refl
    | inl placed ↦ elim (Option-cases (locate p v)) [
      | inl e ↦ rw (place-unsupported low top p v s placed e) refl
      | inr ((d, v'), e) ↦
          let r = locate_room p v v' d room top e (omega (arith, placed_counts p placed)) small in
          rw (place-locate low top p v v' d s placed e)
            (store_section-outside p d v' s (omega (arith, r)) x out)
    ]
  ]

  pub place_room :
      (p : Section) (v v' : Placing) (s s' : Machine) (room : ℕ)
      → place low top p v s ≡ done v' s'
      → v.base_offset + counted p + room ≤ top
      → top ≤ 2 ^ 28
      → v'.base_offset + room ≤ top
  place_room p v v' s s' room h fits small = elim (Bool-cases (is_placed p)) [
    | inr skipped ↦ ground (arith, rw (place-skip low top p v s skipped) at h)
    | inl placed ↦ elim (Option-cases (locate p v)) [
      | inl e ↦ cc (rw (place-unsupported low top p v s placed e) at h)
      | inr ((d, v1), e) ↦
          let r = locate_room p v v1 d room top e (omega (arith, placed_counts p placed)) small in
          omega (
            arith,
            r,
            (store_section-IsStored low top p d v1 v' s s'
                (rw (place-locate low top p v v1 d s placed e) at h)).base,
          )
    ]
  ]

  place_all-outside :
      (ps : List Section) (v : Placing) (s : Machine)
      → v.base_offset + exact_size ps ≤ top
      → top ≤ 2 ^ 28
      → SameOutside low top s.mem (machine (place_all low top ps v s)).mem
  unfolding place_all
  place_all-outside [] v s fits small = λ x out. refl
  place_all-outside (p ∷ ps) v s fits small =
      and_then_ind (λ s'. SameOutside low top s.mem s'.mem) (place low top p v s)
        (λ v' s'. place_all low top ps v' s')
        (place-outside p v s (exact_size ps) (omega arith) small)
        λ v' s' e same. SameOutside-trans low top {m = s.mem} {m' = s'.mem} same (
          place_all-outside ps v' s' (place_room p v v' s s' (exact_size ps) e (omega arith) small)
            small)

pub size_of_module-exact :
    (ps : List Section) → exact_size ps < 2 ^ 32 → size_of_module 0 ps ≡ exact_size ps
size_of_module-exact ps h = size_of_module-add 0 ps (omega arith) ∙ omega arith

-- The module's lowest address leaves room for its size, and is at most 255 bytes below that.
pub target_address_of_bounds :
    (destination_address size : ℕ)
    → size ≤ destination_address
    → destination_address < 2 ^ 32
    → (target_address_of destination_address size + size ≤ destination_address)
      × (destination_address < target_address_of destination_address size + size + 256)
      × (target_address_of destination_address size % 256 ≡ 0)
target_address_of_bounds d size h lt = ground (arith, bit_and_field 8 24 (sub32 d size))

-- If the end address is at most 2 ^ 28 and the sections' true sizes do not exceed it, then however
-- the copy of the sections ends, it has changed no byte below the module's lowest address and none
-- from the end address on.
pub place_all-in_room :
    (ps : List Section) (destination_address : ℕ) (s : Machine)
    → exact_size ps ≤ destination_address
    → destination_address ≤ 2 ^ 28
    → let low = target_address_of destination_address (size_of_module 0 ps) in
      SameOutside low destination_address s.mem
        (machine (place_all low destination_address ps (initial low (length ps)) s)).mem
place_all-in_room ps top s fits small = rw (size_of_module-exact ps (omega arith)) (
    place_all-outside (target_address_of top (exact_size ps)) top ps
      (initial (target_address_of top (exact_size ps)) (length ps)) s
      (omega (arith, target_address_of_bounds top (exact_size ps) fits (omega arith))) small)
