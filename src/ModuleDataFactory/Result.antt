-- ===== src/ModuleDataFactory/Result.antt =====
-- The addresses in what `load` returns (src/module/ModuleDataFactory.cpp).
pub mod Imported
pub mod Whole
use custom_rpxloader.Base.{
  ℕ, zero, suc, ◌+◌, ◌^◌, ◌≤◌, ◌<◌, ◌≡◌, ◌⊎◌, refl, sym, ap, ◌∙◌, Bool, true, false, not, Option,
  none, some, List, [], ◌∷◌, ◌++◌, length, replicate, get_or, get_elem?, subst, inl, inr,
  Bool-cases, Option-cases, arith, if◌then◌else◌, length-replicate, ◌==◌, ltb, ◌||◌,
}
use custom_rpxloader.Machine.{Machine, u32, add32, sub32}
use custom_rpxloader.Outcome.{done, machine, and_then-eq-done}
use custom_rpxloader.Reader.{Reader, Section, Entry, Symbol}
use custom_rpxloader.ModuleData.{
  ModuleData, RelocationData, add_relocation_data, add_all, set_bss_location, set_sbss_location,
}
use custom_rpxloader.ImportRplInformation.{
  ImportRplInformation, create_import_rpl_information, codes,
}
use custom_rpxloader.ModuleDataFactory.Placement.{
  is_placed, is_allocated, size_of_module, target_address_of, initial, place, place_all, locate,
  store_section, remember, Placing, import_base, text_eq,
}
use custom_rpxloader.ModuleDataFactory.Placement.Bounds.{
  counted, exact_size, size_of_module-exact, target_address_of_bounds, locate_room, place_room,
  placed_counts,
}
use custom_rpxloader.ModuleDataFactory.Placement.Steps.{
  place-skip, place-unsupported, place-locate, store_section-IsStored,
}
use custom_rpxloader.ModuleDataFactory.Placement.Landed.{
  IsNumbered, Landed, AllLanded, place_all-AllLanded,
}
use custom_rpxloader.ModuleDataFactory.Linking.{link_all, symbol_of}
use custom_rpxloader.ModuleDataFactory.Imports.{
  import_entries, import_sections, get_import_relocation_data, info_map, sht_rela, sht_rel,
  relocation_data,
}
use custom_rpxloader.ModuleDataFactory.WellFormed.{IsWithin, IsWellFormed}
use custom_rpxloader.ModuleDataFactory.{load_reader, load}

module _ (low top : ℕ) where
  -- A part of the module of `size` bytes, unless its address is 0.
  abbrev pub InRoom : (address size : ℕ) → Type 0
  InRoom address size = (address ≡ 0) ⊎ ((low ≤ address) × (address + size ≤ top))

  abbrev pub AllTargets : List RelocationData → Type 0
  AllTargets [] = Unit {0}
  AllTargets (r ∷ rs) =
      ((low ≤ add32 r.destination r.offset) × (add32 r.destination r.offset + 4 ≤ top))
      × AllTargets rs

  pub AllTargets-snoc :
      (rs : List RelocationData) (r : RelocationData)
      → AllTargets rs
      → (low ≤ add32 r.destination r.offset) × (add32 r.destination r.offset + 4 ≤ top)
      → AllTargets (rs ++ r ∷ [])
  AllTargets-snoc [] r h t = (t, tt)
  AllTargets-snoc (q ∷ rs) r h t = (h.0, AllTargets-snoc rs r h.1 t)

  pub record IsInRoom (m : ModuleData) : Type 0 where
    pub bss : InRoom m.bss_addr m.bss_size
    pub sbss : InRoom m.sbss_addr m.sbss_size
    pub targets : AllTargets m.relocation_data_list

  remember-IsInRoom :
      (p : Section) (d : ℕ) (m : ModuleData)
      → IsInRoom m
      → low ≤ d
      → d + u32 p.size ≤ top
      → IsInRoom (remember p d m)
  unfolding remember
  remember-IsInRoom p d m h above below = elim (Bool-cases (text_eq p.name (codes ".bss"))) [
    | inl e ↦
        rw (remember, e) (record { bss = inr (above, below); sbss = h.sbss; targets = h.targets })
    | inr e ↦ elim (Bool-cases (text_eq p.name (codes ".sbss"))) [
      | inl e' ↦
          rw (remember, e, e')
            (record { bss = h.bss; sbss = inr (above, below); targets = h.targets })
      | inr e' ↦ rw (remember, e, e') h
    ]
  ]

  store_section-data :
      (p : Section) (d : ℕ) (v v' : Placing) (s s' : Machine)
      → store_section low top p d v s ≡ done v' s'
      → v'.module_data ≡ remember p d v.module_data
  unfolding store_section
  store_section-data p d v v' s s' h = ground arith

  locate-data :
      (p : Section) (v v' : Placing) (d : ℕ)
      → locate p v ≡ some (d, v')
      → v'.module_data ≡ v.module_data
  unfolding locate
  locate-data p v v' d h = ground arith

  module _ (small : top ≤ 2 ^ 28) where
    place-IsInRoom :
        (p : Section) (v v' : Placing) (s s' : Machine) (room : ℕ)
        → place low top p v s ≡ done v' s'
        → v.base_offset + counted p + room ≤ top
        → IsInRoom v.module_data
        → IsInRoom v'.module_data
    place-IsInRoom p v v' s s' room h fits data_lem = elim (Bool-cases (is_placed p)) [
      | inr skipped ↦
          let same : v ≡ v' = cc (rw (place-skip low top p v s skipped) at h) in
          subst (λ w. IsInRoom w.module_data) same data_lem
      | inl placed ↦ elim (Option-cases (locate p v)) [
        | inl e ↦ cc (rw (place-unsupported low top p v s placed e) at h)
        | inr ((d, v1), e) ↦
            let r =
              locate_room p v v1 d room top e (omega (arith, placed_counts low top p placed))
                small in
            let stored = rw (place-locate low top p v v1 d s placed e) at h in
            let t = store_section-IsStored low top p d v1 v' s s' stored in
            subst IsInRoom
              (sym (
                store_section-data p d v1 v' s s' stored
                ∙ ap (remember p d) (locate-data p v v1 d e)))
              (remember-IsInRoom p d v.module_data data_lem t.not_below
                (omega (arith, r, t.not_above)))
      ]
    ]

    pub place_all-IsInRoom :
        (ps : List Section) (v v' : Placing) (s s' : Machine)
        → place_all low top ps v s ≡ done v' s'
        → v.base_offset + exact_size ps ≤ top
        → IsInRoom v.module_data
        → IsInRoom v'.module_data
    unfolding place_all
    place_all-IsInRoom [] v v' s s' h fits data_lem =
        let same : v ≡ v' = cc in subst (λ w. IsInRoom w.module_data) same data_lem
    place_all-IsInRoom (p ∷ ps) v v' s s' h fits data_lem =
        let (w, t, e, rest) =
          and_then-eq-done (place low top p v s) (λ v1 s1. place_all low top ps v1 s1) h in
        place_all-IsInRoom ps w v' t s' rest
          (place_room low top p v w s t (exact_size ps) e (omega arith) small)
          (place-IsInRoom p v w s t (exact_size ps) e (omega arith) data_lem)
