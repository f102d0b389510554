-- ===== src/ModuleDataFactory/Room.antt =====
-- The memory that `load` may change (src/module/ModuleDataFactory.cpp).
use custom_rpxloader.Base.{
  ℕ, ◌+◌, ◌*◌, ◌^◌, ◌≤◌, ◌<◌, ◌≡◌, ◌⊎◌, refl, ap, ◌∙◌, Bool, true, false, Option, some, List, [],
  ◌∷◌, length, get_or, inl, inr, Bool-cases, arith, length-replicate, ltb,
}
use custom_rpxloader.Machine.{Machine, u32, add32}
use custom_rpxloader.Outcome.{failed, machine, and_then_ind}
use custom_rpxloader.Reader.{Reader, Section, Entry}
use custom_rpxloader.Trampolin.{entry_size}
use custom_rpxloader.ElfUtils.Frame.{Beside}
use custom_rpxloader.ModuleDataFactory.Placement.{
  is_placed, size_of_module, target_address_of, initial, place_all, Placing,
}
use custom_rpxloader.ModuleDataFactory.Placement.Bounds.{
  exact_size, size_of_module-exact, target_address_of_bounds, place_all-in_room,
}
use custom_rpxloader.ModuleDataFactory.Placement.Landed.{Landed, AllLanded, place_all-AllLanded}
use custom_rpxloader.ModuleDataFactory.Linking.{link_all}
use custom_rpxloader.ModuleDataFactory.Linking.Frame.{SparedBy, Spared, link_all-frame}
use custom_rpxloader.ModuleDataFactory.Imports.{import_sections, get_import_relocation_data}
use custom_rpxloader.ModuleDataFactory.{load_reader, load}
use custom_rpxloader.ModuleDataFactory.WellFormed.{IsWithin, AllWithin, EachWithin, IsWellFormed}
use custom_rpxloader.ModuleDataFactory.Imports.Unchanged.{import_sections-machine}

module _ (reader : Reader) where
  module _ (low top x : ℕ) (small : top ≤ 2 ^ 28) (outside : (x < low) ⊎ (top ≤ x)) where
    add32-Beside :
        (destinations : List ℕ) (p : Section) (e : Entry)
        → (is_placed p ≡ true → Landed low top destinations p)
        → IsWithin reader p e
        → Beside x (add32 (get_or destinations p.index 0) (u32 e.offset)) 4
    add32-Beside destinations p e landed within =
        let bounds = landed within.0 in
        let d : ℕ = get_or destinations p.index 0 in
        let start : add32 d (u32 e.offset) + u32 p.address
            ≡ add32 d (u32 p.address) + u32 e.offset =
          omega (arith, bounds, within) in
        omega (arith, bounds, within, start, outside)

    get_or-SparedBy :
        (destinations : List ℕ) (p : Section) (qs : List Section)
        → (is_placed p ≡ true → Landed low top destinations p)
        → AllWithin reader p qs
        → SparedBy x reader (get_or destinations p.index 0) p.index qs
    get_or-SparedBy destinations p [] landed within = tt
    get_or-SparedBy destinations p (q ∷ qs) landed within = (
      λ own j e found. add32-Beside destinations p e landed (within.0 own j e found),
      get_or-SparedBy destinations p qs landed within.1,
    )

    EachWithin-Spared :
        (destinations : List ℕ) (ps : List Section)
        → AllLanded low top destinations ps
        → EachWithin reader ps
        → Spared x reader destinations ps
    EachWithin-Spared destinations [] landed within = tt
    EachWithin-Spared destinations (p ∷ ps) landed within = (
      λ allocated. get_or-SparedBy destinations p reader.sections landed.0 (within.0 allocated),
      EachWithin-Spared destinations ps landed.1 within.1,
    )

  -- A module that is larger than it may be is refused before anything is written.
  pub load_reader-too_big :
      (allocated : Bool) (top maximum_size table n : ℕ) (s : Machine)
      → ltb maximum_size (size_of_module 0 reader.sections) ≡ true
      → load_reader reader allocated top maximum_size table n s ≡ failed s
  unfolding load_reader
  load_reader-too_big false top maximum_size table n s big = refl
  load_reader-too_big true top maximum_size table n s big = rw (load_reader, big) refl

  pub load_reader-in_room :
      (allocated : Bool) (top maximum_size table n : ℕ) (s : Machine) (x : ℕ)
      → IsWellFormed reader
      → exact_size reader.sections ≤ top
      → top ≤ 2 ^ 28
      → (x < target_address_of top (size_of_module 0 reader.sections)) ⊎ (top ≤ x)
      → Beside x table (entry_size * n)
      → (machine (load_reader reader allocated top maximum_size table n s)).mem x ≡ s.mem x
  unfolding load_reader get_import_relocation_data
  load_reader-in_room false top maximum_size table n s x formed fits small outside apart = refl
  load_reader-in_room true top maximum_size table n s x formed fits small outside apart =
      let low : ℕ = target_address_of top (size_of_module 0 reader.sections) in
      let start : Placing = initial low (length reader.sections) in
      let room : low + exact_size reader.sections ≤ top =
        rw (size_of_module-exact reader.sections (omega arith))
          ((target_address_of_bounds top (exact_size reader.sections) fits (omega arith)).0) in
      let long : 0 + length reader.sections ≤ length start.destinations =
        omega (arith, length-replicate {A = ℕ} (length reader.sections) 0) in
      elim (Bool-cases (ltb maximum_size (size_of_module 0 reader.sections))) [
        | inl big ↦ rw (load_reader, big) refl
        | inr fine ↦
            rw (load_reader, fine)
              (and_then_ind (λ s'. s'.mem x ≡ s.mem x) (place_all low top reader.sections start s) _
                (place_all-in_room reader.sections top s fits small x outside)
                (λ p s' e same.
                  let landed =
                    place_all-AllLanded low top small 0 reader.sections start p s s' formed.0 long
                      room e in
                  let kept =
                    link_all-frame reader p.destinations low p.offset_data table n x reader.sections
                      s' apart
                      (EachWithin-Spared low top x small outside p.destinations reader.sections
                        landed formed.1) in
                  and_then_ind (λ s2. s2.mem x ≡ s.mem x)
                    (link_all reader p.destinations low p.offset_data table n reader.sections s') _
                    (kept ∙ same)
                    (λ u s2 e2 same2.
                      and_then_ind (λ s3. s3.mem x ≡ s.mem x)
                        (import_sections reader p.destinations reader.sections [] s2) _
                        (ap (λ m. m.mem x)
                            (import_sections-machine reader p.destinations reader.sections [] s2)
                          ∙ same2)
                        (λ relocs s3 e3 same3. same3))))
      ]

-- `load` of a file that can be read and parsed.
pub load-load_reader :
    (file : Option (List ℕ)) (parse : List ℕ → Option Reader) (allocated : Bool)
    (top maximum_size table n : ℕ) (s : Machine) (buffer : List ℕ) (reader : Reader)
    → file ≡ some buffer
    → parse buffer ≡ some reader
    → load file parse allocated top maximum_size table n s
      ≡ load_reader reader allocated top maximum_size table n s
unfolding load
load-load_reader file parse allocated top maximum_size table n s buffer reader read parsed =
    rw read (rw (load, parsed) refl)

-- If the file can be read and parsed, the module's true size is no more than the address of its
-- end, which is 2 ^ 28 at most, its sections are numbered as they stand, and its relocations are
-- for words of the sections that they belong to, which are placed, then however `load` ends, it has
-- changed no byte outside the room for the module and the trampoline table.
pub load-in_room :
    (file : Option (List ℕ)) (parse : List ℕ → Option Reader) (allocated : Bool)
    (top maximum_size table n : ℕ) (s : Machine) (buffer : List ℕ) (reader : Reader) (x : ℕ)
    → file ≡ some buffer
    → parse buffer ≡ some reader
    → IsWellFormed reader
    → exact_size reader.sections ≤ top
    → top ≤ 2 ^ 28
    → (x < target_address_of top (size_of_module 0 reader.sections)) ⊎ (top ≤ x)
    → Beside x table (entry_size * n)
    → (machine (load file parse allocated top maximum_size table n s)).mem x ≡ s.mem x
load-in_room file parse allocated top maximum_size table n s buffer reader x read parsed formed fits
      small outside apart =
    rw (load-load_reader file parse allocated top maximum_size table n s buffer reader read parsed)
      (load_reader-in_room reader allocated top maximum_size table n s x formed fits small outside
        apart)
