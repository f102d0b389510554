-- ===== src/ModuleDataFactory/Result/Whole.antt =====
-- The result of `load` lies in the room for the module (src/module/ModuleDataFactory.cpp).
use custom_rpxloader.Base.{
  ℕ, ◌+◌, ◌^◌, ◌≤◌, ◌≡◌, refl, Bool, true, false, List, [], ◌∷◌, length, subst, inl, inr,
  Bool-cases, arith, length-replicate, ltb,
}
use custom_rpxloader.Machine.{Machine, add32, sub32}
use custom_rpxloader.Outcome.{done, and_then-eq-done}
use custom_rpxloader.Reader.{Reader}
use custom_rpxloader.ModuleData.{
  ModuleData, RelocationData, add_relocation_data, add_all, set_entrypoint,
}
use custom_rpxloader.ModuleDataFactory.Placement.{
  size_of_module, target_address_of, initial, place_all, Placing,
}
use custom_rpxloader.ModuleDataFactory.Placement.Bounds.{
  exact_size, size_of_module-exact, target_address_of_bounds,
}
use custom_rpxloader.ModuleDataFactory.Placement.Landed.{place_all-AllLanded}
use custom_rpxloader.ModuleDataFactory.Linking.{link_all}
use custom_rpxloader.ModuleDataFactory.Imports.{import_sections, get_import_relocation_data}
use custom_rpxloader.ModuleDataFactory.WellFormed.{IsWellFormed, AllImports}
use custom_rpxloader.ModuleDataFactory.Result.{AllTargets, AllTargets-snoc, IsInRoom}
use custom_rpxloader.ModuleDataFactory.Result.{place_all-IsInRoom}
use custom_rpxloader.ModuleDataFactory.Result.Imported.{import_sections-AllTargets}
use custom_rpxloader.ModuleDataFactory.{load_reader}

done_injective : {A : Type 0} {a b : A} {s t : Machine} → done a s ≡ done b t → a ≡ b
done_injective {A} {a} {b} {s} {t} h = cc

module _ (low top : ℕ) where
  add_all-IsInRoom :
      (rs : List RelocationData) (m : ModuleData)
      → IsInRoom low top m
      → AllTargets low top rs
      → IsInRoom low top (add_all rs m)
  unfolding add_all
  add_all-IsInRoom [] m h targets = h
  add_all-IsInRoom (r ∷ rs) m h targets =
      add_all-IsInRoom rs (add_relocation_data r m)
        (record {
          bss = h.bss;
          sbss = h.sbss;
          targets = AllTargets-snoc low top m.relocation_data_list r h.targets targets.0;
        })
        targets.1

-- If `load` gives a module, under the conditions on the file, its .bss and .sbss and the words that
-- its imports are for lie in the room for it.
pub load_reader-IsInRoom :
    (reader : Reader) (allocated : Bool) (top maximum_size table n : ℕ) (s s' : Machine)
    (m : ModuleData)
    → IsWellFormed reader
    → AllImports reader reader.sections
    → exact_size reader.sections ≤ top
    → top ≤ 2 ^ 28
    → load_reader reader allocated top maximum_size table n s ≡ done m s'
    → IsInRoom (target_address_of top (size_of_module 0 reader.sections)) top m
unfolding load_reader get_import_relocation_data
load_reader-IsInRoom reader false top maximum_size table n s s' m formed imports fits small h = cc
load_reader-IsInRoom reader true top maximum_size table n s s' m formed imports fits small h =
    let low : ℕ = target_address_of top (size_of_module 0 reader.sections) in
    let start : Placing = initial low (length reader.sections) in
    let room : low + exact_size reader.sections ≤ top =
      rw (size_of_module-exact reader.sections (omega arith))
        ((target_address_of_bounds top (exact_size reader.sections) fits (omega arith)).0) in
    let long : 0 + length reader.sections ≤ length start.destinations =
      omega (arith, length-replicate {A = ℕ} (length reader.sections) 0) in
    elim (Bool-cases (ltb maximum_size (size_of_module 0 reader.sections))) [
      | inl big ↦ cc (rw (load_reader, big) at h)
      | inr fine ↦
          let (p, s1, e1, rest1) =
            and_then-eq-done (place_all low top reader.sections start s) _
              (rw (load_reader, fine) at h) in
          let (u, s2, e2, rest2) =
            and_then-eq-done
              (link_all reader p.destinations low p.offset_data table n reader.sections s1) _
              rest1 in
          let (relocs, s3, e3, rest3) =
            and_then-eq-done (import_sections reader p.destinations reader.sections [] s2) _
              rest2 in
          let landed =
            place_all-AllLanded low top small 0 reader.sections start p s s1 formed.0 long room
              e1 in
          let targets =
            import_sections-AllTargets low top reader p.destinations small formed.0 landed
              reader.sections [] relocs s2 s3 imports e3 tt in
          let placed =
            place_all-IsInRoom low top small reader.sections start p s s1 e1 room
              (record { bss = inl refl; sbss = inl refl; targets = tt }) in
          let whole = add_all-IsInRoom low top relocs p.module_data placed targets in
          let entered : IsInRoom low top (
              set_entrypoint (sub32 (add32 low reader.entry) 0x02000000)
                (add_all relocs p.module_data)) =
            record { bss = whole.bss; sbss = whole.sbss; targets = whole.targets } in
          subst (IsInRoom low top) (done_injective rest3) entered
    ]
