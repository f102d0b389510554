-- ===== src/ModuleDataFactory/EntryPoint.antt =====
-- The entry point that `load` returns (src/module/ModuleDataFactory.cpp).
use custom_rpxloader.Base.{
  ℕ, ◌+◌, ◌%◌, ◌^◌, ◌≤◌, ◌≡◌, ◌↔◌, refl, sym, ap, ◌∙◌, Bool, true, false, Option, some, List, [],
  ◌∷◌, ◌++◌, length, Bool-cases, inl, inr, arith, ltb, bit_and_field,
}
use custom_rpxloader.Machine.{Machine, u32, add32, sub32}
use custom_rpxloader.Outcome.{Outcome, done, failed, fatal, and_then-eq-done}
use custom_rpxloader.Reader.{Reader, Section}
use custom_rpxloader.ModuleData.{ModuleData}
use custom_rpxloader.ModuleDataFactory.Placement.{
  size_of_module, target_address_of, initial, place_all, text_base,
}
use custom_rpxloader.ModuleDataFactory.Placement.Layout.{at_text, destination, base_after}
use custom_rpxloader.ModuleDataFactory.Placement.Symbols.{code_size, base_after-code_size}
use custom_rpxloader.ModuleDataFactory.Linking.{link_all}
use custom_rpxloader.ModuleDataFactory.Imports.{import_sections, get_import_relocation_data}
use custom_rpxloader.ModuleDataFactory.Room.{load-load_reader}
use custom_rpxloader.ModuleDataFactory.{load_reader, load}

abbrev entrypoint_of : Outcome ModuleData → ℕ
entrypoint_of o = elim o [ done m s ↦ m.entrypoint | failed s ↦ 0 | fatal s ↦ 0 ]

load_reader-entrypoint :
    (reader : Reader) (allocated : Bool) (top maximum_size table n : ℕ) (s s' : Machine)
    (m : ModuleData)
    → load_reader reader allocated top maximum_size table n s ≡ done m s'
    → m.entrypoint
      ≡ sub32
          (add32 (target_address_of top (size_of_module 0 reader.sections)) reader.entry)
          text_base
unfolding load_reader get_import_relocation_data
load_reader-entrypoint reader false top maximum_size table n s s' m h = cc
load_reader-entrypoint reader true top maximum_size table n s s' m h =
    let low : ℕ = target_address_of top (size_of_module 0 reader.sections) in
    elim (Bool-cases (ltb maximum_size (size_of_module 0 reader.sections))) [
      | inl big ↦ cc (rw (load_reader, big) at h)
      | inr fine ↦
          let (p, s1, e1, rest1) =
            and_then-eq-done
              (place_all low top reader.sections (initial low (length reader.sections)) s) _
              (rw (load_reader, fine) at h) in
          let (u, s2, e2, rest2) =
            and_then-eq-done
              (link_all reader p.destinations low p.offset_data table n reader.sections s1) _
              rest1 in
          let (relocs, s3, e3, rest3) =
            and_then-eq-done (import_sections reader p.destinations reader.sections [] s2) _
              rest2 in
          ap entrypoint_of (sym rest3)
    ]

-- If `load` gives a module and the file's entry is `i` bytes behind the address of a code section,
-- the module's entry point is `i` bytes behind the destination of the section exactly when there is
-- no code, modulo 2 ^ 32, in the sections before it.
pub load-entrypoint_iff :
    (file : Option (List ℕ)) (parse : List ℕ → Option Reader) (allocated : Bool)
    (top maximum_size table n : ℕ) (buffer : List ℕ) (reader : Reader) (pre post : List Section)
    (p : Section) (i : ℕ) (s s' : Machine) (m : ModuleData)
    → file ≡ some buffer
    → parse buffer ≡ some reader
    → load file parse allocated top maximum_size table n s ≡ done m s'
    → reader.sections ≡ pre ++ p ∷ post
    → at_text p ≡ true
    → reader.entry ≡ u32 p.address + i
    → let low = target_address_of top (size_of_module 0 reader.sections) in
      (m.entrypoint ≡ add32 (destination (base_after low pre) p) i) ↔ (code_size pre % 2 ^ 32 ≡ 0)
load-entrypoint_iff file parse allocated top maximum_size table n buffer reader pre post p i s s' m
      read parsed h split code entry =
    let low : ℕ = target_address_of top (size_of_module 0 reader.sections) in
    let run =
      sym
        (load-load_reader file parse allocated top maximum_size table n s buffer reader read parsed)
      ∙ h in
    let starts = load_reader-entrypoint reader allocated top maximum_size table n s s' m run in
    let before =
      base_after-code_size low pre
        (ground (arith, bit_and_field 8 24 (sub32 top (size_of_module 0 reader.sections)))) in
    let text : text_base ≤ u32 p.address = ground arith in
    let place : destination (base_after low pre) p
        ≡ sub32 (add32 (u32 (low + code_size pre)) (u32 p.address)) text_base =
      rw (code, before) refl in
    (
      λ q. omega (arith, q, starts, place, entry, text),
      λ q. omega (arith, q, starts, place, entry, text),
    )
