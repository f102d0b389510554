-- ===== src/ModuleDataFactory/Image.antt =====
-- The words of a module that has been loaded (src/module/ModuleDataFactory.cpp, `load`).
mod Tests
use custom_rpxloader.Base.{
  ℕ, ◌+◌, ◌*◌, ◌%◌, ◌^◌, ◌≤◌, ◌<◌, ◌≡◌, sym, ap, ◌∙◌, subst, Bool, true, false, Option, some, List,
  [], ◌∷◌, ◌++◌, length, get_or, bit_and_field, inl, inr, Bool-cases, arith, ◌==◌, ltb, not, ◌&&◌,
  ◌||◌, length-replicate,
}
use custom_rpxloader.Machine.{Machine, u32, add32, sub32, read32}
use custom_rpxloader.Outcome.{Outcome, done, machine, and_then-eq-done}
use custom_rpxloader.Reader.{Reader, Section, Entry, Symbol}
use custom_rpxloader.Trampolin.{entry_size}
use custom_rpxloader.ElfUtils.{r_ppc_addr32}
use custom_rpxloader.ElfUtils.Frame.{Beside}
use custom_rpxloader.ModuleData.{ModuleData}
use custom_rpxloader.ModuleDataFactory.Placement.{
  is_allocated, size_of_module, target_address_of, initial, place_all, Placing,
}
use custom_rpxloader.ModuleDataFactory.Linking.{link_all, symbol_of, adjust, at}
use custom_rpxloader.ModuleDataFactory.Linking.Frame.{SparedFrom, SparedBy, Spared}
use custom_rpxloader.ModuleDataFactory.Placement.{is_placed, text_base, sht_rpl_imports, text_eq}
use custom_rpxloader.ModuleDataFactory.Placement.Landed.{IsNumbered, place_all-entry}
use custom_rpxloader.ImportRplInformation.{codes}
use custom_rpxloader.ModuleDataFactory.Placement.Symbols.{
  area_end, misplaced, adjust-destination_iff,
}
use custom_rpxloader.ModuleDataFactory.Placement.Layout.{
  area, destination, next_base, base_after, Clear, byte, place_all-bytes,
}
use custom_rpxloader.ModuleDataFactory.Linking.Frame.{link_all-frame}
use custom_rpxloader.ModuleDataFactory.Linking.Words.{link_all-word}
use custom_rpxloader.ModuleDataFactory.Imports.{import_sections, get_import_relocation_data}
use custom_rpxloader.ModuleDataFactory.Imports.Unchanged.{import_sections-machine}
use custom_rpxloader.ModuleDataFactory.Room.{load-load_reader}
use custom_rpxloader.ModuleDataFactory.{load_reader, load}

-- The three parts of a run of `load` that gives a module: the module's memory is what the linking
-- has left.
load_reader-linked :
    (reader : Reader) (allocated : Bool) (top maximum_size table n : ℕ) (s s' s1 : Machine)
    (m : ModuleData) (v : Placing)
    → load_reader reader allocated top maximum_size table n s ≡ done m s'
    → let low = target_address_of top (size_of_module 0 reader.sections) in
      place_all low top reader.sections (initial low (length reader.sections)) s ≡ done v s1
      → (s2 : Machine) × (link_all reader v.destinations low v.offset_data table n reader.sections
            s1
          ≡ done tt s2)
        × (s'.mem ≡ s2.mem)
unfolding load_reader get_import_relocation_data
load_reader-linked reader false top maximum_size table n s s' s1 m v h placed = cc
load_reader-linked reader true top maximum_size table n s s' s1 m v h placed =
    let low : ℕ = target_address_of top (size_of_module 0 reader.sections) in
    elim (Bool-cases (ltb maximum_size (size_of_module 0 reader.sections))) [
      | inl big ↦ cc (rw (load_reader, big) at h)
      | inr fine ↦
          let (u, s2, e2, rest2) =
            and_then-eq-done
              (link_all reader v.destinations low v.offset_data table n reader.sections s1) _
              (rw (load_reader, fine, placed) at h) in
          let (relocs, s3, e3, rest3) =
            and_then-eq-done (import_sections reader v.destinations reader.sections [] s2) _
              rest2 in
          (
            s2,
            e2,
            ap (λ o. (machine o).mem) (sym rest3)
                ∙ ap (λ o. (machine o).mem) (sym e3)
                ∙ ap (λ t. t.mem)
                    (import_sections-machine reader v.destinations reader.sections [] s2),
          )
    ]

-- A section that the copy loop does not pass over by its type or its name.
abbrev is_kept : Section → Bool
is_kept p = not (p.type == sht_rpl_imports || text_eq p.name (codes ".wut_load_bounds"))

and_right : (a b : Bool) → (a && b) ≡ true → b ≡ true
and_right true b h = h
and_right false b h = cc

place_sum :
    (b : ℕ) (q : Section) (offset j : ℕ)
    → offset ≡ u32 q.address + j
    → add32 (sub32 b (area q)) offset ≡ add32 (destination b q) j
place_sum b q offset j h = ground (arith, h)

module _ (file : Option (List ℕ)) (parse : List ℕ → Option Reader) (allocated : Bool)
    (top maximum_size table n : ℕ) (buffer : List ℕ) (reader : Reader) where
  -- The word of an entry of the type R_PPC_ADDR32 is in the end what `linkSection` takes for the
  -- symbol's address plus the addend.
  load-adjusted_word :
      (pre post before after : List Section) (q p : Section) (i : ℕ) (e : Entry) (symbol : Symbol)
      (symbol_addr : ℕ) (s s' s1 : Machine) (m : ModuleData) (v : Placing)
      → file ≡ some buffer
      → parse buffer ≡ some reader
      → load file parse allocated top maximum_size table n s ≡ done m s'
      → let low = target_address_of top (size_of_module 0 reader.sections) in
        place_all low top reader.sections (initial low (length reader.sections)) s ≡ done v s1
        → reader.sections ≡ pre ++ q ∷ post
        → is_allocated q ≡ true
        → reader.sections ≡ before ++ p ∷ after
        → (p.info == q.index) ≡ true
        → i < u32 (reader.entries_num p)
        → reader.get_entry p i ≡ some e
        → symbol_of reader p e ≡ some symbol
        → adjust low v.offset_data symbol.value ≡ at symbol_addr
        → e.type % 2 ^ 8 ≡ r_ppc_addr32
        → let destination = get_or v.destinations q.index 0 in
          let place = add32 destination (u32 e.offset) in
          ((x : ℕ)
            → place ≤ x
            → x < place + 4
            → Beside x table (entry_size * n)
              × SparedFrom x reader destination p (i + 1)
              × SparedBy x reader destination q.index after
              × Spared x reader v.destinations post)
          → read32 s'.mem place ≡ add32 symbol_addr (u32 e.addend)
  load-adjusted_word pre post before after q p i e symbol symbol_addr s s' s1 m v read parsed h
        placed split allocated_lem whole own lt found known adjusted addr32 spared =
      let low : ℕ = target_address_of top (size_of_module 0 reader.sections) in
      let place : ℕ = add32 (get_or v.destinations q.index 0) (u32 e.offset) in
      let run =
        sym (
          load-load_reader file parse allocated top maximum_size table n s buffer reader read
            parsed)
        ∙ h in
      let (s2, linked, same) =
        load_reader-linked reader allocated top maximum_size table n s s' s1 m v run placed in
      ap (λ mem. read32 mem place) same
      ∙ link_all-word reader v.destinations low v.offset_data table n pre post before after q p i e
          symbol symbol_addr s1 s2
          (subst
            (λ list. link_all reader v.destinations low v.offset_data table n list s1 ≡ done tt s2)
            split linked)
          allocated_lem whole own lt found known adjusted addr32 spared

  -- If `load` gives a module whose sections are numbered as they stand, the word of an entry of the
  -- type R_PPC_ADDR32 that is for the place `j` bytes behind the start of a placed section, with a
  -- symbol `k` bytes behind the start of a placed section, stands in the end `j` bytes behind the
  -- destination of the first section, and is the address `k` bytes behind the destination of the
  -- second plus the addend, if there is no code, modulo 2 ^ 32, in the sections before the second, if
  -- it is one of code, and in those behind it, if it is one of data, and if no byte of the word is in
  -- the trampoline table or in the word of an entry that comes later.
  pub load-word :
      (pre post before after pre' post' : List Section) (q p r : Section) (i j k : ℕ) (e : Entry)
      (symbol : Symbol) (s s' s1 : Machine) (m : ModuleData) (v : Placing)
      → file ≡ some buffer
      → parse buffer ≡ some reader
      → load file parse allocated top maximum_size table n s ≡ done m s'
      → let low = target_address_of top (size_of_module 0 reader.sections) in
        place_all low top reader.sections (initial low (length reader.sections)) s ≡ done v s1
        → IsNumbered 0 reader.sections
        → reader.sections ≡ pre ++ q ∷ post
        → is_placed q ≡ true
        → reader.sections ≡ before ++ p ∷ after
        → (p.info == q.index) ≡ true
        → i < u32 (reader.entries_num p)
        → reader.get_entry p i ≡ some e
        → u32 e.offset ≡ u32 q.address + j
        → symbol_of reader p e ≡ some symbol
        → reader.sections ≡ pre' ++ r ∷ post'
        → is_placed r ≡ true
        → symbol.value ≡ u32 r.address + k
        → text_base ≤ u32 r.address
        → u32 r.address + k < area_end r
        → misplaced r pre' post' % 2 ^ 32 ≡ 0
        → e.type % 2 ^ 8 ≡ r_ppc_addr32
        → let start = get_or v.destinations q.index 0 in
          let place = add32 (destination (base_after low pre) q) j in
          ((x : ℕ)
            → place ≤ x
            → x < place + 4
            → Beside x table (entry_size * n)
              × SparedFrom x reader start p (i + 1)
              × SparedBy x reader start q.index after
              × Spared x reader v.destinations post)
          → read32 s'.mem place
            ≡ add32 (add32 (destination (base_after low pre') r) k) (u32 e.addend)
  load-word pre post before after pre' post' q p r i j k e symbol s s' s1 m v read parsed h placed
        numbered split here_q whole own lt found offset known section here value from to right
        addr32 spared =
      let low : ℕ = target_address_of top (size_of_module 0 reader.sections) in
      let size : ℕ = length reader.sections in
      let small : low < 2 ^ 32 =
        ground (arith, bit_and_field 8 24 (sub32 top (size_of_module 0 reader.sections))) in
      let run : (list : List Section)
          → reader.sections ≡ list
          → place_all low top list (initial low size) s ≡ done v s1 =
        λ list e'. subst (λ l. place_all low top l (initial low size) s ≡ done v s1) e' placed in
      let adjusted =
        ap (λ a. adjust low v.offset_data a) value
        ∙ (adjust-destination_iff pre' post' r low top size v s s1 k
              (run (pre' ++ r ∷ post') section) small here from to).1
            right in
      let long : length (pre ++ q ∷ post) ≤ length (initial low size).destinations =
        omega (arith, length-replicate {A = ℕ} size 0, ap (λ l. length l) split) in
      let entry =
        place_all-entry low top pre post q (initial low size) v s s1
          (subst (λ l. IsNumbered 0 l) split numbered) long (run (pre ++ q ∷ post) split) here_q in
      let same : add32 (get_or v.destinations q.index 0) (u32 e.offset)
          ≡ add32 (destination (base_after low pre) q) j =
        ap (λ d. add32 d (u32 e.offset)) entry
        ∙ place_sum (base_after low pre) q (u32 e.offset) j offset in
      rw (← same) (
        load-adjusted_word pre post before after q p i e symbol
          (add32 (destination (base_after low pre') r) k) s s' s1 m v read parsed h placed split
          (and_right (is_kept q) (is_allocated q) here_q) whole own lt found known adjusted addr32
          (λ x above below. spared x (omega (arith, same, above)) (omega (arith, same, below))))

  -- If `load` gives a module, a placed section's bytes stand in the end at its destination, its
  -- content or zeros, wherever no later section has been put over them, no entry's word is and the
  -- trampoline table is not.
  pub load-byte :
      (pre post : List Section) (p : Section) (i : ℕ) (s s' s1 : Machine) (m : ModuleData)
      (v : Placing)
      → file ≡ some buffer
      → parse buffer ≡ some reader
      → load file parse allocated top maximum_size table n s ≡ done m s'
      → let low = target_address_of top (size_of_module 0 reader.sections) in
        place_all low top reader.sections (initial low (length reader.sections)) s ≡ done v s1
        → reader.sections ≡ pre ++ p ∷ post
        → is_placed p ≡ true
        → i < u32 p.size
        → let b = base_after low pre in
          let x = destination b p + i in
          Clear x (next_base b p) post
          → Beside x table (entry_size * n)
          → Spared x reader v.destinations reader.sections
          → s'.mem x ≡ byte p i
  load-byte pre post p i s s' s1 m v read parsed h placed split here inside clear apart spared =
      let low : ℕ = target_address_of top (size_of_module 0 reader.sections) in
      let x : ℕ = destination (base_after low pre) p + i in
      let run =
        sym (
          load-load_reader file parse allocated top maximum_size table n s buffer reader read
            parsed)
        ∙ h in
      let (s2, linked, same) =
        load_reader-linked reader allocated top maximum_size table n s s' s1 m v run placed in
      ap (λ mem. mem x) same
      ∙ ap (λ o. (machine o).mem x) (sym linked)
      ∙ link_all-frame reader v.destinations low v.offset_data table n x reader.sections s1 apart
          spared
      ∙ place_all-bytes low top pre post p (initial low (length reader.sections)) v s s1 i
          (subst
            (λ list. place_all low top list (initial low (length reader.sections)) s ≡ done v s1)
            split placed)
          here inside clear
