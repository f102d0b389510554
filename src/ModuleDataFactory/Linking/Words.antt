-- ===== src/ModuleDataFactory/Linking/Words.antt =====
-- What the relocation of a module puts into its words (src/module/ModuleDataFactory.cpp,
-- `linkSection` and the loop of `load` that calls it).
use custom_rpxloader.Base.{
  ℕ, ◌+◌, ◌*◌, ◌%◌, ◌^◌, ◌≤◌, ◌<◌, ◌≡◌, sym, ap, ◌∙◌, Bool, true, some, List, ◌∷◌, ◌++◌, subst,
  arith, ◌==◌, get_or,
}
use custom_rpxloader.Machine.{Machine, u32, add32, read32, write32}
use custom_rpxloader.Machine.Laws.{read32-write32}
use custom_rpxloader.Outcome.{done, machine}
use custom_rpxloader.Reader.{Section, Entry, Symbol, Reader}
use custom_rpxloader.Trampolin.{entry_size}
use custom_rpxloader.ElfUtils.{link_one, r_ppc_addr32}
use custom_rpxloader.ElfUtils.Frame.{Beside}
use custom_rpxloader.ModuleDataFactory.Placement.{is_allocated}
use custom_rpxloader.ModuleDataFactory.Linking.Frame.{
  SparedFrom, SparedBy, Spared, link_entries-Keeps, link_sections-Keeps, link_all-frame,
}
use custom_rpxloader.ModuleDataFactory.Linking.{at, adjust, symbol_of, link_sections, link_all}
use custom_rpxloader.ModuleDataFactory.Linking.Rounds.{
  Runs, Round, call, link_of, link_entry-call, link_entries-split, link_sections-split,
  link_all-split,
}

read32-same :
    (m m' : ℕ → ℕ) (a : ℕ) → ((k : ℕ) → k < 4 → m (a + k) ≡ m' (a + k)) → read32 m a ≡ read32 m' a
unfolding read32
read32-same m m' a h =
    let first : m a ≡ m' a = subst (λ i. m i ≡ m' i) (omega arith) (h 0 (omega arith)) in
    omega (arith, first, h 1 (omega arith), h 2 (omega arith), h 3 (omega arith))

module _ (reader : Reader) where
  module _ (destinations : List ℕ) (base_text base_data table n : ℕ) where
    -- The words that an entry's round leaves stay, where no later entry and no trampoline is.
    link_all-call :
        (pre post before after : List Section) (q p : Section) (i : ℕ) (e : Entry) (symbol : Symbol)
        (symbol_addr : ℕ) (s s' : Machine)
        → Runs (link_all reader destinations base_text base_data table n (pre ++ q ∷ post)) s s'
        → is_allocated q ≡ true
        → reader.sections ≡ before ++ p ∷ after
        → (p.info == q.index) ≡ true
        → i < u32 (reader.entries_num p)
        → reader.get_entry p i ≡ some e
        → symbol_of reader p e ≡ some symbol
        → adjust base_text base_data symbol.value ≡ at symbol_addr
        → (t t' : Machine) × (call
              (link_of destinations base_text base_data table n q)
              e
              symbol_addr
              t
            ≡ (true, t'))
          × ((x : ℕ)
              → Beside x table (entry_size * n)
              → SparedFrom x reader
                  (link_of destinations base_text base_data table n q).destination
                  p
                  (i + 1)
              → SparedBy x reader
                  (link_of destinations base_text base_data table n q).destination
                  q.index
                  after
              → Spared x reader destinations post
              → s'.mem x ≡ t'.mem x)
    link_all-call pre post before after q p i e symbol symbol_addr s s' h allocated whole own lt
          found known adjusted =
        let l = link_of destinations base_text base_data table n q in
        let (s1, s2, section, later) =
          link_all-split reader destinations base_text base_data table n pre post q s s' allocated
            h in
        let (s3, s4, entries, sections) =
          link_sections-split reader l q.index before after p s1 s2 own
            (subst (λ list. Runs (link_sections reader l q.index list) s1 s2) whole section) in
        let round : Round reader l p s4 i =
          subst (Round reader l p s4) (omega arith)
            (link_entries-split reader l p (u32 (reader.entries_num p)) 0 i s3 s4 lt entries) in
        let (t, t', k, entry, rest) = round in
        (
          t,
          t',
          link_entry-call reader l p i e symbol symbol_addr t t' found known adjusted entry,
          λ x apart from by spared.
              ap (λ o. (machine o).mem x) (sym later)
              ∙ link_all-frame reader destinations base_text base_data table n x post s2 apart
                  spared
              ∙ ap (λ o. (machine o).mem x) (sym sections)
              ∙ link_sections-Keeps x reader l apart q.index after s4 by
              ∙ ap (λ o. (machine o).mem x) (sym rest)
              ∙ link_entries-Keeps x reader l apart p k (i + 1) t' from,
        )

  -- After the loop that links a module, the word of an entry of the type R_PPC_ADDR32 for a placed
  -- section is the address that the symbol has in the module plus the addend, if no byte of the word
  -- is in the trampoline table or in the word of a later entry.
  pub link_all-word :
      (destinations : List ℕ) (base_text base_data table n : ℕ)
      (pre post before after : List Section) (q p : Section) (i : ℕ) (e : Entry) (symbol : Symbol)
      (symbol_addr : ℕ) (s s' : Machine)
      → link_all reader destinations base_text base_data table n (pre ++ q ∷ post) s ≡ done tt s'
      → is_allocated q ≡ true
      → reader.sections ≡ before ++ p ∷ after
      → (p.info == q.index) ≡ true
      → i < u32 (reader.entries_num p)
      → reader.get_entry p i ≡ some e
      → symbol_of reader p e ≡ some symbol
      → adjust base_text base_data symbol.value ≡ at symbol_addr
      → e.type % 2 ^ 8 ≡ r_ppc_addr32
      → let destination = get_or destinations q.index 0 in
        let place = add32 destination (u32 e.offset) in
        ((x : ℕ)
          → place ≤ x
          → x < place + 4
          → Beside x table (entry_size * n)
            × SparedFrom x reader destination p (i + 1)
            × SparedBy x reader destination q.index after
            × Spared x reader destinations post)
        → read32 s'.mem place ≡ add32 symbol_addr (u32 e.addend)
  unfolding link_one
  link_all-word destinations base_text base_data table n pre post before after q p i e symbol
        symbol_addr s s' h allocated whole own lt found known adjusted addr32 spared =
      let place : ℕ = add32 (get_or destinations q.index 0) (u32 e.offset) in
      let value : ℕ = add32 symbol_addr (u32 e.addend) in
      let (t, t', called, kept) =
        link_all-call destinations base_text base_data table n pre post before after q p i e symbol
          symbol_addr s s' h allocated whole own lt found known adjusted in
      let stored : t'.mem ≡ write32 t.mem place value =
        ap (λ (r : Bool × Machine). r.1.mem) (sym (rw addr32 at called)) in
      let byte : (k : ℕ) → k < 4 → s'.mem (place + k) ≡ write32 t.mem place value (place + k) =
        λ k small.
          let (apart, from, by, later) = spared (place + k) (omega arith) (omega arith) in
          kept (place + k) apart from by later ∙ ap (λ m. m (place + k)) stored in
      read32-same s'.mem (write32 t.mem place value) place byte
      ∙ read32-write32 t.mem place value (omega arith)
