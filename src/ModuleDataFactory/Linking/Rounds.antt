-- ===== src/ModuleDataFactory/Linking/Rounds.antt =====
-- The rounds that the relocation of a module consists of (src/module/ModuleDataFactory.cpp,
-- `linkSection` and the loop of `load` that calls it).
use custom_rpxloader.Base.{
  ℕ, zero, suc, ◌+◌, ◌%◌, ◌^◌, ◌<◌, ◌≡◌, Bool, true, false, some, List, [], ◌∷◌, ◌++◌, inl, inr,
  subst, arith, Bool-cases, ◌==◌, ltb, get_or, if◌then◌else◌,
}
use custom_rpxloader.Machine.{Machine, u32}
use custom_rpxloader.Outcome.{Cmd, done, and_then-eq-done, ◌>>◌, pure}
use custom_rpxloader.Reader.{Section, Entry, Symbol, Reader}
use custom_rpxloader.Trampolin.{fixed}
use custom_rpxloader.ElfUtils.{link_one}
use custom_rpxloader.ModuleDataFactory.Placement.{is_allocated}
use custom_rpxloader.ModuleDataFactory.Linking.{
  at, adjust, shn_abs, shn_loreserve, linked, Link, link_call, link_symbol, symbol_of, link_entry,
  link_entries, link_sections, link_section, link_all,
}

-- A command that ends normally, between two machines.
abbrev pub Runs : Cmd (Unit {0}) → Machine → Machine → Type 0
Runs command s s' = command s ≡ done tt s'

then-Runs :
    (m k : Cmd (Unit {0})) (s s' : Machine)
    → Runs (m >> k) s s'
    → (t : Machine) × Runs m s t × Runs k t s'
then-Runs m k s s' h = let (u, t, e, rest) = and_then-eq-done (m s) (λ _. k) h in (t, e, rest)

linked-done : (r : Bool × Machine) (s : Machine) → linked r ≡ done tt s → r ≡ (true, s)
linked-done (true, t) s h = cc
linked-done (false, t) s h = cc

-- The call of `elfLinkOne` for an entry.
abbrev pub call : Link → Entry → ℕ → Machine → Bool × Machine
call l e symbol_addr s =
    link_one (e.type % 2 ^ 8) (u32 e.offset) (u32 e.addend) l.destination symbol_addr
      l.trampolin_data l.trampolin_data_length fixed s

-- The arguments of `linkSection` for a section.
module _ (destinations : List ℕ) (base_text base_data table n : ℕ) where
  abbrev pub link_of : Section → Link
  link_of q = record {
    destination = get_or destinations q.index 0;
    base_text = base_text;
    base_data = base_data;
    trampolin_data = table;
    trampolin_data_length = n;
  }

module _ (reader : Reader) where
  link_symbol-call :
      (l : Link) (e : Entry) (symbol : Symbol) (symbol_addr : ℕ) (s s' : Machine)
      → adjust l.base_text l.base_data symbol.value ≡ at symbol_addr
      → Runs (link_symbol l e symbol) s s'
      → call l e symbol_addr s ≡ (true, s')
  unfolding link_symbol link_call
  link_symbol-call l e symbol symbol_addr s s' q h =
      elim (Bool-cases (symbol.section_index == shn_abs)) [
        | inl absolute ↦
            linked-done (call l e symbol_addr s) s' (rw (link_symbol, q, absolute) at h)
        | inr other ↦ elim (Bool-cases (ltb shn_loreserve symbol.section_index)) [
          | inl reserved ↦ cc (rw (link_symbol, q, other, reserved) at h)
          | inr usual ↦
              linked-done (call l e symbol_addr s) s' (rw (link_symbol, q, other, usual) at h)
        ]
      ]

  pub link_entry-call :
      (l : Link) (p : Section) (j : ℕ) (e : Entry) (symbol : Symbol) (symbol_addr : ℕ)
      (s s' : Machine)
      → reader.get_entry p j ≡ some e
      → symbol_of reader p e ≡ some symbol
      → adjust l.base_text l.base_data symbol.value ≡ at symbol_addr
      → Runs (link_entry reader l p j) s s'
      → call l e symbol_addr s ≡ (true, s')
  unfolding link_entry
  link_entry-call l p j e symbol symbol_addr s s' found known q h =
      link_symbol-call l e symbol symbol_addr s s' q (rw (link_entry, found, known) at h)

  -- The round of one entry, with those behind it, which end in `s'`.
  abbrev pub Round : Link → Section → Machine → ℕ → Type 0
  Round l p s' i =
      (t t' : Machine) × (n : ℕ) × Runs (link_entry reader l p i) t t'
      × Runs (link_entries reader l p n (i + 1)) t' s'

  pub link_entries-split :
      (l : Link) (p : Section) (k j i : ℕ) (s s' : Machine)
      → i < k
      → Runs (link_entries reader l p k j) s s'
      → Round l p s' (j + i)
  unfolding link_entries
  link_entries-split l p zero j i s s' lt h = absurd (omega arith)
  link_entries-split l p (suc k) j zero s s' lt h =
      let (t, e, rest) =
        then-Runs (link_entry reader l p j) (link_entries reader l p k (j + 1)) s s' h in
      let same : j ≡ j + 0 = omega arith in subst (Round l p s') same (s, t, k, e, rest)
  link_entries-split l p (suc k) j (suc i) s s' lt h =
      let (t, e, rest) =
        then-Runs (link_entry reader l p j) (link_entries reader l p k (j + 1)) s s' h in
      let same : j + 1 + i ≡ j + suc i = omega arith in
      subst (Round l p s') same (link_entries-split l p k (j + 1) i t s' (omega arith) rest)

  pub link_sections-split :
      (l : Link) (i : ℕ) (before after : List Section) (p : Section) (s s' : Machine)
      → (p.info == i) ≡ true
      → Runs (link_sections reader l i (before ++ p ∷ after)) s s'
      → (t t' : Machine) × Runs (link_entries reader l p (u32 (reader.entries_num p)) 0) t t'
        × Runs (link_sections reader l i after) t' s'
  unfolding link_sections
  link_sections-split l i [] after p s s' own h =
      let (t, e, rest) =
        then-Runs (link_entries reader l p (u32 (reader.entries_num p)) 0)
          (link_sections reader l i after) s s' (rw own at h) in
      (s, t, e, rest)
  link_sections-split l i (q ∷ before) after p s s' own h =
      let (t, e, rest) =
        then-Runs (this_section q) (link_sections reader l i (before ++ p ∷ after)) s s' h in
      link_sections-split l i before after p t s' own rest
    where
      this_section : Section → Cmd (Unit {0})
      this_section r =
          if r.info == i then link_entries reader l r (u32 (reader.entries_num r)) 0 else pure tt

  module _ (destinations : List ℕ) (base_text base_data table n : ℕ) where
    pub link_all-split :
        (pre post : List Section) (q : Section) (s s' : Machine)
        → is_allocated q ≡ true
        → Runs (link_all reader destinations base_text base_data table n (pre ++ q ∷ post)) s s'
        → (t t' : Machine) × Runs
            (link_sections reader
              (link_of destinations base_text base_data table n q)
              q.index
              reader.sections)
            t
            t'
          × Runs (link_all reader destinations base_text base_data table n post) t' s'
    unfolding link_all link_section
    link_all-split [] post q s s' allocated h =
        let (t, e, rest) =
          then-Runs
            (link_section reader q.index (link_of destinations base_text base_data table n q))
            (link_all reader destinations base_text base_data table n post) s s'
            (rw allocated at h) in
        (s, t, e, rest)
    link_all-split (r ∷ pre) post q s s' allocated h =
        let (t, e, rest) =
          then-Runs
            (if is_allocated r
              then link_section reader r.index (link_of destinations base_text base_data table n r)
              else pure tt)
            (link_all reader destinations base_text base_data table n (pre ++ q ∷ post)) s s' h in
        link_all-split pre post q t s' allocated rest
