-- ===== src/ModuleDataFactory/Linking/Frame.antt =====
-- The memory that the relocation of a module may change (src/module/ModuleDataFactory.cpp, `linkSection`
-- and the loop of `load` that calls it).
use custom_rpxloader.Base.{
  ℕ, zero, suc, ◌+◌, ◌*◌, ◌%◌, ◌^◌, ◌≤◌, ◌≡◌, ◌⊎◌, refl, ap, ◌∙◌, Bool, true, false, some, List, [],
  ◌∷◌, inl, inr, arith, Bool-cases, Option-cases, ◌==◌, ltb, get_or, if◌then◌else◌,
}
use custom_rpxloader.Machine.{Machine, u32, add32}
use custom_rpxloader.Outcome.{Cmd, machine, and_then_ind, ◌>>◌, pure}
use custom_rpxloader.Reader.{Section, Entry, Symbol, Reader}
use custom_rpxloader.Trampolin.{fixed, entry_size}
use custom_rpxloader.ElfUtils.{link_one}
use custom_rpxloader.ElfUtils.Frame.{Beside, link_one-frame}
use custom_rpxloader.ModuleDataFactory.Placement.{is_allocated}
use custom_rpxloader.ModuleDataFactory.Linking.{
  Adjusted, at, skip, unhandled, adjust, shn_abs, shn_loreserve, linked, Link, link_call,
  link_symbol, symbol_of, link_entry, link_entries, link_sections, link_section, link_all,
}

module _ (x : ℕ) where
  -- A command leaves the byte at `x` as it is.
  abbrev Keeps : Cmd (Unit {0}) → Machine → Type 0
  Keeps command s = (machine (command s)).mem x ≡ s.mem x

  then-Keeps :
      (m k : Cmd (Unit {0})) (s : Machine)
      → Keeps m s
      → ((s' : Machine) → Keeps k s')
      → Keeps (m >> k) s
  then-Keeps m k s h next =
      and_then_ind (λ s'. s'.mem x ≡ s.mem x) (m s) (λ _. k) h (λ a s' e p. next s' ∙ p)

  linked-machine : (r : Bool × Machine) → machine (linked r) ≡ r.1
  linked-machine (true, s) = refl
  linked-machine (false, s) = refl

  module _ (reader : Reader) where
    -- The byte lies in none of the words that the entries of `p` from `j` on are for.
    abbrev pub SparedFrom : ℕ → Section → ℕ → Type 0
    SparedFrom destination p j =
        (j' : ℕ) (e : Entry)
        → j ≤ j'
        → reader.get_entry p j' ≡ some e
        → Beside x (add32 destination (u32 e.offset)) 4

    -- The byte lies in none of the words that the entries for a section are for.
    abbrev pub SparedBy : ℕ → ℕ → List Section → Type 0
    SparedBy destination section_index [] = Unit {0}
    SparedBy destination section_index (p ∷ ps) =
        ((p.info == section_index) ≡ true
          → (j : ℕ) (e : Entry) → reader.get_entry p j ≡ some e
          → Beside x (add32 destination (u32 e.offset)) 4)
        × SparedBy destination section_index ps

    -- The same for all sections that are placed.
    abbrev pub Spared : (destinations : List ℕ) → List Section → Type 0
    Spared destinations [] = Unit {0}
    Spared destinations (p ∷ ps) =
        (is_allocated p ≡ true → SparedBy (get_or destinations p.index 0) p.index reader.sections)
        × Spared destinations ps

    module _ (l : Link)
        (apart : Beside x l.trampolin_data (entry_size * l.trampolin_data_length)) where
      link_call-Keeps :
          (e : Entry) (symbol_addr : ℕ) (s : Machine)
          → Beside x (add32 l.destination (u32 e.offset)) 4
          → Keeps (link_call l e symbol_addr) s
      unfolding link_call
      link_call-Keeps e symbol_addr s beside =
          ap (λ m. m.mem x)
            (linked-machine (
              link_one (e.type % 2 ^ 8) (u32 e.offset) (u32 e.addend) l.destination symbol_addr
                l.trampolin_data l.trampolin_data_length fixed s))
          ∙ link_one-frame (e.type % 2 ^ 8) (u32 e.offset) (u32 e.addend) l.destination symbol_addr
              l.trampolin_data l.trampolin_data_length fixed s x beside apart

      Adjusted-cases : (a : Adjusted) → ((n : ℕ) × (a ≡ at n)) ⊎ ((a ≡ skip) ⊎ (a ≡ unhandled))
      Adjusted-cases (at n) = inl (n, refl)
      Adjusted-cases skip = inr (inl refl)
      Adjusted-cases unhandled = inr (inr refl)

      link_symbol-Keeps :
          (e : Entry) (symbol : Symbol) (s : Machine)
          → Beside x (add32 l.destination (u32 e.offset)) 4
          → Keeps (link_symbol l e symbol) s
      unfolding link_symbol
      link_symbol-Keeps e symbol s beside =
          elim (Adjusted-cases (adjust l.base_text l.base_data symbol.value)) [
            | inr (inl q) ↦ rw (link_symbol, q) refl
            | inr (inr q) ↦ rw (link_symbol, q) refl
            | inl (n, q) ↦
                let run = link_call-Keeps e n s beside in
                elim (Bool-cases (symbol.section_index == shn_abs)) [
                  | inl absolute ↦ rw (link_symbol, q, absolute) run
                  | inr other ↦ elim (Bool-cases (ltb shn_loreserve symbol.section_index)) [
                    | inl reserved ↦ rw (link_symbol, q, other, reserved) refl
                    | inr usual ↦ rw (link_symbol, q, other, usual) run
                  ]
                ]
          ]

      pub link_entries-Keeps :
          (p : Section) (k j : ℕ) (s : Machine)
          → SparedFrom l.destination p j
          → Keeps (link_entries reader l p k j) s
      unfolding link_entries link_entry
      link_entries-Keeps p zero j s h = refl
      link_entries-Keeps p (suc k) j s h =
          then-Keeps (link_entry reader l p j) (link_entries reader l p k (j + 1)) s entry (λ s'.
            link_entries-Keeps p k (j + 1) s'
              (λ j' e from found. h j' e (omega (arith, from)) found))
        where
          entry : Keeps (link_entry reader l p j) s
          entry = elim (Option-cases (reader.get_entry p j)) [
            | inl e ↦ rw (link_entry, e) refl
            | inr (e, found) ↦ elim (Option-cases (symbol_of reader p e)) [
              | inl q ↦ rw (link_entry, found, q) refl
              | inr (symbol, q) ↦
                  rw (link_entry, found, q)
                    (link_symbol-Keeps e symbol s (h j e (omega arith) found))
            ]
          ]

      pub link_sections-Keeps :
          (section_index : ℕ) (ps : List Section) (s : Machine)
          → SparedBy l.destination section_index ps
          → Keeps (link_sections reader l section_index ps) s
      unfolding link_sections
      link_sections-Keeps section_index [] s h = refl
      link_sections-Keeps section_index (p ∷ ps) s h =
          then-Keeps here (link_sections reader l section_index ps) s first
            (λ s'. link_sections-Keeps section_index ps s' h.1)
        where
          here : Cmd (Unit {0})
          here =
              if p.info == section_index
              then link_entries reader l p (u32 (reader.entries_num p)) 0
              else pure tt

          first : Keeps here s
          first = elim (Bool-cases (p.info == section_index)) [
            | inl e ↦ rw e (
                link_entries-Keeps p (u32 (reader.entries_num p)) 0 s
                  (λ j' e' from found. h.0 e j' e' found))
            | inr e ↦ rw e refl
          ]

-- However the relocation of a module ends, it has changed no byte outside the trampoline table and
-- the words that the entries for its placed sections are for.
pub link_all-frame :
    (reader : Reader) (destinations : List ℕ) (base_text base_data table n x : ℕ)
    (sections : List Section) (s : Machine)
    → Beside x table (entry_size * n)
    → Spared x reader destinations sections
    → (machine (link_all reader destinations base_text base_data table n sections s)).mem x
      ≡ s.mem x
unfolding link_all link_section
link_all-frame reader destinations base_text base_data table n x [] s apart h = refl
link_all-frame reader destinations base_text base_data table n x (p ∷ ps) s apart h =
    then-Keeps x here (link_all reader destinations base_text base_data table n ps) s first
      (λ s'. link_all-frame reader destinations base_text base_data table n x ps s' apart h.1)
  where
    link : Link
    link = record {
      destination = get_or destinations p.index 0;
      base_text = base_text;
      base_data = base_data;
      trampolin_data = table;
      trampolin_data_length = n;
    }

    here : Cmd (Unit {0})
    here = if is_allocated p then link_section reader p.index link else pure tt

    first : Keeps x here s
    first = elim (Bool-cases (is_allocated p)) [
      | inl e ↦ rw e (link_sections-Keeps x reader link apart p.index reader.sections s (h.0 e))
      | inr e ↦ rw e refl
    ]
