-- ===== src/ModuleDataFactory/Linking.antt =====
-- `linkSection` and the loop of `load` that calls it (src/module/ModuleDataFactory.cpp).
pub mod Frame
pub mod Rounds
pub mod Words
use custom_rpxloader.Base.{
  ℕ, zero, suc, ◌+◌, ◌%◌, ◌^◌, Bool, true, false, ◌&&◌, Option, none, some, List, [], ◌∷◌, ltb, leb,
  ◌==◌, if◌then◌else◌, get_or,
}
use custom_rpxloader.Machine.{Machine, u32, add32, sub32}
use custom_rpxloader.Outcome.{Cmd, Outcome, done, failed, fatal, pure, ◌>>◌}
use custom_rpxloader.Reader.{Section, Entry, Symbol, Reader}
use custom_rpxloader.Trampolin.{fixed}
use custom_rpxloader.ElfUtils.{link_one}
use custom_rpxloader.ModuleDataFactory.Placement.{is_allocated, text_base, data_base, import_base}

abbrev pub shn_abs : ℕ
shn_abs = 0xfff1

abbrev pub shn_loreserve : ℕ
shn_loreserve = 0xff00

-- The address of a symbol in the placed module.
pub data Adjusted : Type 0 where
  at : ℕ → Adjusted
  skip : Adjusted
  unhandled : Adjusted

unfoldable pub adjust : (base_text base_data sym_value : ℕ) → Adjusted
adjust base_text base_data sym_value =
    let v = u32 sym_value in
    if leb text_base v && ltb v data_base
    then at (add32 (sub32 v text_base) base_text)
    else if leb data_base v && ltb v import_base
    then at (add32 (sub32 v data_base) base_data)
    else if leb import_base v
    then skip
    else if v == 0
    then at v
    else unhandled

-- A relocation's result as a command: `return false` on a failure.
abbrev pub linked : Bool × Machine → Outcome (Unit {0})
linked (true, s) = done tt s
linked (false, s) = failed s

-- The arguments of `linkSection` besides the reader.
pub record Link : Type 0 where
  pub destination : ℕ
  pub base_text : ℕ
  pub base_data : ℕ
  pub trampolin_data : ℕ
  pub trampolin_data_length : ℕ

-- The call of `elfLinkOne`, with the entry's fields cut to the types of its parameters.
unfoldable pub link_call : Link → Entry → (symbol_addr : ℕ) → Cmd (Unit {0})
link_call l e symbol_addr s = linked (
    link_one (e.type % 2 ^ 8) (u32 e.offset) (u32 e.addend) l.destination symbol_addr
      l.trampolin_data l.trampolin_data_length fixed s)

-- The end of the loop's body: what the symbol asks for.
unfoldable pub link_symbol : Link → Entry → Symbol → Cmd (Unit {0})
link_symbol l e sym s = elim (adjust l.base_text l.base_data sym.value) [
  | at symbol_addr ↦
      if sym.section_index == shn_abs
      then link_call l e symbol_addr s
      else if ltb shn_loreserve sym.section_index
      then failed s
      else link_call l e symbol_addr s
  | skip ↦ done tt s
  | unhandled ↦ failed s
]

-- The symbol of an entry, in the symbol table that the section `p` is linked to.
abbrev pub symbol_of : Reader → Section → Entry → Option Symbol
symbol_of reader p e = reader.get_symbol (p.link % 2 ^ 16) e.symbol

unfoldable pub link_entry : Reader → Link → Section → ℕ → Cmd (Unit {0})
link_entry reader l p j s = elim (reader.get_entry p j) [
  | none ↦ fatal s
  | some e ↦ elim (symbol_of reader p e) [ none ↦ fatal s | some sym ↦ link_symbol l e sym s ]
]

-- The loop over the entries, with `k` left from `j` on.
unfoldable pub link_entries : Reader → Link → Section → ℕ → ℕ → Cmd (Unit {0})
link_entries reader l p zero j = pure tt
link_entries reader l p (suc k) j = do link_entry reader l p j; link_entries reader l p k (j + 1)

-- The loop over the sections: every section whose `info` is `section_index` is read for entries.
unfoldable pub link_sections : Reader → Link → ℕ → List Section → Cmd (Unit {0})
link_sections reader l section_index [] = pure tt
link_sections reader l section_index (p ∷ ps) = do
  if p.info == section_index
      then link_entries reader l p (u32 (reader.entries_num p)) 0
      else pure tt
  link_sections reader l section_index ps

-- `linkSection`
unfoldable pub link_section : Reader → ℕ → Link → Cmd (Unit {0})
link_section reader section_index l = link_sections reader l section_index reader.sections

-- The loop of `load`.
unfoldable pub link_all :
    (reader : Reader) (destinations : List ℕ)
    (base_text base_data trampolin_data trampolin_data_length : ℕ)
    → List Section
    → Cmd (Unit {0})
link_all reader destinations base_text base_data trampolin_data trampolin_data_length [] = pure tt
link_all reader destinations base_text base_data trampolin_data trampolin_data_length (p ∷ ps) = do
  if is_allocated p
      then link_section reader p.index (record {
        destination = get_or destinations p.index 0;
        base_text = base_text;
        base_data = base_data;
        trampolin_data = trampolin_data;
        trampolin_data_length = trampolin_data_length;
      })
      else pure tt
  link_all reader destinations base_text base_data trampolin_data trampolin_data_length ps
