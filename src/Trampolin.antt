-- ===== src/Trampolin.antt =====
-- The table of jump trampolines (src/common/relocation_defines.h, src/common/module_defines.h) in
-- memory: an entry is four instruction words and a status word, 20 bytes.
pub mod Laws
use custom_rpxloader.Base.{ℕ, zero, suc, ◌+◌, Bool, ◌||◌, Option, none, some, ◌==◌, if◌then◌else◌}
use custom_rpxloader.Machine.{Memory, read32}

-- RelocationTrampolinStatus
abbrev pub tramp_free : ℕ
tramp_free = 0

abbrev pub tramp_fixed : ℕ
tramp_fixed = 1

abbrev pub tramp_import_in_progress : ℕ
tramp_import_in_progress = 2

abbrev pub tramp_import_done : ℕ
tramp_import_done = 3

pub data RelocationType : Type 0 where
  fixed : RelocationType
  import : RelocationType

-- sizeof(relocation_trampolin_entry_t), and the offset of its field `status`
abbrev pub entry_size : ℕ
entry_size = 20

abbrev pub status_offset : ℕ
status_offset = 16

abbrev pub status : Memory → ℕ → ℕ
status m slot = read32 m (slot + status_offset)

-- The length of the table that the loader uses (DYN_LINK_TRAMPOLIN_LIST_LENGTH).
abbrev pub trampolin_list_length : ℕ
trampolin_list_length = 500

-- An entry that a relocation may take.
abbrev pub is_reusable : ℕ → Bool
is_reusable st = st == tramp_free || st == tramp_import_done

-- The search loop: the first entry that may be taken, with `n` entries left from `slot` on.
unfoldable pub find_slot : Memory → ℕ → ℕ → Option ℕ
find_slot m zero slot = none
find_slot m (suc n) slot =
    let rest = find_slot m n (slot + entry_size) in
    if is_reusable (status m slot) then some slot else rest
