-- ===== src/LoadFileToMem.antt =====
-- `LoadFileToMem` (src/utils/FileUtils.cpp): a file is read into a new buffer. The file system and
-- the allocator are parameters. The loop runs on fuel, as many rounds as the file has bytes.
pub mod Total
pub mod Content
mod Tests
use custom_rpxloader.Base.{
  ℕ, zero, suc, ◌+◌, ◌-◌, ◌^◌, Bool, true, false, Option, none, some, List, [], ◌∷◌, ◌++◌, length,
  ltb, ◌==◌, if◌then◌else◌, bit_and,
}
use custom_rpxloader.Machine.{u32, add32, sub32}

-- What the system answers: whether `open` gives a descriptor and `memalign` a buffer, the size that
-- `fstat` tells, and the bytes that `read` gives for a position and a number of bytes. `none` is
-- an error.
pub record File : Type 0 where
  pub can_open : Bool
  pub fstat : Option ℕ
  pub memalign : ℕ → Bool
  pub read : ℕ → ℕ → Option (List ℕ)

-- The descriptors and the buffers that are held.
pub record Held : Type 0 where
  pub files : ℕ
  pub buffers : ℕ

-- The result, an `int32_t`, the output parameters and what is held at the end.
pub record Loaded : Type 0 where
  pub code : ℕ
  pub inbuffer : Option (List ℕ)
  pub size : ℕ
  pub held : Held

-- The error code `-k`.
abbrev pub error : ℕ → ℕ
error k = 2 ^ 32 - k

abbrev pub round_up : ℕ → ℕ
round_up n = bit_and (add32 n 0x3f) 0xffffffc0

-- The loop. `buffer` is what has been read; `none` is out of fuel.
unfoldable pub read_all : File → (filesize fuel blocksize : ℕ) → List ℕ → Option (List ℕ)
read_all f filesize zero blocksize buffer =
    if ltb (u32 (length buffer)) filesize then none else some buffer
read_all f filesize (suc fuel) blocksize buffer =
    let read = u32 (length buffer) in
    let blocksize' =
      if ltb filesize (add32 read blocksize) then sub32 filesize read else blocksize in
    if ltb read filesize
    then elim (f.read read blocksize') [
      | none ↦ some buffer
      | some [] ↦ some buffer
      | some (c ∷ cs) ↦ read_all f filesize fuel blocksize' (buffer ++ c ∷ cs)
    ]
    else some buffer

-- What follows the loop, with the descriptor and the buffer held.
unfoldable pub finish : ℕ → List ℕ → Held → Loaded
finish filesize buffer held =
    let held' = record held { files = held.files - 1 } in
    if u32 (length buffer) == filesize
    then record { code = filesize; inbuffer = some buffer; size = filesize; held = held' }
    else record {
      code = error 3;
      inbuffer = none;
      size = 0;
      held = record held' { buffers = held'.buffers - 1 };
    }

abbrev pub give_up : ℕ → Held → Loaded
give_up k held = record { code = error k; inbuffer = none; size = 0; held = held }

abbrev pub opened : Held → Held
opened held = record held { files = held.files + 1 }

abbrev pub closed : Held → Held
closed held = record held { files = held.files - 1 }

-- `LoadFileToMem`; `none` is out of fuel.
unfoldable pub load_file_to_mem : File → Held → Option Loaded
load_file_to_mem f held =
    if f.can_open
    then elim f.fstat [
      | none ↦ some (give_up 4 (closed (opened held)))
      | some st_size ↦
          let filesize = u32 st_size in
          if f.memalign (round_up filesize)
          then elim (read_all f filesize filesize 0x80000 []) [
            | none ↦ none
            | some buffer ↦
                let h = opened held in
                some (finish filesize buffer (record h { buffers = h.buffers + 1 }))
          ]
          else some (give_up 2 (closed (opened held)))
    ]
    else some (give_up 1 held)
