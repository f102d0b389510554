-- ===== src/ModuleDataFactory/FromPath.antt =====
-- `load` from the path of a file on (src/module/ModuleDataFactory.cpp): the file is read by
-- `LoadFileToMem`, and a scope guard frees the buffer when `load` returns.
pub mod Released
mod Tests
use custom_rpxloader.Base.{ℕ, ◌-◌, ◌^◌, Bool, Option, none, some, List, [], ◌∷◌, ltb, if◌then◌else◌}
use custom_rpxloader.Machine.{Machine}
use custom_rpxloader.Outcome.{Outcome, done, failed, fatal}
use custom_rpxloader.Reader.{Reader}
use custom_rpxloader.LoadFileToMem.{File, Held, Loaded, load_file_to_mem}
use custom_rpxloader.OnLeavingScope.{OnLeavingScope, on_leaving_scope, leave_scope}
use custom_rpxloader.ModuleData.{ModuleData}
use custom_rpxloader.ModuleDataFactory.{load}

-- `free(buffer)`
abbrev pub free_buffer : Held → Held
free_buffer held = record held { buffers = held.buffers - 1 }

-- The functions that a guard runs, one after the other.
unfoldable pub run_all : List (Held → Held) → Held → Held
run_all [] held = held
run_all (f ∷ fs) held = run_all fs (f held)

-- What is held when `load` has ended: `OSFatal` does not return, so no guard is destroyed then.
unfoldable pub leave_load : Outcome ModuleData → OnLeavingScope (Held → Held) → Held → Held
leave_load (fatal s) guard held = held
leave_load (failed s) guard held = run_all (leave_scope guard) held
leave_load (done m s) guard held = run_all (leave_scope guard) held

-- The file that `load` goes on with: none if the result of `LoadFileToMem` is negative.
abbrev pub read_file : Loaded → Option (List ℕ)
read_file r = if ltb r.code (2 ^ 31) then r.inbuffer else none

-- `load`; `none` is out of fuel in `LoadFileToMem`.
unfoldable pub load_path :
    (f : File) (parse : List ℕ → Option Reader) (allocated : Bool)
    (destination_address maximum_size trampolin_data trampolin_data_length : ℕ)
    → Held
    → Machine
    → Option (Held × Outcome ModuleData)
load_path f parse allocated d m t n held s = elim (load_file_to_mem f held) [
  | none ↦ none
  | some r ↦
      let outcome = load (read_file r) parse allocated d m t n s in
      let guard = on_leaving_scope free_buffer in
      some (if ltb r.code (2 ^ 31) then leave_load outcome guard r.held else r.held, outcome)
]
