-- ===== src/Dynamic.antt =====
-- `InitFunctionPointers` (src/dynamic.c): each function of the system that the loader calls has a
-- variable with its address, which the calls go through (src/import_stub.S). The system's dynamic
-- loader is a parameter.
pub mod Imports
pub mod Stored
pub mod Resolved
pub mod Unset
mod Tests
use Prim.Native.String.{String}
use text.Mathlib.Text.{◌==◌ as ◌===◌}
use custom_rpxloader.Base.{
  ℕ, ◌^◌, Bool, true, false, ◌&&◌, Option, none, some, List, [], ◌∷◌, leb, ◌==◌, if◌then◌else◌,
}
use Imports.{Library, libraries}

-- A call of OSDynLoad_FindExport: the bits of its result, and the address that it has stored.
pub record Lookup : Type 0 where
  pub code : ℕ
  pub address : Option ℕ

-- OSDynLoad_Acquire and OSDynLoad_IsModuleLoaded, which give the handle after the call from the one
-- before, and OSDynLoad_FindExport, of a function or a variable. Each takes first the address that
-- the call goes to, since the three are imports themselves. `is_signed` tells whether a result, an
-- OSDynLoad_Error of the system's headers, is compared as a signed number.
pub record Exports : Type 0 where
  pub acquire : (at : ℕ) → String → ℕ → ℕ
  pub is_module_loaded : (at : ℕ) → String → ℕ → ℕ
  pub find_export : (at : ℕ) → ℕ → Bool → String → Lookup
  pub is_signed : Bool

-- The test `< 0` of a result.
abbrev pub is_below_zero : (is_signed : Bool) → (code : ℕ) → Bool
is_below_zero is_signed code = is_signed && leb (2 ^ 31) code

-- The variables `addr_…`, by the function's name, and those of the default heap's functions.
abbrev pub Pointers : Type 0
Pointers = String → ℕ

abbrev pub no_pointers : Pointers
no_pointers name = 0

abbrev pub set_pointer : String → ℕ → Pointers → Pointers
set_pointer name address p other = if name === other then address else p other

-- A lookup with the address of a variable: it is set if an address is stored.
abbrev pub store : String → Option ℕ → Pointers → Pointers
store name none p = p
store name (some address) p = set_pointer name address p

-- How the imports end: with the variable `handle` and those of the functions, in the call of
-- `OSFatal` for a name, or in that call while the variable of `OSFatal` itself is not set, which goes
-- to the address 0.
pub data Bound : Type 0 where
  bound : (handle : ℕ) → Pointers → Bound
  no_function : String → Bound
  null_call : String → Bound

-- The call of OSDynLoad_FindExport goes through its own variable.
abbrev pub find_export : Exports → Pointers → (handle : ℕ) → (is_data : Bool) → String → Lookup
find_export os p handle is_data name = os.find_export (p "OSDynLoad_FindExport") handle is_data name

-- IMPORT(name)
unfoldable pub import_function : Exports → ℕ → String → Pointers → Bound
import_function os handle name p =
    let r = find_export os p handle false name in
    let p' = store name r.address p in
    if is_below_zero os.is_signed r.code
    then if p' "OSFatal" == 0 then null_call name else no_function name
    else bound handle p'

abbrev pub then_bound : Bound → (ℕ → Pointers → Bound) → Bound
then_bound (bound handle p) k = k handle p
then_bound (no_function name) k = no_function name
then_bound (null_call name) k = null_call name

unfoldable pub import_functions : Exports → ℕ → List String → Pointers → Bound
import_functions os handle [] p = bound handle p
import_functions os handle (name ∷ names) p =
    then_bound (import_function os handle name p) (λ h p'. import_functions os h names p')

-- IMPORT_BEGIN(lib) and the functions behind it, for each library.
unfoldable pub import_libraries : Exports → ℕ → List Library → Pointers → Bound
import_libraries os handle [] p = bound handle p
import_libraries os handle (lib ∷ libs) p =
    let handle' = os.acquire (p "OSDynLoad_Acquire") lib.name handle in
    then_bound (import_functions os handle' lib.functions p) (λ h p'. import_libraries os h libs p')

-- A variable of the default heap: `value` keeps its content if no address is stored.
abbrev pub export_or : Option ℕ → ℕ → ℕ
export_or none value = value
export_or (some address) value = address

-- The three variables, from the words at the exported addresses.
unfoldable pub import_heap : Exports → (word : ℕ → ℕ) → ℕ → Pointers → Pointers
import_heap os word handle p =
    let v1 = export_or (find_export os p handle true "MEMAllocFromDefaultHeap").address 0 in
    let v2 = export_or (find_export os p handle true "MEMAllocFromDefaultHeapEx").address v1 in
    let v3 = export_or (find_export os p handle true "MEMFreeToDefaultHeap").address v2 in
    set_pointer "MEMFreeToDefaultHeap" (word v3) (
      set_pointer "MEMAllocFromDefaultHeapEx" (word v2)
        (set_pointer "MEMAllocFromDefaultHeap" (word v1) p))

-- The addresses that are known beforehand.
abbrev pub fixed_pointers : Pointers
fixed_pointers = set_pointer "OSDynLoad_IsModuleLoaded" 0x0102a59c (
    set_pointer "OSDynLoad_FindExport" 0x0102b828
      (set_pointer "OSDynLoad_Acquire" 0x0102a3b4 no_pointers))

-- The last two calls: `exit` in the place of `__rplwrap_exit`, if it is found.
unfoldable pub override_exit : Exports → ℕ → Pointers → Bound
override_exit os handle p =
    let handle' = os.is_module_loaded (p "OSDynLoad_IsModuleLoaded") "coreinit.rpl" handle in
    bound handle' (store "__rplwrap_exit" (find_export os p handle' false "exit").address p)

-- The variables before the libraries, for the first handle of coreinit.
abbrev pub first_pointers : Exports → (word : ℕ → ℕ) → (coreinit : ℕ) → Pointers
first_pointers os word coreinit = import_heap os word coreinit fixed_pointers

-- The handle of coreinit that the first call gives.
abbrev pub first_handle : Exports → (handle : ℕ) → ℕ
first_handle os handle = os.acquire (fixed_pointers "OSDynLoad_Acquire") "coreinit.rpl" handle

-- `InitFunctionPointers`: `handle` is what the variable holds at first, `word` the memory.
unfoldable pub init_function_pointers : Exports → (word : ℕ → ℕ) → (handle : ℕ) → Bound
init_function_pointers os word handle =
    let coreinit = first_handle os handle in
    then_bound (import_libraries os coreinit libraries (first_pointers os word coreinit))
      (override_exit os)
