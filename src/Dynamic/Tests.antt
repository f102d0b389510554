-- ===== src/Dynamic/Tests.antt =====
-- A system that knows every name, and one that does not know `OSScreenInit` (src/dynamic.c).
use Prim.Native.String.{String}
use text.Mathlib.Text.{◌==◌ as ◌===◌}
use text.Mathlib.TextEquality.{eq_iff}
use custom_rpxloader.Base.{ℕ, ◌+◌, ◌≡◌, ◌≢◌, arith, refl, true, false, none, some, if◌then◌else◌}
use custom_rpxloader.Dynamic.Imports.{sysapp}
use custom_rpxloader.Dynamic.{
  Exports, Pointers, no_pointers, Bound, bound, no_function, null_call, import_function,
  import_functions, import_libraries, import_heap, override_exit, init_function_pointers,
}
use custom_rpxloader.Dynamic.Stored.{is_listed}
use custom_rpxloader.Dynamic.Resolved.{init_function_pointers-bound}
use custom_rpxloader.Dynamic.Unset.{preset, IsMissing, init_function_pointers-unsigned}

abbrev library_handle : String → ℕ
library_handle name = if name === "sysapp.rpl" then 2 else 1

abbrev full : Exports
full = record {
  acquire = λ at name handle. library_handle name;
  is_module_loaded = λ at name handle. library_handle name;
  find_export = λ at handle is_data name. record { code = 0; address = some (handle + 0x01000000) };
  is_signed = true;
}

abbrev pointers_of : Bound → Pointers
pointers_of (bound handle p) = p
pointers_of (no_function name) = no_pointers
pointers_of (null_call name) = no_pointers

abbrev pointers : Pointers
pointers = pointers_of (init_function_pointers full (λ a. a) 0)

run_lem : init_function_pointers full (λ a. a) 0 ≡ bound 1 pointers
unfolding init_function_pointers import_libraries import_functions import_function override_exit
    import_heap
run_lem = refl

other_name : ◌≢◌ {A = String} "SYSLaunchMenu" "__rplwrap_exit"
other_name = ground (arith, eq_iff "SYSLaunchMenu" "__rplwrap_exit")

init_function_pointers-bound_example : pointers "SYSLaunchMenu" ≡ 0x01000002
init_function_pointers-bound_example =
    init_function_pointers-bound full library_handle (λ at name handle. refl) "SYSLaunchMenu"
      0x01000002 (λ a. a) 0 1 pointers 4 (record { name = "sysapp.rpl"; functions = sysapp })
      run_lem refl refl (λ at. refl) other_name

-- 0xbad10001 is an error's number.
abbrev partial : Exports
partial = record full {
  find_export = λ at handle is_data name.
      if name === "OSScreenInit"
      then record { code = 0xbad10001; address = none }
      else record { code = 0; address = some (handle + 0x01000000) };
  is_signed = false;
}

init_function_pointers-unsigned_example :
    (h' : ℕ) × (p' : Pointers) × (init_function_pointers partial (λ a. a) 0 ≡ bound h' p')
    × ((x : String)
        → IsMissing partial x
        → is_listed x preset ≡ false
        → x ≢ "__rplwrap_exit"
        → p' x ≡ 0)
init_function_pointers-unsigned_example = init_function_pointers-unsigned partial refl (λ a. a) 0

-- The same system with signed results: the call of `OSFatal` goes to the address 0.
null_call_lem :
    init_function_pointers (record partial { is_signed = true }) (λ a. a) 0
    ≡ null_call "OSScreenInit"
unfolding init_function_pointers import_libraries import_functions import_function override_exit
    import_heap
null_call_lem = refl
