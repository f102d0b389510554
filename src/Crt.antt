-- ===== src/Crt.antt =====
-- The start and the end of the C library (src/crt.c). The functions of wut are parameters; the two
-- for the sockets are weak, and `socket` says whether the first is linked.
pub mod Nested
use custom_rpxloader.Base.{Bool, true, false, List, [], ◌∷◌, ◌++◌, if◌then◌else◌}

pub data Part : Type 0 where
  malloc : Part
  newlib : Part
  stdcpp : Part
  devoptab : Part
  socket : Part

-- __init_wut_…, __fini_wut_…
pub data WutCall : Type 0 where
  init_part : Part → WutCall
  fini_part : Part → WutCall

-- `init_wut`
unfoldable pub init_wut : Bool → List WutCall
init_wut has_socket =
    init_part malloc
    ∷ init_part newlib
    ∷ init_part stdcpp
    ∷ init_part devoptab
    ∷ (if has_socket then init_part socket ∷ [] else [])

-- `fini_wut`
unfoldable pub fini_wut : List WutCall
fini_wut = fini_part devoptab ∷ fini_part stdcpp ∷ fini_part newlib ∷ fini_part malloc ∷ []
