-- ===== src/Crt/Nested.antt =====
-- What `fini_wut` ends (src/crt.c).
use custom_rpxloader.Base.{
  ℕ, ◌≡◌, refl, Bool, true, false, List, [], ◌∷◌, ◌++◌, if◌then◌else◌, ◌==◌,
}
use custom_rpxloader.Crt.{
  Part, malloc, newlib, stdcpp, devoptab, socket, WutCall, init_part, fini_part, init_wut, fini_wut,
}

abbrev number : Part → ℕ
number malloc = 0
number newlib = 1
number stdcpp = 2
number devoptab = 3
number socket = 4

abbrev without : Part → List Part → List Part
without part [] = []
without part (other ∷ parts) =
    if number part == number other then parts else other ∷ without part parts

-- The parts that have been started and not ended, from those at the beginning on.
abbrev pub left_open : List WutCall → List Part → List Part
left_open [] parts = parts
left_open (init_part part ∷ calls) parts = left_open calls (part ∷ parts)
left_open (fini_part part ∷ calls) parts = left_open calls (without part parts)

-- Behind `fini_wut` the sockets are still started, if `init_wut` has started them, and nothing else.
pub fini_wut-left_open :
    (has_socket : Bool)
    → left_open (init_wut has_socket ++ fini_wut) [] ≡ (if has_socket then socket ∷ [] else [])
unfolding init_wut fini_wut
fini_wut-left_open true = refl
fini_wut-left_open false = refl
