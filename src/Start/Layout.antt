-- ===== src/Start/Layout.antt =====
-- The loader's own memory, the trampoline table and the module lie apart (src/main.cpp, the first
-- half of `do_start`).
use custom_rpxloader.Base.{
  ℕ, ◌+◌, ◌*◌, ◌%◌, ◌^◌, ◌≤◌, ◌<◌, ◌≡◌, inl, List, length, arith, bit_and_field,
}
use custom_rpxloader.Machine.{Machine, add32}
use custom_rpxloader.Outcome.{machine}
use custom_rpxloader.Reader.{Section}
use custom_rpxloader.Trampolin.{entry_size, trampolin_list_length}
use custom_rpxloader.ModuleDataFactory.Placement.{
  size_of_module, target_address_of, initial, place_all,
}
use custom_rpxloader.ModuleDataFactory.Placement.Bounds.{
  exact_size, size_of_module-exact, target_address_of_bounds, place_all-in_room,
}
use custom_rpxloader.Start.{module_end, application_memory_end, module_data_start, maximum_size}

-- The three addresses, for a loader that ends low enough.
pub layout_bounds :
    (code_end : ℕ)
    → code_end ≤ 0x00f00000
    → let table = application_memory_end code_end in
      (code_end < table)
      × (table + trampolin_list_length * entry_size < module_data_start code_end)
      × (module_data_start code_end ≤ module_end)
      × (module_data_start code_end % 2 ^ 16 ≡ 0)
layout_bounds code_end h =
    let above = bit_and_field 8 24 (add32 code_end 0x100) in
    let start = bit_and_field 16 16 (
      add32 (add32 (application_memory_end code_end) (trampolin_list_length * entry_size))
        0x10000) in
    (
      omega (arith, above),
      omega (arith, above, start),
      omega (arith, above, start),
      omega (arith, start),
    )

-- If the loader's own memory ends at 0x00f00000 or below and a module's true size, less than
-- 2 ^ 32, is no more than the room that `do_start` computes for it, then the trampoline table lies
-- between the loader and the module, and the copy of the module's sections changes no byte below
-- the module's lowest address: none of the loader and none of the table.
pub place_all-spares_table :
    (code_end : ℕ) (ps : List Section) (s : Machine)
    → code_end ≤ 0x00f00000
    → exact_size ps < 2 ^ 32
    → size_of_module 0 ps ≤ maximum_size code_end
    → let table = application_memory_end code_end in
      let low = target_address_of module_end (size_of_module 0 ps) in
      (code_end < table)
      × (table + trampolin_list_length * entry_size < low)
      × ((x : ℕ)
          → x < low
          → (machine (place_all low module_end ps (initial low (length ps)) s)).mem x ≡ s.mem x)
place_all-spares_table code_end ps s h small fits =
    let bounds = layout_bounds code_end h in
    let size = size_of_module-exact ps small in
    let room : exact_size ps ≤ module_end = omega (arith, bounds, size) in
    let low_bounds =
      target_address_of_bounds module_end (size_of_module 0 ps) (omega (arith, bounds))
        (omega arith) in
    (
      bounds.0,
      omega (arith, bounds, low_bounds),
      λ x below. place_all-in_room ps module_end s room (omega arith) x (inl below),
    )
