-- ===== src/Start/Process/Tests.antt =====
-- A launch without a module on the SD card (src/main.cpp, `_start`).

use custom_rpxloader.Base.{◌≡◌, refl, true, none, some, []}
use custom_rpxloader.Machine.{Machine}
use custom_rpxloader.Kernel.{Assembly}
use custom_rpxloader.Dynamic.{
  init_function_pointers, import_libraries, import_functions, import_function, import_heap,
  override_exit,
}
use custom_rpxloader.ModuleDataFactory.{load}
use custom_rpxloader.StringTools.Format.{printed}
use custom_rpxloader.Start.{exiting, System, do_start, do_proc_ui, start}
use custom_rpxloader.Start.Process.{Runtime, Process, run_process}
use custom_rpxloader.Start.Process.Ends.{IsGone, is_gone, run_process-IsGone}

abbrev runtime : Runtime
runtime = record {
  exports = record {
    acquire = λ at name handle. 1;
    is_module_loaded = λ at name handle. 1;
    find_export = λ at handle is_data name. record { code = 0; address = some 0x01000000 };
    is_signed = true;
  };
  word = λ a. a;
  handle = 0;
  has_socket = true;
  debug = true;
  whb = λ way. 1;
}

abbrev asm : Assembly
asm = record {
  syscall_0x36 = λ words. words;
  kernel_patches = 0x00800100;
  kernel_patches_final = 0x00800200;
  sc_kernel_copy_data = 0x00800300;
}

abbrev sys : System
sys = record {
  title_id = 0x0005001010040200;
  file = none;
  parse = λ _. none;
  allocated = true;
  dyn_load = record { acquire = λ _ _. none; find_export = λ _ _ _ _. none };
  to_physical = λ a. a;
  value_at = 0;
  default_slot = true;
  slot = 1;
  messages = λ i. exiting;
  vsprintf = λ format text. printed text;
  tmp = 0x00811000;
  buffer_size = λ screen. 0x1000;
  memalign = λ alignment size. 0x10000000;
  ticks = λ ms. ms;
}

abbrev machine : Machine
machine = record { mem = λ _. 0; cache = [] }

abbrev process : Process
process = run_process runtime asm (λ a. 0) sys 0x00812345 3 none (λ a. 0) machine

process_lem : is_gone process.place ≡ true
unfolding run_process init_function_pointers import_libraries import_functions import_function
    import_heap override_exit start do_start do_proc_ui load
process_lem = refl

run_process-IsGone_example : IsGone runtime process
run_process-IsGone_example =
    run_process-IsGone runtime asm (λ a. 0) sys 0x00812345 3 none (λ a. 0) machine process_lem
