-- ===== src/Lib.antt =====
-- A model of the CustomRPXLoader, which loads an .rpx module from the SD card of a Wii U: it patches
-- the kernel's system calls, reads the file, puts the module's sections into memory, relocates them,
-- resolves the imports and jumps to the entry point.
--
-- The parts, in the order in which one uses the other:
--
-- - Base: shared helpers, lemmas on lists, Boolean tests and bit operations.
-- - Machine: the memory and the log of cache operations. An address is a natural number and a cell
--   is a byte; words are stored with their highest byte first. Words of 32 bits are natural numbers
--   whose wrap-around is written out (`u32`, `add32`, `sub32`); an `int32_t` is its bit pattern.
-- - Trampolin: the table of jump trampolines (src/common/relocation_defines.h) and the search for an
--   entry in `elfLinkOne`.
-- - ElfUtils: `ElfUtils::elfLinkOne` (src/ElfUtils.cpp), `link_one`. ElfUtils.Ppc runs the five PowerPC
--   instructions that a trampoline and a branch consist of. `char` is unsigned, as in the console's
--   ABI.
-- - Outcome: a command ends normally (`done`), by an early error return (`failed`) or in `OSFatal`
--   (`fatal`), which does not return.
-- - Reader: what the loader reads through ELFIO (src/elfio/, a copy of that library): sections,
--   relocation entries and symbols; and what a read behind the end of the loader's array of
--   destinations gives.
-- - ImportRplInformation, ModuleData: the data of src/module/ImportRPLInformation.h, src/module/ModuleData.h
--   and src/module/RelocationData.h; ModuleData.Print is their text for the debug output.
-- - ModuleDataFactory: `ModuleDataFactory::load`, `linkSection` and `getImportRelocationData`
--   (src/module/ModuleDataFactory.cpp). Its children are the placement of the sections (Placement), their
--   relocation (Linking), the list of imports (Imports) and `load` from the path of the file on
--   (FromPath). Room, Result and Image are about `load` as a whole, for the modules of WellFormed where
--   they need it: the memory that it changes, the addresses that it returns and the words of the
--   module. EntryPoint is about its entry point. Sample is the module of the tests.
-- - DoRelocation: `doRelocation` (src/main.cpp). The system's dynamic loader is a parameter, which answers
--   as a function of the calls before.
-- - LoadFileToMem: `LoadFileToMem` (src/utils/FileUtils.cpp). The loop runs on fuel, one round for each
--   byte of the file: each round but the last reads a byte at least.
-- - Kernel: src/kernel.cpp. The assembly behind the system calls is a parameter. The memory is that of
--   effective addresses; a copy between physical addresses changes every effective address whose
--   physical one is written.
-- - Start: `do_start`, `CheckRunning` and `_start` (src/main.cpp). The wait for the end of the process runs
--   on fuel; it ends only if the system says so. Start.Process puts the imports of the loader, the C
--   library and the debug output around it, as `_start` does; Start.Spared is about the loader's memory and
--   Start.Fallback about a start without a module.
-- - StringTools: src/utils/StringTools.cpp. StringTools.Path has the functions on paths, StringTools.Edit
--   those that change a text, StringTools.Format those that print into static buffers, StringTools.Compare
--   the comparisons. The loops that search run on fuel; a round takes one byte at least off the text, if
--   what is searched for is not empty.
-- - Dynamic: `InitFunctionPointers` (src/dynamic.c) over the table of imports (src/imports.h), which is
--   Dynamic.Imports. Whether the system's error type is compared as a signed number is a parameter;
--   the calls of the dynamic loader go to the addresses that its variables hold at the time.
-- - Crt: `init_wut` and `fini_wut` (src/crt.c).
-- - Logger: src/utils/logger.c and the macros of src/utils/logger.h.
-- - OnLeavingScope: src/utils/OnLeavingScope.h, with what a program can do with guards as a step
--   relation.
-- - SplashScreen: `SplashScreen` (src/main.cpp), as the list of its calls.
-- - WiiuZlib: src/utils/wiiu_zlib.hpp, the compression that ELFIO calls. ELFIO's convertor is its two
--   operators, on words of 32 and of 64 bits.
--
-- Parameters of the model are ELFIO's result and its convertor of byte orders, zlib, the file system,
-- the allocator, the dynamic loader, the system's messages, the formatting of the C library, the
-- translation of addresses and the assembly routines. The calls of the debug output are left out of the
-- other parts.
-- Not modelled are the helpers of src/utils/utils.h, which only call the allocator, ELFIO itself and the
-- assembly files. In Start, `load` takes what `LoadFileToMem` has read as an argument.
pub mod Base
pub mod Machine
pub mod Trampolin
pub mod ElfUtils
pub mod Outcome
pub mod Reader
pub mod ImportRplInformation
pub mod ModuleData
pub mod OnLeavingScope
pub mod SplashScreen
pub mod ModuleDataFactory
pub mod DoRelocation
pub mod LoadFileToMem
pub mod Kernel
pub mod Start
pub mod StringTools
pub mod Dynamic
pub mod Crt
pub mod Logger
pub mod WiiuZlib
