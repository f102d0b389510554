-- ===== src/Dynamic/Imports.antt =====
-- The functions that the loader imports, by library (src/imports.h).
pub mod Coreinit
use mathlib.Core.List.{List, [], ◌∷◌, ◌++◌}
use Prim.Native.String.{String}
use Coreinit.{coreinit_os, coreinit_heap, coreinit_fsa}

-- The library's name, as `OSDynLoad_Acquire` is given it, and the functions in their order.
pub record Library : Type 0 where
  pub name : String
  pub functions : List String

abbrev pub coreinit_functions : List String
coreinit_functions = coreinit_os ++ (coreinit_heap ++ coreinit_fsa)

abbrev pub nsysnet : List String
nsysnet =
    "socket_lib_init" ∷ "getaddrinfo" ∷ "freeaddrinfo" ∷ "getnameinfo" ∷ "inet_ntoa" ∷ "inet_ntop"
    ∷ "inet_aton" ∷ "inet_pton" ∷ "ntohl" ∷ "ntohs" ∷ "htonl" ∷ "htons" ∷ "accept" ∷ "bind"
    ∷ "socketclose" ∷ "connect" ∷ "getpeername" ∷ "getsockname" ∷ "getsockopt" ∷ "listen" ∷ "recv"
    ∷ "recvfrom" ∷ "send" ∷ "sendto" ∷ "setsockopt" ∷ "shutdown" ∷ "socket" ∷ "select"
    ∷ "socketlasterr" ∷ "socket_lib_finish" ∷ []

abbrev pub nn_ac : List String
nn_ac =
    "ACInitialize" ∷ "ACFinalize" ∷ "ACConnect" ∷ "ACClose" ∷ "ACGetAssignedAddress"
    ∷ "ACGetAssignedSubnet" ∷ "Initialize__Q2_2nn3actFv" ∷ "GetSlotNo__Q2_2nn3actFv"
    ∷ "GetDefaultAccount__Q2_2nn3actFv" ∷ "Finalize__Q2_2nn3actFv" ∷ []

abbrev pub proc_ui : List String
proc_ui = "ProcUIInit" ∷ "ProcUIShutdown" ∷ "ProcUIDrawDoneRelease" ∷ "ProcUIProcessMessages" ∷ []

abbrev pub sysapp : List String
sysapp =
    "SYSRelaunchTitle" ∷ "_SYSGetSystemApplicationTitleId" ∷ "SYSLaunchMenu"
    ∷ "_SYSLaunchMenuWithCheckingAccount" ∷ []

abbrev pub vpad : List String
vpad = "VPADRead" ∷ "VPADInit" ∷ "VPADGetTPCalibratedPoint" ∷ []

abbrev pub zlib125 : List String
zlib125 = "deflateInit_" ∷ "deflate" ∷ "deflateEnd" ∷ "inflateInit_" ∷ "inflate" ∷ "inflateEnd" ∷ []

abbrev pub libraries : List Library
libraries =
    record { name = "coreinit.rpl"; functions = coreinit_functions }
    ∷ record { name = "nsysnet.rpl"; functions = nsysnet }
    ∷ record { name = "nn_ac.rpl"; functions = nn_ac }
    ∷ record { name = "proc_ui.rpl"; functions = proc_ui }
    ∷ record { name = "sysapp.rpl"; functions = sysapp }
    ∷ record { name = "vpad.rpl"; functions = vpad }
    ∷ record { name = "zlib125.rpl"; functions = zlib125 }
    ∷ []
