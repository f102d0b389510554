-- ===== src/Dynamic/Imports/Coreinit.antt =====
-- The functions of coreinit that the loader imports (src/imports.h, the first block).
use mathlib.Core.List.{List, [], ◌∷◌}
use Prim.Native.String.{String}

-- The system, threads and caches.
abbrev pub coreinit_os : List String
coreinit_os =
    "OSReport" ∷ "OSScreenInit" ∷ "OSScreenGetBufferSizeEx" ∷ "OSScreenSetBufferEx"
    ∷ "OSScreenEnableEx" ∷ "OSScreenFlipBuffersEx" ∷ "OSScreenClearBufferEx" ∷ "OSScreenPutFontEx"
    ∷ "OSFatal" ∷ "OSDynLoad_Acquire" ∷ "OSDynLoad_FindExport" ∷ "OSDynLoad_Release"
    ∷ "OSSetExceptionCallback" ∷ "OSSavesDone_ReadyToRelease" ∷ "OSInitMutex" ∷ "OSLockMutex"
    ∷ "OSUnlockMutex" ∷ "OSInitCond" ∷ "OSWaitCond" ∷ "OSSignalCond" ∷ "OSInitSpinLock"
    ∷ "OSUninterruptibleSpinLock_Acquire" ∷ "OSUninterruptibleSpinLock_Release" ∷ "OSFastMutex_Init"
    ∷ "OSFastMutex_Lock" ∷ "OSFastMutex_Unlock" ∷ "OSSleepTicks" ∷ "OSGetTitleID"
    ∷ "OSIsThreadTerminated" ∷ "OSSetThreadPriority" ∷ "OSCreateThread"
    ∷ "OSSetThreadCleanupCallback" ∷ "OSResumeThread" ∷ "OSIsThreadSuspended" ∷ "OSSuspendThread"
    ∷ "OSGetCurrentThread" ∷ "OSExitThread" ∷ "OSJoinThread" ∷ "OSYieldThread" ∷ "OSGetCoreId"
    ∷ "OSIsMainCore" ∷ "OSGetSystemTime" ∷ "OSGetSystemTick" ∷ "OSGetTime" ∷ "OSGetSymbolName"
    ∷ "OSGetSharedData" ∷ "OSEffectiveToPhysical" ∷ "OSInitSemaphore" ∷ "OSInitSemaphoreEx"
    ∷ "OSGetSemaphoreCount" ∷ "OSSignalSemaphore" ∷ "OSWaitSemaphore" ∷ "OSTryWaitSemaphore"
    ∷ "OSCompareAndSwapAtomicEx" ∷ "OSCompareAndSwapAtomic" ∷ "OSGetThreadSpecific"
    ∷ "OSSetThreadSpecific" ∷ "FSTimeToCalendarTime" ∷ "OSSwapAtomic" ∷ "OSDynLoad_IsModuleLoaded"
    ∷ "OSIsDebuggerPresent" ∷ "exit" ∷ "_Exit" ∷ "__os_snprintf" ∷ "DisassemblePPCRange"
    ∷ "ICInvalidateRange" ∷ "DCInvalidateRange" ∷ "DCFlushRange" ∷ "DCStoreRange"
    ∷ "DCStoreRangeNoSync" ∷ []

-- Heaps and files.
abbrev pub coreinit_heap : List String
coreinit_heap =
    "__gh_errno_ptr" ∷ "MEMGetBaseHeapHandle" ∷ "MEMCreateExpHeapEx" ∷ "MEMDestroyExpHeap"
    ∷ "MEMAllocFromExpHeapEx" ∷ "MEMFreeToExpHeap" ∷ "MEMGetSizeForMBlockExpHeap"
    ∷ "MEMAllocFromFrmHeapEx" ∷ "MEMFreeToFrmHeap" ∷ "MEMGetAllocatableSizeForFrmHeapEx" ∷ "FSInit"
    ∷ "FSShutdown" ∷ "FSAddClient" ∷ "FSAddClientEx" ∷ "FSDelClient" ∷ "FSInitCmdBlock"
    ∷ "FSChangeDir" ∷ "FSGetFreeSpaceSize" ∷ "FSGetStat" ∷ "FSRemove" ∷ "FSOpenFile"
    ∷ "FSOpenFileEx" ∷ "FSCloseFile" ∷ "FSOpenDir" ∷ "FSMakeDir" ∷ "FSReadDir" ∷ "FSRewindDir"
    ∷ "FSCloseDir" ∷ "FSGetStatFile" ∷ "FSReadFile" ∷ "FSWriteFile" ∷ "FSSetPosFile" ∷ "FSFlushFile"
    ∷ "FSTruncateFile" ∷ "FSRename" ∷ "FSGetMountSource" ∷ "FSMount" ∷ "FSUnmount" ∷ "FSChangeMode"
    ∷ "FSGetPosFile" ∷ "OSTicksToCalendarTime" ∷ "__rplwrap_exit" ∷ []

-- File access, devices and power.
abbrev pub coreinit_fsa : List String
coreinit_fsa =
    "OSMemoryBarrier" ∷ "OSInitMutexEx" ∷ "FSAMakeDir" ∷ "FSAInit" ∷ "FSAAddClient" ∷ "FSARewindDir"
    ∷ "FSAMount" ∷ "FSAGetDeviceInfo" ∷ "FSARename" ∷ "FSAChangeDir" ∷ "FSAUnmount" ∷ "FSADelClient"
    ∷ "FSAChangeMode" ∷ "FSAReadDir" ∷ "FSAOpenDir" ∷ "FSACloseDir" ∷ "FSAFlushFile"
    ∷ "FSAOpenFileEx" ∷ "FSACloseFile" ∷ "FSAGetStatFile" ∷ "FSAGetFreeSpaceSize" ∷ "FSASetPosFile"
    ∷ "FSATruncateFile" ∷ "FSARemove" ∷ "FSAReadFile" ∷ "FSAWriteFile" ∷ "FSAGetStat"
    ∷ "FSAGetStatusStr" ∷ "IOS_Open" ∷ "IOS_Close" ∷ "IOS_Ioctl" ∷ "IOS_IoctlAsync"
    ∷ "IMIsAPDEnabled" ∷ "IMIsDimEnabled" ∷ "IMEnableAPD" ∷ "IMEnableDim" ∷ "IMDisableAPD"
    ∷ "IMDisableDim" ∷ "OSGetSystemInfo" ∷ []
