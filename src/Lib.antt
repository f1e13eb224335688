-- ===== src/Lib.antt =====
-- The native half of NativeCrash2Java: from a crash in C or C++ code to the call of `onCrash` in
-- Java. The paths below are from the repository's root; `cpp/` is `breakpad/src/main/cpp/`.
--
-- The parts and how they work together. When a thread crashes, `ExceptionHandler::GenerateDump`
-- clones a child. The child (`ThreadEntry`, `DoDump`, `WriteWholeMinidump`) writes a report of the
-- crash into a pipe and exits with status 0 if all went well. The parent reads the pipe, splits the
-- text at `^` and calls `DumpCallback` of `breakpad.cpp` with both halves; that wakes the callback
-- thread by a semaphore, which calls `onCrash` in Java and releases the crashing thread.
--
-- The files.
--   Base: shared names, lists and strings over the native numbers.
--   Libc: `cpp/common/linux/linux_libc_support.cc`. Text has my_strlen, my_strcmp, my_strncmp,
--     my_strchr, my_strrchr, my_memchr, my_memset and my_isspace, Number has my_strtoui,
--     my_uint_len, my_uitos, my_read_hex_ptr and my_read_decimal_ptr, Copy has my_strlcpy and
--     my_strlcat.
--   CrashInfo: `cpp/third_party/utils/crash_info_utils.h` and `.cpp`, the buffer of the report.
--     The object is the record `CrashInfo`, a method that appends is a `Writer`.
--   Signal: `cpp/third_party/utils/signal_explain.h`, and `GetCrashSignalString` of
--     `cpp/client/linux/minidump_writer/linux_dumper.cc`.
--   Report: `MinidumpWholeWriter` of
--     `cpp/client/linux/minidump_whole_writer/minidump_whole_track_writer.cc`, with `dumpTrack` of
--     `cpp/third_party/utils/libunwind/libunwind_utils.cpp` and `dumpTrace` of
--     `cpp/third_party/utils/libbacktrace/libbacktrace_utils.cpp`. Text is the text of a report as
--     a function of what the system answers.
--   Split: `SplitChar` of `cpp/third_party/utils/char_split_utils.h`.
--   Dump: `ThreadEntry`, `DoDump`, `dump2Java` and `GenerateDump` of
--     `cpp/client/linux/handler/exception_handler.cc`, and `WriteWholeMinidump`.
--   Bridge: `DumpCallback`, `notify2Java` and `CallBackThreadHandler` of `cpp/breakpad.cpp`, as a
--     step relation of two threads. Invariant, Progress and Finish are about all orders of their
--     steps.
--   PageAllocator: the class of `cpp/common/memory_allocator.h`. Blocks has the invariant, Serve and
--     Fetch the two ways of `Alloc`.
--   Dictionary: `NonAllocatingMap` of `cpp/common/simple_string_dictionary.h`, as a list of entries.
--     Entries and Lookup are about reading and setting, Kept about what is written, Removal about
--     `RemoveKey`, Invariant about all calls in any order, Iteration about the iterator.
--   MemoryRange: `cpp/common/memory_range.h`.
--   Handlers: the signal handlers of `cpp/client/linux/handler/exception_handler.cc`: the class's
--     constructor and destructor, `InstallHandlersLocked`, `RestoreHandlersLocked`, the alternate
--     stack, `SignalHandler` and `HandleSignal`. A process is a record of the file's variables with
--     the kernel's table of actions; Life is the step relation of all that happens to it.
--   AppMemory: `RegisterAppMemory`, `UnregisterAppMemory` and `AddMappingInfo` of the same file.
--   FileWriter: `MinidumpFileWriter` and `UntypedMDRVA` of `cpp/client/minidump_file_writer.cc`, a
--     writer together with the bytes of its file. Allocation is about `Allocate`, Memory about `Copy`
--     and `WriteMemory`; Blocks is about several blocks in one file. Strings has `WriteString` for UTF-8, with
--     `CopyIndexAfterObject` of `cpp/client/minidump_file_writer-inl.h` and `UTF8ToUTF16Char` of
--     `cpp/common/string_conversion.cc`.
--   LongDictionary: `cpp/common/long_string_dictionary.cc`. Segments is about the dictionary that it
--     stands on, Stored about the loop over the segments.
--   LineReader: `cpp/client/linux/minidump_writer/line_reader.h`. Ends says where lines end, Found
--     is about a round of `GetNextLine`, Next about one line and All about a whole file.
--   ByteCursor: the reads, strings and skips of `cpp/common/byte_cursor.h`.
--   CpuInfo: `cpp/client/linux/minidump_writer/proc_cpuinfo_reader.h`, on top of LineReader. Fields has
--     the fields of a file as a function of its lines, Meaning says what a line means without the
--     loops of the reader, and First joins both.
--
-- How the code is modelled. Memory is a list of bytes that starts at the pointer, and an access
-- outside of the object or through a null pointer gives `none`, which no branch of the code
-- catches. A byte is a number, a pointer into a string is the rest of the string; numbers of the
-- machine wrap where the code's do. What the system answers (`dladdr`, `uname`, the unwinding
-- libraries, `mmap`, `pipe`, `clone`, `waitpid`, `sigaction`, `read`, `write`) is an argument, mostly a
-- field of one of the records `Device`, `ChildWorld`, `ParentWorld`, `Kernel` and `FileKernel`. A text
-- that the source asks for twice is the same both times. The mutex of the signal handlers makes each of
-- their functions one step.
--
-- Fuel and termination. Loops over strings and over frames are recursion on the list. The loop of
-- `SplitChar` has fuel, one round for each character and one more, which is enough since each
-- round takes a character at least. `GetNextLine` has a round for each byte of the file and two
-- more, since a round that goes on has read a byte or seen the end; `GetNextField` has one round more
-- than there are bytes, since each line that it skips takes a byte at least. `my_uint_len` recurses on
-- the accessibility of `<`.
--
-- Not modelled. The dumps of Google Breakpad itself (minidump and microdump): `DoDump` takes their
-- results as inputs, and only the file that a minidump is written to is modelled. The adapters of the
-- page allocator to C++ containers, the serialised form of the dictionary, the setter of the
-- byte cursor, the wide strings and the other typed objects of the minidump file, the probe for a kernel
-- without `ftruncate`, the sets of processors, the reader of directories, the loading of libunwind and
-- libbacktrace, the handshake by the first pipe, in which the child waits until the parent allows it to
-- be traced, and the JNI set-up, with the encoding of Java strings. The conversion of UTF-8 is a copy of
-- another project, and an argument. The code for other platforms and the other copies of other
-- projects' libraries.
pub mod Base
pub mod Libc
pub mod CrashInfo
pub mod Signal
pub mod Report
pub mod Split
pub mod Dump
pub mod Bridge
pub mod MemoryRange
pub mod PageAllocator
pub mod Dictionary
pub mod ByteCursor
pub mod Handlers
pub mod AppMemory
pub mod FileWriter
pub mod LineReader
pub mod LongDictionary
pub mod CpuInfo
