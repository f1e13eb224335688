-- ===== src/Report.antt =====
-- client/linux/minidump_whole_writer/minidump_whole_track_writer.h and .cc, with the traces of
-- third_party/utils/libunwind and third_party/utils/libbacktrace: the text that the cloned process
-- writes into the pipe. What the system answers (properties, `uname`, the dynamic linker, the
-- unwinding libraries) is a `Device`; a field that the source asks for twice answers the same.
pub mod Text
pub mod Frames
pub mod Written
pub mod Limits
mod Runs
pub mod Sample
use native_crash2java.Base.{
  ℕ, zero, suc, ◌+◌, ◌*◌, ◌^◌, ◌%◌, ◌-◌, Bool, true, false, ◌&&◌, not, List, [], ◌∷◌, ◌++◌, Option,
  none, some, ltb, leb, ◌==◌, if◌then◌else◌, take, ◌>>=◌,
}
use native_crash2java.Base.Int.{ℤ, pos, negsuc}
use native_crash2java.Base.Codes.{literal}
use native_crash2java.Libc.Text.{my_strlen}
use native_crash2java.CrashInfo.{
  CrashInfo, Writer, ◌>>◌, skip, terminated, init, clear, append, append_int, append_hex, DlInfo,
  format, pointer_sub,
}
use native_crash2java.Signal.{get_crash_signal_string, get_crash_signal_code_string}

abbrev pub max_log_num : ℕ
max_log_num = 10 * 1024

abbrev pub max_frame : ℕ
max_frame = 64

abbrev pub android_l : ℕ
android_l = 21

abbrev pub android_o : ℕ
android_o = 26

pub record Utsname : Type 0 where
  pub sysname : List ℕ
  pub release : List ℕ
  pub version : List ℕ
  pub machine : List ℕ

-- `unwinder`: the answers of `unw_get_reg` on the frames that `unw_step` leads to, from the first
-- one on, or `none` where libunwind could not be loaded or set up. `backtrace`: the lines of
-- `FormatFrameData`, or `none` where libbacktrace could not be loaded or unwound nothing.
pub record Device : Type 0 where
  pub sdk_version : ℤ
  pub uts : Option Utsname
  pub n_cpus : ℤ
  pub arch : List ℕ
  pub size_of_pointer : ℕ
  pub dladdr : ℕ → Option DlInfo
  pub pc : ℕ
  pub crash_signal : ℤ
  pub crash_signal_code : ℤ
  pub crash_address : ℕ
  pub thread_name : List ℕ
  pub unwinder : Option (List (Option ℕ))
  pub backtrace : Option (List (List ℕ))

abbrev pub size_of_int : ℕ
size_of_int = 4

-- `version >= k` on an `int`.
abbrev pub at_least : ℤ → ℕ → Bool
at_least (pos n) k = leb k n
at_least (negsuc n) k = false

module _ (d : Device) where
  unfoldable pub dump_product_information : Writer
  dump_product_information =
      append (some (literal "Operating system: Android ")) >> append_int size_of_int d.sdk_version

  unfoldable pub dump_uts : Option Utsname → Writer
  dump_uts none = skip
  dump_uts (some uts) =
      append (some (literal " "))
      >> append (some (terminated uts.sysname))
      >> append (some (literal " "))
      >> append (some (terminated uts.release))
      >> append (some (literal " "))
      >> append (some (terminated uts.version))

  unfoldable pub dump_os_information : Writer
  unfolding dump_uts
  dump_os_information = dump_uts d.uts

  unfoldable pub hw_arch : Option Utsname → List ℕ
  hw_arch none = literal "unknown_hw_arch"
  hw_arch (some uts) = terminated uts.machine

  unfoldable pub dump_cpu_info : Writer
  unfolding hw_arch
  dump_cpu_info =
      append (some (literal "CPU:"))
      >> append (some (literal " "))
      >> append (some (hw_arch d.uts))
      >> append (some (literal " "))
      >> append (some (literal "("))
      >> append_int size_of_int d.n_cpus
      >> append (some (literal " "))
      >> append (some (literal "core"))
      >> append (some (literal ")"))

  -- The library that holds the crashing instruction; `sname` is appended without a test for null.
  unfoldable pub dump_library : List ℕ → ℕ → Option (List ℕ) → Writer
  dump_library fname fbase sname =
      append (some (literal "Crash pc:"))
      >> append (some (literal " "))
      >> append_hex d.size_of_pointer (pointer_sub d.size_of_pointer d.pc fbase)
      >> append (some (literal "\n"))
      >> append (some (literal "Crash so:"))
      >> append (some (literal " "))
      >> append (some (terminated fname))
      >> append (some (literal "("))
      >> append (some (terminated d.arch))
      >> append (some (literal ")"))
      >> append (some (literal "\n"))
      >> append (some (literal "Crash method: "))
      >> append (sname >>= λ s. some (terminated s))

  unfoldable pub dump_dl_info : Option DlInfo → Writer
  unfolding dump_library
  dump_dl_info none = append (some (literal "Microdump skipped (uninteresting)"))
  dump_dl_info (some info) = elim info.fname [
    | none ↦ append (some (literal "Microdump skipped (uninteresting)"))
    | some fname ↦ dump_library fname info.fbase info.sname
  ]

  unfoldable pub dump_crash_info_in_lib : Writer
  unfolding dump_dl_info
  dump_crash_info_in_lib = dump_dl_info (d.dladdr d.pc)

  unfoldable pub dump_crash_reason : Writer
  dump_crash_reason =
      append (some (literal "Crash reason: signal "))
      >> append_int size_of_int d.crash_signal
      >> append (some (literal "("))
      >> append (some (terminated (get_crash_signal_string d.crash_signal)))
      >> append (some (literal ")"))
      >> append (some (literal " "))
      >> append
          (some (terminated (get_crash_signal_code_string d.crash_signal d.crash_signal_code)))
      >> append (some (literal "\n"))
      >> append (some (literal "Crash address: "))
      >> append_hex d.size_of_pointer d.crash_address

  -- `LibunwindUtils::dumpTrack`: a frame whose register could not be read does not count.
  unfoldable pub dump_frame : ℕ → Option ℕ → Writer
  dump_frame i none = append (some (literal "unKnow frame"))
  dump_frame i (some pc) = format d.size_of_pointer d.dladdr pc i

  unfoldable pub next_index : ℕ → Option ℕ → ℕ
  next_index i none = i
  next_index i (some pc) = i + 1

  -- The `do` loop, at frame number `i`; it ends when `unw_step` finds no further frame.
  unfoldable pub dump_track : ℕ → List (Option ℕ) → Writer
  unfolding dump_frame next_index
  dump_track i [] = skip
  dump_track i (f ∷ []) = dump_frame i f
  dump_track i (f ∷ g ∷ fs) =
      let rest = dump_track (next_index i f) (g ∷ fs) in
      dump_frame i f >> (if ltb (next_index i f) max_frame then rest else skip)

  unfoldable pub dump_native_thread_trash_before_o : Writer
  unfolding dump_track
  dump_native_thread_trash_before_o = elim d.unwinder [
    | none ↦ skip
    | some frames ↦ dump_track 0 frames
  ]

  -- `LibBackTraceUtils::dumpTrace`: empty lines are left out.
  unfoldable pub dump_trace : List (List ℕ) → Writer
  dump_trace [] = skip
  dump_trace ([] ∷ lines) = dump_trace lines
  dump_trace ((c ∷ str) ∷ lines) =
      (append (some (terminated (c ∷ str))) >> append (some (literal "\n"))) >> dump_trace lines

  unfoldable pub dump_native_thread_trash_after_o : Writer
  unfolding dump_trace
  dump_native_thread_trash_after_o = elim d.backtrace [
    | none ↦ skip
    | some lines ↦ dump_trace lines
  ]

  unfoldable pub dump_native_thread_trash : Writer
  unfolding dump_native_thread_trash_before_o dump_native_thread_trash_after_o
  dump_native_thread_trash =
      append (some (literal "Thread[name:"))
      >> append (some (terminated d.thread_name))
      >> append (some (literal "]"))
      >> append (some (literal " (NOTE: linux thread name length limit is 15 characters)"))
      >> append (some (literal "\n"))
      >> (if at_least d.sdk_version android_l && not (at_least d.sdk_version android_o)
          then dump_native_thread_trash_before_o
          else if at_least d.sdk_version android_o
          then dump_native_thread_trash_after_o
          else skip)

  -- `HEAD_THREAD` parts the two halves of the report.
  unfoldable pub fill : Writer
  unfolding dump_product_information dump_os_information dump_cpu_info dump_crash_reason
      dump_crash_info_in_lib dump_native_thread_trash
  fill =
      dump_product_information
      >> dump_os_information
      >> append (some (literal "\n"))
      >> dump_cpu_info
      >> append (some (literal "\n"))
      >> append (some (literal "\n"))
      >> dump_crash_reason
      >> append (some (literal "\n"))
      >> dump_crash_info_in_lib
      >> append (some (literal "^"))
      >> dump_native_thread_trash

  -- `Dump`: what is written into the pipe, and the buffer afterwards.
  unfoldable pub dump : CrashInfo → Option (List ℕ × CrashInfo)
  unfolding fill
  dump c = fill c >>= λ c'.
      my_strlen c'.log_line >>= λ n. clear c' >>= λ c''. some (take n c'.log_line, c'')
