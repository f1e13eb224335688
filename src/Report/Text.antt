-- ===== src/Report/Text.antt =====
-- The text of the report as a function of what the system answers, and what the answers must be
-- like for the report to be written at all.
use native_crash2java.Base.{
  ℕ, ◌*◌, ◌≤◌, ◌≢◌, ◌&&◌, not, List, [], ◌∷◌, ◌++◌, Option, none, some, All, ltb, length,
  if◌then◌else◌, ◌==◌,
}
use native_crash2java.Base.Int.{ℤ}
use native_crash2java.Base.Codes.{codes}
use native_crash2java.Libc.Text.{IsText}
use native_crash2java.CrashInfo.{DlInfo, decimal, two_digits, pointer_sub}
use native_crash2java.CrashInfo.Hex.{hex_text}
use native_crash2java.Signal.{get_crash_signal_string, get_crash_signal_code_string}
use native_crash2java.Report

-- A number whose text fits the block of `append(int)`.
abbrev pub Fits : ℤ → Type 0
Fits i = length (decimal i) ≤ Report.size_of_int

abbrev pub Optional {ℓ κ} : {A : Type ℓ} → (A → Type κ) → Option A → Type κ
Optional P none = Unit
Optional P (some a) = P a

-- Lines of a frame, of a found library and of the whole report.
module _ (d : Report.Device) where
  abbrev pub pc_text : ℕ → ℕ → List ℕ
  pc_text pc fbase =
      if not (fbase == 0) && not (pc == 0)
      then codes " "
        ++ codes "pc"
        ++ codes " "
        ++ hex_text (d.size_of_pointer * 2) (pointer_sub d.size_of_pointer pc fbase)
      else []

  abbrev pub sname_text : Option (List ℕ) → List ℕ
  sname_text none = []
  sname_text (some sname) = codes " " ++ codes "(" ++ sname ++ codes "(" ++ codes ")"

  abbrev pub saddr_text : ℕ → ℕ → List ℕ
  saddr_text pc saddr =
      if not (saddr == 0)
      then codes "+"
        ++ hex_text (d.size_of_pointer * 2) (pointer_sub d.size_of_pointer pc saddr)
        ++ codes ")"
      else []

  abbrev pub found_text : ℕ → DlInfo → Option (List ℕ) → List ℕ
  found_text pc info none = codes "unKnow frame"
  found_text pc info (some fname) =
      pc_text pc info.fbase
      ++ (codes " " ++ fname)
      ++ sname_text info.sname
      ++ saddr_text pc info.saddr

  abbrev pub frame_text : ℕ → Option DlInfo → List ℕ
  frame_text pc none = codes "unKnow frame"
  frame_text pc (some info) = found_text pc info info.fname

  unfoldable pub line_text : ℕ → ℕ → List ℕ
  line_text pc line = codes "     #" ++ two_digits line ++ frame_text pc (d.dladdr pc) ++ codes "\n"

  abbrev pub unwound_text : ℕ → Option ℕ → List ℕ
  unwound_text i none = codes "unKnow frame"
  unwound_text i (some pc) = line_text pc i

  unfoldable pub track_text : ℕ → List (Option ℕ) → List ℕ
  track_text i [] = []
  track_text i (f ∷ []) = unwound_text i f
  track_text i (f ∷ g ∷ fs) =
      let i' = Report.next_index d i f in
      unwound_text i f ++ (if ltb i' Report.max_frame then track_text i' (g ∷ fs) else [])

  unfoldable pub trace_text : List (List ℕ) → List ℕ
  trace_text [] = []
  trace_text ([] ∷ lines) = trace_text lines
  trace_text ((c ∷ str) ∷ lines) = ((c ∷ str) ++ codes "\n") ++ trace_text lines

  abbrev pub unwinder_text : Option (List (Option ℕ)) → List ℕ
  unwinder_text none = []
  unwinder_text (some frames) = track_text 0 frames

  abbrev pub backtrace_text : Option (List (List ℕ)) → List ℕ
  backtrace_text none = []
  backtrace_text (some lines) = trace_text lines

  abbrev pub stack_text : List ℕ
  stack_text =
      if Report.at_least d.sdk_version Report.android_l
        && not (Report.at_least d.sdk_version Report.android_o)
      then unwinder_text d.unwinder
      else if Report.at_least d.sdk_version Report.android_o
      then backtrace_text d.backtrace
      else []

  -- The half of the report behind the delimiter: the thread and its stack.
  unfoldable pub thread_text : List ℕ
  thread_text =
      codes "Thread[name:"
      ++ d.thread_name
      ++ codes "]"
      ++ codes " (NOTE: linux thread name length limit is 15 characters)"
      ++ codes "\n"
      ++ stack_text

  abbrev pub product_text : List ℕ
  product_text = codes "Operating system: Android " ++ decimal d.sdk_version

  abbrev pub uts_text : Option Report.Utsname → List ℕ
  uts_text none = []
  uts_text (some uts) =
      codes " " ++ uts.sysname ++ codes " " ++ uts.release ++ codes " " ++ uts.version

  abbrev pub machine_text : Option Report.Utsname → List ℕ
  machine_text none = codes "unknown_hw_arch"
  machine_text (some uts) = uts.machine

  abbrev pub cpu_text : List ℕ
  cpu_text =
      codes "CPU:"
      ++ codes " "
      ++ machine_text d.uts
      ++ codes " "
      ++ codes "("
      ++ decimal d.n_cpus
      ++ codes " "
      ++ codes "core"
      ++ codes ")"

  abbrev pub reason_text : List ℕ
  reason_text =
      codes "Crash reason: signal "
      ++ decimal d.crash_signal
      ++ codes "("
      ++ get_crash_signal_string d.crash_signal
      ++ codes ")"
      ++ codes " "
      ++ get_crash_signal_code_string d.crash_signal d.crash_signal_code
      ++ codes "\n"
      ++ codes "Crash address: "
      ++ hex_text (d.size_of_pointer * 2) d.crash_address

  abbrev pub library_text : List ℕ → ℕ → List ℕ → List ℕ
  library_text fname fbase sname =
      codes "Crash pc:"
      ++ codes " "
      ++ hex_text (d.size_of_pointer * 2) (pointer_sub d.size_of_pointer d.pc fbase)
      ++ codes "\n"
      ++ codes "Crash so:"
      ++ codes " "
      ++ fname
      ++ codes "("
      ++ d.arch
      ++ codes ")"
      ++ codes "\n"
      ++ codes "Crash method: "
      ++ sname

  abbrev pub symbol_text : List ℕ → ℕ → Option (List ℕ) → List ℕ
  symbol_text fname fbase none = []
  symbol_text fname fbase (some sname) = library_text fname fbase sname

  abbrev pub named_text : DlInfo → Option (List ℕ) → List ℕ
  named_text info none = codes "Microdump skipped (uninteresting)"
  named_text info (some fname) = symbol_text fname info.fbase info.sname

  abbrev pub lib_text : Option DlInfo → List ℕ
  lib_text none = codes "Microdump skipped (uninteresting)"
  lib_text (some info) = named_text info info.fname

  -- The half before the delimiter: the system, the reason of the crash and where it happened.
  unfoldable pub info_text : List ℕ
  info_text =
      product_text
      ++ uts_text d.uts
      ++ codes "\n"
      ++ cpu_text
      ++ codes "\n"
      ++ codes "\n"
      ++ reason_text
      ++ codes "\n"
      ++ lib_text (d.dladdr d.pc)

  unfoldable pub report_text : List ℕ
  report_text = info_text ++ codes "^" ++ thread_text

abbrev pub UtsIsText : Report.Utsname → Type 0
UtsIsText u =
    All IsText u.sysname × All IsText u.release × All IsText u.version × All IsText u.machine

abbrev pub InfoIsText : DlInfo → Type 0
InfoIsText info = Optional (All IsText) info.fname × Optional (All IsText) info.sname

-- If the crash lies in a library, it lies in a function with a name: `DumpCrashInfoInLib` reads
-- the name without a test.
abbrev pub HasSymbol : Option DlInfo → Type 0
HasSymbol none = Unit
HasSymbol (some info) = info.fname ≢ none → info.sname ≢ none

-- The answers of the system are C strings, the numbers fit the block of `append(int)`, and the
-- function that crashed has a name.
pub record IsUsable (d : Report.Device) : Type 0 where
  pub sdk : Fits d.sdk_version
  pub cpus : Fits d.n_cpus
  pub signal : Fits d.crash_signal
  pub uts : Optional UtsIsText d.uts
  pub arch : All IsText d.arch
  pub name : All IsText d.thread_name
  pub infos : (pc : ℕ) → Optional InfoIsText (d.dladdr pc)
  pub symbol : HasSymbol (d.dladdr d.pc)
  pub lines : Optional (All (All IsText)) d.backtrace
