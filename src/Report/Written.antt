-- ===== src/Report/Written.antt =====
-- Each method of the writer appends its part of the text, so that `Dump` writes the text of the
-- report, cut off at the size of the buffer.
use native_crash2java.Base.{
  ℕ, zero, suc, ◌-◌, ◌<◌, ◌≡◌, refl, ◌≢◌, List, [], ◌∷◌, Option, none, some, arith, All, ap, length,
  take, take-append, store, store-append, ◌>>=◌, ◌∙◌,
}
use native_crash2java.Base.Codes.{literal}
use mathlib.Core.Option
use native_crash2java.Libc.Text.{IsText, c_string, my_strlen}
use native_crash2java.Libc.Text.Search.{c_string-split, my_strlen-c_string}
use native_crash2java.CrashInfo.{DlInfo, CrashInfo, append, clear}
use native_crash2java.CrashInfo.Hex.{append_hex-Appends}
use native_crash2java.CrashInfo.Appends.{
  Appends, Logs, ◌⨾◌, literal-Appends, append_text, append_int-Appends, decimal-IsText,
  skip-Appends,
}
use native_crash2java.Signal.Words.{signal_string-IsPlain, code_string-IsPlain, IsPlain}
use native_crash2java.Report.Frames.{thread-Appends}
use native_crash2java.Report.Text.{
  IsUsable, InfoIsText, UtsIsText, HasSymbol, Optional, Fits, product_text, uts_text, machine_text,
  cpu_text, reason_text, library_text, named_text, lib_text, info_text, report_text, symbol_text,
}
use native_crash2java.Report

IsPlain-IsText : (s : List ℕ) → All IsPlain s → All IsText s
IsPlain-IsText [] h = tt
IsPlain-IsText (c ∷ s) h = (h.0.0, IsPlain-IsText s h.1)

module _ (d : Report.Device) where
  product-Appends :
      Fits d.sdk_version → Appends (Report.dump_product_information d) (product_text d)
  unfolding Report.dump_product_information
  product-Appends h =
      literal-Appends "Operating system: Android " (omega arith)
      ⨾ append_int-Appends _ d.sdk_version (decimal-IsText d.sdk_version) h

  uts-Appends :
      (uts : Option Report.Utsname)
      → Optional UtsIsText uts
      → Appends (Report.dump_uts d uts) (uts_text d uts)
  unfolding Report.dump_uts
  uts-Appends none h = skip-Appends
  uts-Appends (some uts) h =
      literal-Appends " " (omega arith)
      ⨾ append_text uts.sysname h.0
      ⨾ literal-Appends " " (omega arith)
      ⨾ append_text uts.release h.1
      ⨾ literal-Appends " " (omega arith)
      ⨾ append_text uts.version h.2

  machine-Appends :
      (uts : Option Report.Utsname)
      → Optional UtsIsText uts
      → Appends (append (some (Report.hw_arch d uts))) (machine_text d uts)
  unfolding Report.hw_arch
  machine-Appends none h = literal-Appends "unknown_hw_arch" (omega arith)
  machine-Appends (some uts) h = append_text uts.machine h.3

  cpu-Appends :
      Optional UtsIsText d.uts → Fits d.n_cpus → Appends (Report.dump_cpu_info d) (cpu_text d)
  unfolding Report.dump_cpu_info
  cpu-Appends h fits =
      literal-Appends "CPU:" (omega arith)
      ⨾ literal-Appends " " (omega arith)
      ⨾ machine-Appends d.uts h
      ⨾ literal-Appends " " (omega arith)
      ⨾ literal-Appends "(" (omega arith)
      ⨾ append_int-Appends _ d.n_cpus (decimal-IsText d.n_cpus) fits
      ⨾ literal-Appends " " (omega arith)
      ⨾ literal-Appends "core" (omega arith)
      ⨾ literal-Appends ")" (omega arith)

  reason-Appends : Fits d.crash_signal → Appends (Report.dump_crash_reason d) (reason_text d)
  unfolding Report.dump_crash_reason
  reason-Appends fits =
      literal-Appends "Crash reason: signal " (omega arith)
      ⨾ append_int-Appends _ d.crash_signal (decimal-IsText d.crash_signal) fits
      ⨾ literal-Appends "(" (omega arith)
      ⨾ append_text _ (IsPlain-IsText _ (signal_string-IsPlain d.crash_signal))
      ⨾ literal-Appends ")" (omega arith)
      ⨾ literal-Appends " " (omega arith)
      ⨾ append_text _ (IsPlain-IsText _ (code_string-IsPlain d.crash_signal d.crash_signal_code))
      ⨾ literal-Appends "\n" (omega arith)
      ⨾ literal-Appends "Crash address: " (omega arith)
      ⨾ append_hex-Appends d.size_of_pointer d.crash_address

  library-Appends :
      (fname sname : List ℕ) (fbase : ℕ)
      → All IsText fname
      → All IsText sname
      → All IsText d.arch
      → Appends (Report.dump_library d fname fbase (some sname)) (library_text d fname fbase sname)
  unfolding Report.dump_library
  library-Appends fname sname fbase hf hs ha =
      literal-Appends "Crash pc:" (omega arith)
      ⨾ literal-Appends " " (omega arith)
      ⨾ append_hex-Appends d.size_of_pointer _
      ⨾ literal-Appends "\n" (omega arith)
      ⨾ literal-Appends "Crash so:" (omega arith)
      ⨾ literal-Appends " " (omega arith)
      ⨾ append_text fname hf
      ⨾ literal-Appends "(" (omega arith)
      ⨾ append_text d.arch ha
      ⨾ literal-Appends ")" (omega arith)
      ⨾ literal-Appends "\n" (omega arith)
      ⨾ literal-Appends "Crash method: " (omega arith)
      ⨾ append_text sname hs

  symbol-Appends :
      (fname : List ℕ) (fbase : ℕ) (sname : Option (List ℕ))
      → All IsText fname
      → Optional (All IsText) sname
      → All IsText d.arch
      → sname ≢ none
      → Appends (Report.dump_library d fname fbase sname) (symbol_text d fname fbase sname)
  symbol-Appends fname fbase none hf hs ha h = absurd (h refl)
  symbol-Appends fname fbase (some sname) hf hs ha h = library-Appends fname sname fbase hf hs ha

  named-Appends :
      (info : DlInfo) (fname : Option (List ℕ))
      → Optional (All IsText) fname
      → Optional (All IsText) info.sname
      → All IsText d.arch
      → (fname ≢ none → info.sname ≢ none)
      → Appends
          (elim fname [
            | none ↦ append (some (literal "Microdump skipped (uninteresting)"))
            | some fname ↦ Report.dump_library d fname info.fbase info.sname
          ])
          (named_text d info fname)
  named-Appends info none hf hs ha h =
      literal-Appends "Microdump skipped (uninteresting)" (omega arith)
  named-Appends info (some fname) hf hs ha h =
      symbol-Appends fname info.fbase info.sname hf hs ha (h (λ e. cc))

  lib-Appends :
      (info : Option DlInfo)
      → Optional InfoIsText info
      → All IsText d.arch
      → HasSymbol info
      → Appends (Report.dump_dl_info d info) (lib_text d info)
  unfolding Report.dump_dl_info
  lib-Appends none h ha s = literal-Appends "Microdump skipped (uninteresting)" (omega arith)
  lib-Appends (some info) h ha s = named-Appends info info.fname h.0 h.1 ha s

  fill-Appends : IsUsable d → Appends (Report.fill d) (report_text d)
  unfolding Report.fill Report.dump_os_information Report.dump_crash_info_in_lib report_text
      info_text
  fill-Appends u =
      product-Appends u.sdk
      ⨾ uts-Appends d.uts u.uts
      ⨾ literal-Appends "\n" (omega arith)
      ⨾ cpu-Appends u.uts u.cpus
      ⨾ literal-Appends "\n" (omega arith)
      ⨾ literal-Appends "\n" (omega arith)
      ⨾ reason-Appends u.signal
      ⨾ literal-Appends "\n" (omega arith)
      ⨾ lib-Appends (d.dladdr d.pc) (u.infos d.pc) u.arch u.symbol
      ⨾ literal-Appends "^" (omega arith)
      ⨾ thread-Appends d u.infos u.name u.lines

-- The text of a usable report is a C string.
pub report_text-IsText : (d : Report.Device) → IsUsable d → All IsText (report_text d)
report_text-IsText d u = let (c', run, l, _) = fill-Appends d u empty_buffer [] start in l.chars
  where
    empty_buffer : CrashInfo
    empty_buffer = record { line_buffer_size = 1; log_line = 0 ∷ [] }

    start : Logs empty_buffer []
    start = record { size = refl; room = omega arith; chars = tt; text = unfold c_string in refl }

-- The characters before the terminator.
take-c_string : (m s : List ℕ) → c_string m ≡ some s → take (length s) m ≡ s
take-c_string m s e =
    let (rest, split) = c_string-split m s e in rw split (take-append s (0 ∷ rest))

clear-Logs :
    (c : CrashInfo) (u : List ℕ)
    → Logs c u
    → (c' : CrashInfo) × (clear c ≡ some c')
      × Logs c' []
      × (c'.line_buffer_size ≡ c.line_buffer_size)
clear-Logs c u l =
    let (b, rest, split) = nonempty c.log_line (omega (arith, l.size, l.room)) in
    (
      record c { log_line = 0 ∷ rest },
      unfold clear in
          ap (λ m. store m 0 0 >>= λ r. some (record c { log_line = r })) split
          ∙ rw (store-append [] b 0 rest) refl,
      record {
        size = omega (arith, ap length split, l.size);
        room = l.room;
        chars = tt;
        text = unfold c_string in rw (take-nil (c.line_buffer_size - 1)) refl;
      },
      refl,
    )
  where
    nonempty : (m : List ℕ) → 0 < length m → (b : ℕ) × (rest : List ℕ) × (m ≡ b ∷ rest)
    nonempty [] h = absurd (omega arith)
    nonempty (b ∷ rest) h = (b, rest, refl)

    take-nil : (n : ℕ) → take {A = ℕ} n [] ≡ []
    take-nil zero = refl
    take-nil (suc n) = refl

-- If the system's answers are usable, `Dump` on an empty buffer writes the text of the report into
-- the pipe, cut off at one byte less than the size of the buffer, and empties the buffer.
pub dump-report_text :
    (d : Report.Device) (c : CrashInfo)
    → IsUsable d
    → Logs c []
    → (c' : CrashInfo) × (Report.dump d c
        ≡ some (take (c.line_buffer_size - 1) (report_text d), c'))
      × Logs c' []
dump-report_text d c u l =
    let (c', run, l', same) = fill-Appends d u c [] l in
    let (c'', cleared, l'', _) = clear-Logs c' (report_text d) l' in
    let shown : List ℕ = take (c'.line_buffer_size - 1) (report_text d) in
    let len : my_strlen c'.log_line ≡ some (length shown) =
      my_strlen-c_string c'.log_line ∙ ap (Option.map length) l'.text in
    let front : take (length shown) c'.log_line ≡ shown = take-c_string c'.log_line shown l'.text in
    (c'', unfold Report.dump in rw (run, len, cleared, front) (rw same refl), l'')
