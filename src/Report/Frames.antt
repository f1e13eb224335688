-- ===== src/Report/Frames.antt =====
-- `format`, `dumpTrack`, `dumpTrace` and `DumpNativeThreadTrash` append the text of the stack.
use native_crash2java.Base.{
  ℕ, ◌≡◌, Bool, true, false, List, [], ◌∷◌, ◌++◌, Option, none, some, arith, All, if◌then◌else◌,
}
use native_crash2java.Base.Int.{pos}
use native_crash2java.Base.Codes.{literal}
use native_crash2java.Libc.Text.{IsText}
use native_crash2java.CrashInfo.{
  Writer, ◌>>◌, append, terminated, skip, DlInfo, CrashInfo, format, format_pc, format_sname,
  format_saddr, format_frame, two_digits,
}
use native_crash2java.CrashInfo.Hex.{append_hex-Appends}
use native_crash2java.CrashInfo.Appends.{
  Logs, Appends, ◌⨾◌, literal-Appends, append_text, decimal-IsText, skip-Appends,
}
use native_crash2java.Report.Text.{
  InfoIsText, Optional, pc_text, sname_text, saddr_text, found_text, frame_text, line_text,
  unwound_text, track_text, trace_text, unwinder_text, backtrace_text, thread_text,
}
use native_crash2java.Report

if-Appends :
    (b : Bool) (f g : Writer) (s t : List ℕ)
    → Appends f s
    → Appends g t
    → Appends (if b then f else g) (if b then s else t)
if-Appends true f g s t hf hg = hf
if-Appends false f g s t hf hg = hg

two_digits-IsText : (line : ℕ) → All IsText (two_digits line)
unfolding two_digits
two_digits-IsText line = ground (arith, decimal-IsText (pos line))

module _ (d : Report.Device) where
  pc-Appends :
      (pc fbase : ℕ) → Appends (format_pc d.size_of_pointer d.dladdr pc fbase) (pc_text d pc fbase)
  unfolding format_pc
  pc-Appends pc fbase =
      if-Appends _ _ _ _ _
        (literal-Appends " " (omega arith)
          ⨾ literal-Appends "pc" (omega arith)
          ⨾ literal-Appends " " (omega arith)
          ⨾ append_hex-Appends d.size_of_pointer _)
        skip-Appends

  sname-Appends :
      (sname : Option (List ℕ))
      → Optional (All IsText) sname
      → Appends (format_sname d.size_of_pointer d.dladdr sname) (sname_text d sname)
  unfolding format_sname
  sname-Appends none h = skip-Appends
  sname-Appends (some sname) h =
      literal-Appends " " (omega arith)
      ⨾ literal-Appends "(" (omega arith)
      ⨾ append_text sname h
      ⨾ literal-Appends "(" (omega arith)
      ⨾ literal-Appends ")" (omega arith)

  saddr-Appends :
      (pc saddr : ℕ)
      → Appends (format_saddr d.size_of_pointer d.dladdr pc saddr) (saddr_text d pc saddr)
  unfolding format_saddr
  saddr-Appends pc saddr =
      if-Appends _ _ _ _ _
        (literal-Appends "+" (omega arith)
          ⨾ append_hex-Appends d.size_of_pointer _
          ⨾ literal-Appends ")" (omega arith))
        skip-Appends

  found-Appends :
      (pc : ℕ) (info : DlInfo) (fname : Option (List ℕ))
      → Optional (All IsText) fname
      → Optional (All IsText) info.sname
      → Appends
          (elim fname [
            | none ↦ append (some (literal "unKnow frame"))
            | some fname ↦
                format_pc d.size_of_pointer d.dladdr pc info.fbase
                >> (append (some (literal " ")) >> append (some (terminated fname)))
                >> format_sname d.size_of_pointer d.dladdr info.sname
                >> format_saddr d.size_of_pointer d.dladdr pc info.saddr
          ])
          (found_text d pc info fname)
  found-Appends pc info none hf hs = literal-Appends "unKnow frame" (omega arith)
  found-Appends pc info (some fname) hf hs =
      pc-Appends pc info.fbase
      ⨾ (literal-Appends " " (omega arith) ⨾ append_text fname hf)
      ⨾ sname-Appends info.sname hs
      ⨾ saddr-Appends pc info.saddr

  frame-Appends :
      (pc : ℕ) (info : Option DlInfo)
      → Optional InfoIsText info
      → Appends (format_frame d.size_of_pointer d.dladdr pc info) (frame_text d pc info)
  unfolding format_frame
  frame-Appends pc none h = literal-Appends "unKnow frame" (omega arith)
  frame-Appends pc (some info) h = found-Appends pc info info.fname h.0 h.1

  module _ (infos : (pc : ℕ) → Optional InfoIsText (d.dladdr pc)) where
    -- If the answers of `dladdr` are C strings, `format` appends the line of a frame: its number, the
    -- offset in its library, the library, and the function with the offset in it, where these are known.
    pub format-Appends :
        (pc line : ℕ) (c : CrashInfo) (u : List ℕ)
        → Logs c u
        → (c' : CrashInfo) × (format d.size_of_pointer d.dladdr pc line c ≡ some c')
          × Logs c' (u ++ line_text d pc line)
          × (c'.line_buffer_size ≡ c.line_buffer_size)
    unfolding format line_text
    format-Appends pc line =
        literal-Appends "     #" (omega arith)
        ⨾ append_text (two_digits line) (two_digits-IsText line)
        ⨾ frame-Appends pc (d.dladdr pc) (infos pc)
        ⨾ literal-Appends "\n" (omega arith)

    unwound-Appends :
        (i : ℕ) (f : Option ℕ) → Appends (Report.dump_frame d i f) (unwound_text d i f)
    unfolding Report.dump_frame
    unwound-Appends i none = literal-Appends "unKnow frame" (omega arith)
    unwound-Appends i (some pc) = format-Appends pc i

    track-Appends :
        (i : ℕ) (frames : List (Option ℕ))
        → Appends (Report.dump_track d i frames) (track_text d i frames)
    unfolding Report.dump_track track_text
    track-Appends i [] = skip-Appends
    track-Appends i (f ∷ []) = unwound-Appends i f
    track-Appends i (f ∷ g ∷ fs) =
        unwound-Appends i f
        ⨾ if-Appends _ _ _ _ _ (track-Appends (Report.next_index d i f) (g ∷ fs)) skip-Appends

  trace-Appends :
      (lines : List (List ℕ))
      → All (All IsText) lines
      → Appends (Report.dump_trace d lines) (trace_text d lines)
  unfolding Report.dump_trace trace_text
  trace-Appends [] h = skip-Appends
  trace-Appends ([] ∷ lines) h = trace-Appends lines h.1
  trace-Appends ((c ∷ str) ∷ lines) h =
      (append_text (c ∷ str) h.0 ⨾ literal-Appends "\n" (omega arith)) ⨾ trace-Appends lines h.1

  module _ (infos : (pc : ℕ) → Optional InfoIsText (d.dladdr pc)) where
    unwinder-Appends :
        (frames : Option (List (Option ℕ)))
        → Appends
            (elim frames [ none ↦ skip | some fs ↦ Report.dump_track d 0 fs ])
            (unwinder_text d frames)
    unwinder-Appends none = skip-Appends
    unwinder-Appends (some fs) = track-Appends infos 0 fs

    backtrace-Appends :
        (lines : Option (List (List ℕ)))
        → Optional (All (All IsText)) lines
        → Appends
            (elim lines [ none ↦ skip | some ls ↦ Report.dump_trace d ls ])
            (backtrace_text d lines)
    backtrace-Appends none h = skip-Appends
    backtrace-Appends (some ls) h = trace-Appends ls h

    pub thread-Appends :
        All IsText d.thread_name
        → Optional (All (All IsText)) d.backtrace
        → Appends (Report.dump_native_thread_trash d) (thread_text d)
    unfolding Report.dump_native_thread_trash thread_text
    thread-Appends name lines =
        literal-Appends "Thread[name:" (omega arith)
        ⨾ append_text d.thread_name name
        ⨾ literal-Appends "]" (omega arith)
        ⨾ literal-Appends " (NOTE: linux thread name length limit is 15 characters)" (omega arith)
        ⨾ literal-Appends "\n" (omega arith)
        ⨾ if-Appends _ _ _ _ _ (unwinder-Appends d.unwinder)
            (if-Appends _ _ _ _ _ (backtrace-Appends d.backtrace lines) skip-Appends)
