-- ===== src/Report/Limits.antt =====
-- `dumpTrack` stops at the frame limit if the frames can be read, and `DumpCrashInfoInLib` needs a
-- function's name.
use native_crash2java.Base.{
  ℕ, zero, suc, ◌+◌, ◌<◌, ◌≡◌, refl, List, [], ◌∷◌, Option, none, some, arith, map, take, ap, ltb,
  lt→ltb, if◌then◌else◌, false, ◌>>=◌, replicate, ◌∙◌, sym, Option-cases, inl, inr,
}
use mathlib.Core.Path.{fun_ext}
use native_crash2java.CrashInfo.{CrashInfo, Writer, ◌>>◌, skip, DlInfo, append, format}
use native_crash2java.Report

-- One round of the loop.
track_round :
    (d : Report.Device) (i : ℕ) (f g : Option ℕ) (fs : List (Option ℕ))
    → Report.dump_track d i (f ∷ g ∷ fs) ≡ (
        Report.dump_frame d i f
        >> (if ltb (Report.next_index d i f) Report.max_frame
            then Report.dump_track d (Report.next_index d i f) (g ∷ fs)
            else skip))
unfolding Report.dump_track
track_round d i f g fs = refl

>>=-some : (o : Option CrashInfo) → (o >>= some) ≡ o
>>=-some none = refl
>>=-some (some c) = refl

>>-skip : (f : Writer) → (f >> skip) ≡ f
>>-skip f = fun_ext λ c. >>=-some (f c)

-- The last round within the limit, and a round before it.
last_round :
    (d : Report.Device) (i p : ℕ) (g : Option ℕ) (fs : List (Option ℕ))
    → i + 1 ≡ Report.max_frame
    → Report.dump_track d i (some p ∷ g ∷ fs) ≡ Report.dump_frame d i (some p)
last_round d i p g fs h =
    track_round d i (some p) g fs
    ∙ unfold Report.next_index in rw reached (>>-skip (Report.dump_frame d i (some p)))
  where
    reached : ltb (i + 1) Report.max_frame ≡ false
    reached = ground arith

inner_round :
    (d : Report.Device) (i p : ℕ) (g : Option ℕ) (fs : List (Option ℕ))
    → i + 1 < Report.max_frame
    → Report.dump_track d i (some p ∷ g ∷ fs)
      ≡ (Report.dump_frame d i (some p) >> Report.dump_track d (i + 1) (g ∷ fs))
inner_round d i p g fs h =
    track_round d i (some p) g fs
    ∙ unfold Report.next_index in rw (lt→ltb (i + 1) Report.max_frame h) refl

-- A frame for each program counter, numbered from `i` on.
unfoldable pub numbered_frames : Report.Device → ℕ → List ℕ → Writer
numbered_frames d i [] = skip
numbered_frames d i (p ∷ pcs) =
    format d.size_of_pointer d.dladdr p i >> numbered_frames d (i + 1) pcs

one_frame :
    (d : Report.Device) (i p : ℕ) → Report.dump_frame d i (some p) ≡ numbered_frames d i (p ∷ [])
unfolding numbered_frames Report.dump_frame
one_frame d i p = sym (>>-skip (format d.size_of_pointer d.dladdr p i))

more_frames :
    (d : Report.Device) (i p : ℕ) (pcs : List ℕ)
    → (Report.dump_frame d i (some p) >> numbered_frames d (i + 1) pcs)
      ≡ numbered_frames d i (p ∷ pcs)
unfolding numbered_frames Report.dump_frame
more_frames d i p pcs = refl

single_round :
    (d : Report.Device) (i p : ℕ)
    → Report.dump_track d i (some p ∷ []) ≡ Report.dump_frame d i (some p)
unfolding Report.dump_track
single_round d i p = refl

track-frames :
    (d : Report.Device) (i k : ℕ) (pcs : List ℕ)
    → i + suc k ≡ Report.max_frame
    → Report.dump_track d i (map some pcs) ≡ numbered_frames d i (take (suc k) pcs)
track-frames d i k [] h = unfold Report.dump_track numbered_frames in refl
track-frames d i zero (p ∷ []) h = single_round d i p ∙ one_frame d i p
track-frames d i (suc k) (p ∷ []) h = single_round d i p ∙ one_frame d i p
track-frames d i zero (p ∷ q ∷ qs) h =
    last_round d i p (some q) (map some qs) (omega arith) ∙ one_frame d i p
track-frames d i (suc k) (p ∷ q ∷ qs) h =
    inner_round d i p (some q) (map some qs) (omega arith)
    ∙ ap (λ (w : Writer). Report.dump_frame d i (some p) >> w)
        (track-frames d (i + 1) k (q ∷ qs) (omega arith))
    ∙ more_frames d i p (q ∷ take k qs)

-- If the program counter of each frame can be read, the trace has the lines of the first 64 frames, all
-- of them and no more, in order and numbered from 0 on.
pub dump_track-take :
    (d : Report.Device) (pcs : List ℕ)
    → Report.dump_track d 0 (map some pcs) ≡ numbered_frames d 0 (take 64 pcs)
dump_track-take d pcs = track-frames d 0 63 pcs (omega arith)

-- `n` unread frames in a row.
pub unread_frames : Report.Device → ℕ → Writer
unread_frames d zero = skip
unread_frames d (suc n) = Report.dump_frame d 0 none >> unread_frames d n

unread_round :
    (d : Report.Device) (fs : List (Option ℕ))
    → Report.dump_track d 0 (none ∷ none ∷ fs)
      ≡ (Report.dump_frame d 0 none >> Report.dump_track d 0 (none ∷ fs))
unfolding Report.next_index
unread_round d fs = track_round d 0 none none fs

one_unread : (d : Report.Device) → Report.dump_track d 0 (none ∷ []) ≡ unread_frames d 1
unfolding Report.dump_track unread_frames
one_unread d = sym (>>-skip (Report.dump_frame d 0 none))

-- Frames that cannot be read do not count: the loop goes on through all of them.
pub dump_track-unread :
    (d : Report.Device) (n : ℕ) → Report.dump_track d 0 (replicate n none) ≡ unread_frames d n
dump_track-unread d zero = unfold Report.dump_track unread_frames in refl
dump_track-unread d (suc zero) = one_unread d
dump_track-unread d (suc (suc n)) =
    unread_round d (replicate n none)
    ∙ ap (λ (w : Writer). Report.dump_frame d 0 none >> w) (dump_track-unread d (suc n))
    ∙ more
  where
    more : (Report.dump_frame d 0 none >> unread_frames d (suc n)) ≡ unread_frames d (suc (suc n))
    more = unfold unread_frames in refl

-- A method that always fails, behind another one or in front of it.
>>-fails : (f g : Writer) → ((c : CrashInfo) → g c ≡ none) → (c : CrashInfo) → (f >> g) c ≡ none
>>-fails f g h c = elim (Option-cases (f c)) [ inl e ↦ rw e refl | inr (c', e) ↦ rw e (h c') ]

fails->> : (f g : Writer) → ((c : CrashInfo) → f c ≡ none) → (c : CrashInfo) → (f >> g) c ≡ none
fails->> f g h c = rw (h c) refl

library_without_symbol :
    (d : Report.Device) (fname : List ℕ) (fbase : ℕ) (c : CrashInfo)
    → Report.dump_library d fname fbase none c ≡ none
unfolding Report.dump_library append
library_without_symbol d fname fbase = >>-fails _ _ (λ c. refl)

module _ (d : Report.Device) (info : DlInfo) (fname : List ℕ) (found : d.dladdr d.pc ≡ some info)
    (named : info.fname ≡ some fname) (unnamed : info.sname ≡ none) where
  lib_without_symbol : (c : CrashInfo) → Report.dump_crash_info_in_lib d c ≡ none
  unfolding Report.dump_crash_info_in_lib Report.dump_dl_info
  lib_without_symbol c = rw (found, named, unnamed) (library_without_symbol d fname info.fbase c)

  fill_without_symbol : (c : CrashInfo) → Report.fill d c ≡ none
  unfolding Report.fill
  fill_without_symbol = fails->> _ _ (fails->> _ _ (>>-fails _ _ lib_without_symbol))

-- If the crash lies in a library but in no function with a name, `Dump` reads a null pointer.
pub dump_without_symbol :
    (d : Report.Device) (c : CrashInfo) (info : DlInfo) (fname : List ℕ)
    → d.dladdr d.pc ≡ some info
    → info.fname ≡ some fname
    → info.sname ≡ none
    → Report.dump d c ≡ none
unfolding Report.dump
dump_without_symbol d c info fname found named unnamed =
    rw (fill_without_symbol d info fname found named unnamed c) refl
