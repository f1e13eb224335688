-- ===== src/Dump/Delivery.antt =====
-- From the report to the callback.
use native_crash2java.Base.{
  ℕ, zero, suc, ◌-◌, ◌≤◌, ◌<◌, ◌≡◌, refl, ◌≢◌, true, false, List, [], ◌∷◌, ◌++◌, none, some, arith,
  length, take, drop, replicate, ap, ◌∙◌, take-of_le, All, append_assoc,
}
use native_crash2java.Base.Codes.{codes}
use native_crash2java.Libc.Text.{IsText, c_string}
use native_crash2java.Libc.Text.Search.{c_string-append}
use native_crash2java.Split.{split_char}
use native_crash2java.Split.Tokens.{IsOther, split_char-two}
use native_crash2java.Report.Text.{report_text, info_text, thread_text}
use native_crash2java.Report.Written.{report_text-IsText}
use native_crash2java.Report
use native_crash2java.Dump.Child.{IsReady, thread_entry-report}
use native_crash2java.Dump.{
  ChildWorld, ParentWorld, DumpMode, WholeCallback, Delivered, Outcome, mode_dump, thread_entry,
  read_log, callback_arguments, dump_2_java, error_text, generate_dump, finish_dump, child_success,
  pipe_of,
}

drop-replicate : (k n : ℕ) → k < n → drop k (replicate {A = ℕ} n 0) ≡ 0 ∷ replicate (n - k - 1) 0
drop-replicate zero zero h = absurd (omega arith)
drop-replicate zero (suc n) h = ap (λ m. 0 ∷ replicate m 0) (omega arith)
drop-replicate (suc k) zero h = absurd (omega arith)
drop-replicate (suc k) (suc n) h =
    drop-replicate k n (omega arith) ∙ ap (λ m. 0 ∷ replicate m 0) (omega arith)

-- A text that fits is read whole, and the zeros of the static buffer end it.
read_log-c_string :
    (t : List ℕ) (n : ℕ)
    → All IsText t
    → length t ≤ Report.max_log_num
    → length t < n
    → c_string (read_log t (replicate n 0)) ≡ some t
unfolding read_log
read_log-c_string t n h fits room =
    let whole : take Report.max_log_num t ≡ t = take-of_le Report.max_log_num t fits in
    rw (whole, drop-replicate (length t) n room)
      (c_string-append t (replicate (n - length t - 1) 0) h)

report-halves : (d : Report.Device) → report_text d ≡ info_text d ++ b'^' ∷ thread_text d
unfolding report_text
report-halves d = append_assoc (info_text d) (codes "^") (thread_text d)

info-ne-nil : (d : Report.Device) → info_text d ≢ []
unfolding info_text
info-ne-nil d e = cc

thread-ne-nil : (d : Report.Device) → thread_text d ≢ []
unfolding thread_text
thread-ne-nil d e = cc

-- Neither half of the report contains the delimiter, and the report fits the buffer with its
-- terminator.
pub record IsSplittable (d : Report.Device) : Type 0 where
  pub info_other : All (IsOther b'^') (info_text d)
  pub thread_other : All (IsOther b'^') (thread_text d)
  pub fits : length (report_text d) < Report.max_log_num

split-report :
    (d : Report.Device)
    → IsSplittable d
    → split_char (some (report_text d)) b'^' ≡ some (info_text d ∷ thread_text d ∷ [])
split-report d s = rw (report-halves d) (
    split_char-two b'^' (info_text d) (thread_text d) (info-ne-nil d) (thread-ne-nil d) s.info_other
      s.thread_other)

-- `dump2Java` on the text of a report in a pipe and a zeroed buffer.
dump_2_java-report :
    (callback : WholeCallback) (d : Report.Device) (n : ℕ)
    → All IsText (report_text d)
    → IsSplittable d
    → Report.max_log_num ≤ n
    → dump_2_java (some callback) (report_text d) (replicate n 0) true
      ≡ some (record {
        success = callback (info_text d) (thread_text d);
        called = some (info_text d, thread_text d);
      })
unfolding dump_2_java callback_arguments
dump_2_java-report callback d n h s room =
    rw
      (
        read_log-c_string (report_text d) n h (omega (arith, s.fits)) (omega (arith, s.fits)),
        split-report d s,
      )
      refl

-- All goes well in the parent.
pub record IsRunning (w : ParentWorld) : Type 0 where
  pub in_process : w.out_of_process ≡ false
  pub allocated : w.stack_allocated ≡ true
  pub piped : w.log_pipe_ok ≡ true
  pub cloned : w.clone_ok ≡ true
  pub waited : w.wait_ok ≡ true

generate_dump-run :
    (callback : WholeCallback) (w : ParentWorld) (t log : List ℕ) (v : Delivered)
    → IsRunning w
    → dump_2_java (some callback) t log true ≡ some v
    → (o : Outcome) × (generate_dump (some callback) none w (some (0, t)) log ≡ some o)
      × (o.delivered ≡ v.called)
      × (o.result ≡ v.success)
unfolding generate_dump finish_dump child_success pipe_of
generate_dump-run callback w t log v r e = (
  record {
    result = v.success;
    delivered = v.called;
    pipes = record { fdes_read = false; fdes_write = false; log_read = false; log_write = false };
  },
  rw (r.in_process, r.allocated, r.cloned, r.waited, r.piped, e) refl,
  refl,
  refl,
)

-- The callback is called with the two halves of the report of the crash: if all goes well in the
-- parent and in the child, the dump of the mode is written, the static buffer is still zeroed, the
-- report fits the buffer of the child and neither half contains `^`.
pub generate_dump-delivers :
    (callback : WholeCallback) (w : ParentWorld) (mode : DumpMode) (cw : ChildWorld)
    (block : List ℕ) (n : ℕ)
    → IsRunning w
    → mode_dump mode cw ≡ true
    → IsReady cw block
    → IsSplittable cw.device
    → Report.max_log_num ≤ n
    → (o : Outcome) × (generate_dump (some callback) none w (thread_entry mode cw) (replicate n 0)
        ≡ some o)
      × (o.delivered ≡ some (info_text cw.device, thread_text cw.device))
      × (o.result ≡ callback (info_text cw.device) (thread_text cw.device))
generate_dump-delivers callback w mode cw block n r h ready s room = rw child (
    generate_dump-run callback w (report_text cw.device) (replicate n 0) _ r
      (dump_2_java-report callback cw.device n (report_text-IsText cw.device ready.usable) s room))
  where
    whole : take (Report.max_log_num - 1) (report_text cw.device) ≡ report_text cw.device
    whole = take-of_le (Report.max_log_num - 1) (report_text cw.device) (omega (arith, s.fits))

    child : thread_entry mode cw ≡ some (0, report_text cw.device)
    child = rw whole at (thread_entry-report mode cw block h ready)

-- The other branch of `dump2Java`: unless the text in the buffer has two tokens, both arguments of
-- the callback are the text of an error.
pub dump_2_java-error :
    (callback : WholeCallback) (pipe log text : List ℕ) (res : List (List ℕ))
    → c_string (read_log pipe log) ≡ some text
    → split_char (some text) b'^' ≡ some res
    → length res ≢ 2
    → dump_2_java (some callback) pipe log true
      ≡ some (record {
        success = callback error_text error_text;
        called = some (error_text, error_text);
      })
unfolding dump_2_java
dump_2_java-error callback pipe log text res e split h = rw (e, split, arguments res h) refl
  where
    arguments :
        (res : List (List ℕ)) → length res ≢ 2 → callback_arguments res ≡ (error_text, error_text)
    arguments [] h = unfold callback_arguments in refl
    arguments (a ∷ []) h = unfold callback_arguments in refl
    arguments (a ∷ b ∷ []) h = absurd (h refl)
    arguments (a ∷ b ∷ c ∷ res) h = unfold callback_arguments in refl
