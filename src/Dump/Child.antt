-- ===== src/Dump/Child.antt =====
-- The child: `ThreadEntry` succeeds exactly if each of its steps does, and then the pipe holds the
-- text of the report.
use native_crash2java.Base.{
  ℕ, ◌-◌, ◌≡◌, refl, true, List, [], some, arith, length, take, ◌⊎◌, inl, inr,
}
use native_crash2java.CrashInfo.Appends.{init-Logs}
use native_crash2java.Report.Text.{IsUsable, report_text}
use native_crash2java.Report.Written.{dump-report_text}
use native_crash2java.Report
use native_crash2java.Dump.{
  uninitialized, write_minidump_to_file, write_minidump_to_fd, write_microdump_to_console,
  write_microdump_just_to_java, ChildWorld, DumpMode, writer_init, write_whole_minidump, mode_dump,
  do_dump, thread_entry,
}

-- All goes well in the child: the buffer could be allocated, the threads could be stopped, and the
-- answers of the system are usable.
pub record IsReady (w : ChildWorld) (block : List ℕ) : Type 0 where
  pub blob : w.blob_size_matches ≡ true
  pub allocated : w.block ≡ some block
  pub size : length block ≡ Report.max_log_num
  pub ready : writer_init w ≡ true
  pub usable : IsUsable w.device

whole_minidump-report :
    (w : ChildWorld) (block : List ℕ)
    → IsReady w block
    → write_whole_minidump w ≡ some (true, take (Report.max_log_num - 1) (report_text w.device))
whole_minidump-report w block r =
    let (c, made, l, size) = init-Logs Report.max_log_num block (omega arith) r.size in
    let (c', run, _) = dump-report_text w.device c r.usable l in
    unfold write_whole_minidump in rw (r.blob, r.allocated, made, r.ready, run) (rw size refl)

-- If the dump that the mode asks for is written and all goes well, the child exits with status 0
-- and the pipe holds the text of the report, cut off at 10239 characters.
pub thread_entry-report :
    (mode : DumpMode) (w : ChildWorld) (block : List ℕ)
    → mode_dump mode w ≡ true
    → IsReady w block
    → thread_entry mode w ≡ some (0, take (Report.max_log_num - 1) (report_text w.device))
unfolding thread_entry
thread_entry-report mode w block h r = rw (h, whole_minidump-report w block r) refl

-- The dump of Google Breakpad that a mode asks for was written.
abbrev pub HasDump : DumpMode → ChildWorld → Type 0
HasDump write_microdump_to_console w = w.write_microdump ≡ true
HasDump write_minidump_to_fd w = w.write_minidump ≡ true
HasDump write_minidump_to_file w = w.write_minidump ≡ true
HasDump write_microdump_just_to_java w = Unit
HasDump uninitialized w = Unit

-- Every step before the report succeeded: the other dump, if the mode asks for one, the check of the
-- size of the context, and the three steps of `Init`.
pub record IsPrepared (mode : DumpMode) (w : ChildWorld) : Type 0 where
  pub dumped : HasDump mode w
  pub blob : w.blob_size_matches ≡ true
  pub dumper : w.dumper_init ≡ true
  pub suspended : w.threads_suspend ≡ true
  pub late : w.late_init ≡ true

writer_init-steps :
    (w : ChildWorld)
    → writer_init w ≡ true
    → (w.dumper_init ≡ true) × (w.threads_suspend ≡ true) × (w.late_init ≡ true)
unfolding writer_init
writer_init-steps w e = ground arith

mode_dump-HasDump : (mode : DumpMode) (w : ChildWorld) → mode_dump mode w ≡ true → HasDump mode w
unfolding mode_dump
mode_dump-HasDump uninitialized w e = tt
mode_dump-HasDump write_minidump_to_file w e = e
mode_dump-HasDump write_minidump_to_fd w e = e
mode_dump-HasDump write_microdump_to_console w e = e
mode_dump-HasDump write_microdump_just_to_java w e = tt

status-cases :
    (mode : DumpMode) (w : ChildWorld) (status : ℕ) (pipe : List ℕ)
    → thread_entry mode w ≡ some (status, pipe)
    → ((status ≡ 0)
        × (mode_dump mode w ≡ true)
        × (w.blob_size_matches ≡ true)
        × (writer_init w ≡ true))
      ⊎ ((status ≡ 1) × (pipe ≡ []))
unfolding thread_entry do_dump write_whole_minidump
status-cases mode w status pipe e = ground arith

-- A child that exits does so with status 0 or 1. Status 1 leaves the pipe empty. Status 0 means that the
-- dump was written that the mode asks for, if any, that the context has the expected size, and that
-- the dumper was set up, the threads were stopped and the late set-up succeeded.
pub thread_entry-status :
    (mode : DumpMode) (w : ChildWorld) (status : ℕ) (pipe : List ℕ)
    → thread_entry mode w ≡ some (status, pipe)
    → ((status ≡ 0) × IsPrepared mode w) ⊎ ((status ≡ 1) × (pipe ≡ []))
thread_entry-status mode w status pipe e = elim (status-cases mode w status pipe e) [
  | inr failed ↦ inr failed
  | inl (exited, dumped, sized, ready) ↦
      let (dumper, suspended, late) = writer_init-steps w ready in
      inl (
        exited,
        record {
          dumped = mode_dump-HasDump mode w dumped;
          blob = sized;
          dumper = dumper;
          suspended = suspended;
          late = late;
        },
      )
]
