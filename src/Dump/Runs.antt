-- ===== src/Dump/Runs.antt =====
-- Tests and examples of a dump.
use native_crash2java.Base.{
  Option, ℕ, zero, suc, ap, ◌-◌, ◌≡◌, refl, Bool, true, false, List, [], ◌∷◌, none, some, arith,
  All, length, take, replicate, ◌⊎◌, inl, ◌&&◌, not, ◌==◌,
}
use native_crash2java.Libc.Number.{my_uint_len}
use native_crash2java.Libc.Number.Print.{digits}
use native_crash2java.CrashInfo.{decimal, two_digits, pointer_sub, hex_char}
use native_crash2java.CrashInfo.Hex.{hex_text}
use native_crash2java.Signal.{get_crash_signal_string, get_crash_signal_code_string, get_sigsegv}
use native_crash2java.Split.Tokens.{IsOther}
use native_crash2java.Report.Sample.{device, device-IsUsable}
use native_crash2java.Report.Text.{report_text, info_text, thread_text, line_text, track_text}
use native_crash2java.Report
use native_crash2java.Dump.Child.{IsReady, IsPrepared, thread_entry-report, thread_entry-status}
use native_crash2java.Dump.Delivery.{IsSplittable, IsRunning, generate_dump-delivers}
use native_crash2java.Dump.Descriptors.{
  generate_dump-closes, generate_dump-leaks, generate_dump-success,
}
use native_crash2java.Dump.{
  write_minidump_to_file, write_microdump_just_to_java, ChildWorld, ParentWorld, WholeCallback,
  Outcome, mode_dump, writer_init, thread_entry, dump_2_java, generate_dump, finish_dump,
  child_success, open_pipes, no_pipes,
}

-- Whether no character is the delimiter.
all_other : ℕ → List ℕ → Bool
all_other delim [] = true
all_other delim (c ∷ s) = not (c == delim) && all_other delim s

all_other-All : (delim : ℕ) (s : List ℕ) → all_other delim s ≡ true → All (IsOther delim) s
unfolding all_other
all_other-All delim [] h = tt
all_other-All delim (c ∷ s) h = (ground arith, all_other-All delim s (ground arith))

abbrev block : List ℕ
block = replicate Report.max_log_num 1

abbrev child : ChildWorld
child = record {
  write_microdump = true;
  write_minidump = true;
  blob_size_matches = true;
  block = some block;
  dumper_init = true;
  threads_suspend = true;
  late_init = true;
  device = device;
}

abbrev parent : ParentWorld
parent = record {
  out_of_process = false;
  request_dump = false;
  stack_allocated = true;
  pipe_ok = true;
  log_pipe_ok = true;
  clone_ok = true;
  wait_ok = true;
  stale = [];
}

abbrev no_clone : ParentWorld
no_clone = record parent { clone_ok = false }

abbrev accept : WholeCallback
accept reason track = true

info-IsOther : All (IsOther b'^') (info_text device)
info-IsOther = all_other-All b'^' (info_text device) (
    unfold info_text decimal my_uint_len digits hex_text hex_char pointer_sub
      get_crash_signal_string get_crash_signal_code_string get_sigsegv all_other in
    refl)

thread-IsOther : All (IsOther b'^') (thread_text device)
thread-IsOther = all_other-All b'^' (thread_text device) (
    unfold thread_text track_text Report.next_index line_text two_digits decimal my_uint_len digits
      hex_text hex_char pointer_sub all_other in
    refl)

length-report : length (report_text device) ≡ 424
unfolding report_text info_text thread_text track_text Report.next_index line_text two_digits
    decimal my_uint_len digits hex_text hex_char pointer_sub get_crash_signal_string
    get_crash_signal_code_string get_sigsegv
length-report = refl

device-IsSplittable : IsSplittable device
device-IsSplittable = record {
  info_other = info-IsOther;
  thread_other = thread-IsOther;
  fits = omega (arith, length-report);
}

length-block : (n : ℕ) → length (replicate {A = ℕ} n 1) ≡ n
length-block zero = refl
length-block (suc n) = ap suc (length-block n)

child-IsReady : IsReady child block
child-IsReady = record {
  blob = refl;
  allocated = refl;
  size = length-block Report.max_log_num;
  ready = unfold writer_init in refl;
  usable = device-IsUsable;
}

parent-IsRunning : IsRunning parent
parent-IsRunning = record {
  in_process = refl;
  allocated = refl;
  piped = refl;
  cloned = refl;
  waited = refl;
}

thread_entry-report_example :
    thread_entry write_microdump_just_to_java child
    ≡ some (0, take (Report.max_log_num - 1) (report_text device))
thread_entry-report_example =
    thread_entry-report write_microdump_just_to_java child block (unfold mode_dump in refl)
      child-IsReady

abbrev mismatched : ChildWorld
mismatched = record child { blob_size_matches = false }

mismatched_run : thread_entry write_minidump_to_file mismatched ≡ some (1, [])
unfolding thread_entry
mismatched_run = refl

thread_entry-status_example :
    ((◌≡◌ {A = ℕ} 1 0) × IsPrepared write_minidump_to_file mismatched)
    ⊎ ((◌≡◌ {A = ℕ} 1 1) × (◌≡◌ {A = List ℕ} [] []))
thread_entry-status_example =
    thread_entry-status write_minidump_to_file mismatched 1 [] mismatched_run

generate_dump-delivers_example :
    (o : Outcome) × (generate_dump
        (some accept)
        none
        parent
        (thread_entry write_microdump_just_to_java child)
        (replicate 81920 0)
      ≡ some o)
    × (o.delivered ≡ some (info_text device, thread_text device))
    × (o.result ≡ true)
generate_dump-delivers_example =
    generate_dump-delivers accept parent write_microdump_just_to_java child block 81920
      parent-IsRunning (unfold mode_dump in refl) child-IsReady device-IsSplittable (omega arith)

abbrev log : List ℕ
log = replicate 8 0

abbrev silent : Outcome
silent = record { result = false; delivered = none; pipes = no_pipes }

silent_run : generate_dump (some accept) none parent none [] ≡ some silent
unfolding generate_dump finish_dump child_success open_pipes
silent_run = refl

generate_dump-closes_example : silent.pipes ≡ no_pipes
generate_dump-closes_example =
    generate_dump-closes (some accept) none parent none [] silent refl silent_run

generate_dump-leaks_example :
    (o : Outcome) × (generate_dump (some accept) none no_clone none [] ≡ some o)
    × (o.pipes.log_read ≡ true)
    × (o.pipes.log_write ≡ true)
    × (o.result ≡ false)
generate_dump-leaks_example =
    generate_dump-leaks (some accept) none no_clone none [] refl refl refl refl

abbrev plain : Outcome
plain = record { result = true; delivered = none; pipes = no_pipes }

-- Without the callback for two texts, only the exit status counts.
plain_run : generate_dump none none parent (some (0, [])) [] ≡ some plain
unfolding generate_dump finish_dump child_success open_pipes dump_2_java
plain_run = refl

generate_dump-success_example :
    (parent.clone_ok ≡ true)
    × (parent.wait_ok ≡ true)
    × ((pipe : List ℕ) × (◌≡◌ {A = Option (ℕ × List ℕ)} (some (0, [])) (some (0, pipe))))
generate_dump-success_example =
    generate_dump-success none none parent (some (0, [])) [] plain refl plain_run (inl refl)
