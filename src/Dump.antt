-- ===== src/Dump.antt =====
-- The dumping half of client/linux/handler/exception_handler.cc, with `WriteWholeMinidump` of
-- client/linux/minidump_whole_writer/minidump_whole_track_writer.cc: the crashing process clones a
-- child, the child writes the report into a pipe, and the parent hands it to the callback.
pub mod Child
pub mod Descriptors
pub mod Delivery
mod Runs
use native_crash2java.Base.{
  ℕ, zero, suc, ◌+◌, ◌*◌, Bool, true, false, ◌&&◌, not, List, [], ◌∷◌, ◌++◌, Option, none, some,
  length, take, drop, replicate, ◌>>=◌, if◌then◌else◌, ◌==◌,
}
use native_crash2java.Base.Codes.{codes}
use native_crash2java.Libc.Text.{c_string}
use native_crash2java.CrashInfo.{CrashInfo, init}
use native_crash2java.Split.{split_char}
use native_crash2java.Report

-- `DumpMode` of client/linux/handler/minidump_descriptor.h.
pub data DumpMode : Type 0 where
  uninitialized write_minidump_to_file write_minidump_to_fd : DumpMode
  write_microdump_to_console write_microdump_just_to_java : DumpMode

-- What the child finds: the answers of the writers of other dumps, of the allocator and of the
-- three steps of `MinidumpWholeWriter::Init`.
pub record ChildWorld : Type 0 where
  pub write_microdump : Bool
  pub write_minidump : Bool
  pub blob_size_matches : Bool
  pub block : Option (List ℕ)
  pub dumper_init : Bool
  pub threads_suspend : Bool
  pub late_init : Bool
  pub device : Report.Device

-- `MinidumpWholeWriter::Init`
unfoldable pub writer_init : ChildWorld → Bool
writer_init w = if not w.dumper_init then false else w.threads_suspend && w.late_init

-- The result and what went into the pipe; `none` is a crash of the child.
unfoldable pub write_whole_minidump : ChildWorld → Option (Bool × List ℕ)
unfolding writer_init
write_whole_minidump w =
    if not w.blob_size_matches
    then some (false, [])
    else (init Report.max_log_num w.block >>= λ c.
        if not (writer_init w)
        then some (false, [])
        else (Report.dump w.device c >>= λ r. some (true, r.0)))

-- The dump that the mode asks for; the other modes write none.
unfoldable pub mode_dump : DumpMode → ChildWorld → Bool
mode_dump write_microdump_to_console w = w.write_microdump
mode_dump write_minidump_to_fd w = w.write_minidump
mode_dump write_minidump_to_file w = w.write_minidump
mode_dump mode w = true

unfoldable pub do_dump : DumpMode → ChildWorld → Option (Bool × List ℕ)
unfolding mode_dump write_whole_minidump
do_dump mode w = if mode_dump mode w then write_whole_minidump w else some (false, [])

-- `ThreadEntry`: the exit status of the child is 0 if the dump was made.
unfoldable pub thread_entry : DumpMode → ChildWorld → Option (ℕ × List ℕ)
unfolding do_dump
thread_entry mode w = do_dump mode w >>= λ r. some (if r.0 then 0 else 1, r.1)

-- A callback of the type `MinidumpWholeCallback`, as a function of the two texts.
abbrev pub WholeCallback : Type 0
WholeCallback = List ℕ → List ℕ → Bool

-- What the callback was called with, and its answer. What `strtok` and `read` leave in the static
-- buffer `log` is not kept: the argument `log` is what the buffer holds before.
pub record Delivered : Type 0 where
  pub success : Bool
  pub called : Option (List ℕ × List ℕ)

-- `char *log[MAX_LOG_NUM_]` is static, and holds that many pointers.
abbrev pub log_size : ℕ
log_size = Report.max_log_num * 8

-- `read(log_descriptors[0], log, MAX_LOG_NUM_)` on a pipe whose writers have closed it.
unfoldable pub read_log : List ℕ → List ℕ → List ℕ
read_log pipe log = take Report.max_log_num pipe ++ drop (length (take Report.max_log_num pipe)) log

abbrev pub error_text : List ℕ
error_text = codes "get native crash info error"

-- The arguments of the callback.
unfoldable pub callback_arguments : List (List ℕ) → List ℕ × List ℕ
callback_arguments (a ∷ b ∷ []) = (a, b)
callback_arguments res = (error_text, error_text)

-- `none` is a read past the end of `log`.
unfoldable pub dump_2_java : Option WholeCallback → List ℕ → List ℕ → Bool → Option Delivered
unfolding read_log callback_arguments
dump_2_java none pipe log succeeded = some (record { success = succeeded; called = none })
dump_2_java (some callback) pipe log succeeded = c_string (read_log pipe log) >>= λ text.
    split_char (some text) b'^' >>= λ res.
    let (reason, track) = callback_arguments res in
    some (record {
      success = succeeded && callback reason track;
      called = if succeeded then some (reason, track) else none;
    })

-- Which ends of the two pipes are open in the parent.
pub record Pipes : Type 0 where
  pub fdes_read : Bool
  pub fdes_write : Bool
  pub log_read : Bool
  pub log_write : Bool

-- What the parent finds. `wait_ok` is `r != -1`. Where the second `sys_pipe` fails, the code goes on
-- with the descriptors of an earlier dump or with {0, 0}: `stale` is what a read of them gives.
pub record ParentWorld : Type 0 where
  pub out_of_process : Bool
  pub request_dump : Bool
  pub stack_allocated : Bool
  pub pipe_ok : Bool
  pub log_pipe_ok : Bool
  pub clone_ok : Bool
  pub wait_ok : Bool
  pub stale : List ℕ

abbrev pub no_pipes : Pipes
no_pipes = record { fdes_read = false; fdes_write = false; log_read = false; log_write = false }

pub record Outcome : Type 0 where
  pub result : Bool
  pub delivered : Option (List ℕ × List ℕ)
  pub pipes : Pipes

-- `sys_pipe` opens both ends or none. The ends are those of the pipes that this call opened: which other
-- file a close of stale descriptors hits is not modelled.
unfoldable pub open_pipes : ParentWorld → Pipes
open_pipes w = record {
  fdes_read = w.pipe_ok;
  fdes_write = w.pipe_ok;
  log_read = w.log_pipe_ok;
  log_write = w.log_pipe_ok;
}

-- `r != -1 && WIFEXITED(status) && WEXITSTATUS(status) == 0`; a child that crashed did not exit.
unfoldable pub child_success : ParentWorld → Option (ℕ × List ℕ) → Bool
child_success w none = false
child_success w (some (status, pipe)) = w.wait_ok && (status == 0)

-- What `read` finds behind `log_descriptors`.
unfoldable pub pipe_of : ParentWorld → Option (ℕ × List ℕ) → List ℕ
pipe_of w none = if w.log_pipe_ok then [] else w.stale
pipe_of w (some (status, pipe)) = if w.log_pipe_ok then pipe else w.stale

-- From `waitpid` on: `callback_` is the plain callback.
unfoldable pub finish_dump :
    Option WholeCallback
    → Option (Bool → Bool)
    → ParentWorld
    → Pipes
    → Option (ℕ × List ℕ)
    → List ℕ
    → Option Outcome
unfolding child_success pipe_of dump_2_java
finish_dump whole callback w pipes child log =
    (if child_success w child
      then dump_2_java whole (pipe_of w child) log true
      else some (record { success = false; called = none }))
    >>= λ d. some (record {
      result = elim callback [ none ↦ d.success | some f ↦ d.success && f d.success ];
      delivered = d.called;
      pipes = record pipes { fdes_write = false; log_read = false };
    })

-- `GenerateDump`, with the child that `sys_clone` starts.
unfoldable pub generate_dump :
    Option WholeCallback
    → Option (Bool → Bool)
    → ParentWorld
    → Option (ℕ × List ℕ)
    → List ℕ
    → Option Outcome
unfolding open_pipes finish_dump
generate_dump whole callback w child log =
    if w.out_of_process
    then some (record { result = w.request_dump; delivered = none; pipes = no_pipes })
    else if not w.stack_allocated
    then some (record { result = false; delivered = none; pipes = no_pipes })
    else if not w.clone_ok
    then some (record {
      result = false;
      delivered = none;
      pipes = record (open_pipes w) { fdes_read = false; fdes_write = false };
    })
    else finish_dump whole callback w
        (record (open_pipes w) { log_write = false; fdes_read = false }) child log
