-- ===== src/Bridge.antt =====
-- breakpad.cpp: the crashing thread and the callback thread, which hand a crash over to Java by two
-- semaphores. A step is the code of one thread between two synchronisations.
pub mod Invariant
pub mod Progress
pub mod Finish
mod Runs
use native_crash2java.Base.{
  ℕ, zero, suc, ◌+◌, ◌≡◌, Bool, true, false, List, [], ◌∷◌, Option, none, some, if◌then◌else◌,
}
use native_crash2java.Base.Codes.{codes}

-- The class `CrashInfo` of breakpad.cpp; a null field is `none`.
pub record CrashRecord : Type 0 where
  pub crash_info : Option (List ℕ)
  pub path : Option (List ℕ)
  pub crash_thread_name : List ℕ
  pub crash_thread_track : Option (List ℕ)

-- The four arguments of `onCrash`.
pub record JavaCall : Type 0 where
  pub path : List ℕ
  pub info : List ℕ
  pub track : List ℕ
  pub thread_name : List ℕ

pub or_text : Option (List ℕ) → List ℕ → List ℕ
or_text none error = error
or_text (some text) error = text

-- The global pointer `g_crash_info`: `delete` does not set it to null.
pub data InfoPointer : Type 0 where
  null deleted : InfoPointer
  live : CrashRecord → InfoPointer

-- `notify2Java`. The name is read through `g_crash_info` before that is tested for null: the outer
-- `none` is this fault, or the one of a deleted record. The inner one: there is no method to call.
unfoldable pub notify_2_java : Bool → InfoPointer → Option (Option JavaCall)
unfolding or_text
notify_2_java has_method null = none
notify_2_java has_method deleted = none
notify_2_java has_method (live r) = some (
    if has_method
    then some (record {
      path = or_text r.path (codes "not dump path");
      info = or_text r.crash_info (codes "get crash info error");
      track = or_text r.crash_thread_track (codes "get crash thread track error");
      thread_name = r.crash_thread_name;
    })
    else none)

-- Where the crashing thread stands in `DumpCallback`.
pub data CrashPc : Type 0 where
  running filled waiting returned : CrashPc

-- Where the callback thread stands in `CallBackThreadHandler`.
pub data CallbackPc : Type 0 where
  started listening awake notified posted ended : CallbackPc
  failed : CallbackPc

-- `calls` are the calls of `onCrash`, newest first; `attached` is `needAttach` until the thread is detached.
pub record System : Type 0 where
  pub crash_pc : CrashPc
  pub callback_pc : CallbackPc
  pub cat_java_crash : ℕ
  pub done : ℕ
  pub g_crash_info : InfoPointer
  pub attached : Bool
  pub calls : List JavaCall

abbrev pub start : System
start = record {
  crash_pc = running;
  callback_pc = started;
  cat_java_crash = 0;
  done = 0;
  g_crash_info = null;
  attached = false;
  calls = [];
}

abbrev pub add_call : Option JavaCall → List JavaCall → List JavaCall
add_call none calls = calls
add_call (some call) calls = call ∷ calls

-- `has_method`: `initCallbackObject` found `onCrash`. `r` is what `DumpCallback` was called with.
pub data Step (has_method : Bool) (r : CrashRecord) (s t : System) : Type 0 where
  -- `DumpCallback` up to `sem_post`
  fill :
      s.crash_pc ≡ running
      → t ≡ record s { crash_pc = filled; g_crash_info = live r }
      → Step has_method r s t
  post_cat :
      s.crash_pc ≡ filled
      → t ≡ record s { crash_pc = waiting; cat_java_crash = suc s.cat_java_crash }
      → Step has_method r s t
  -- `sem_wait(&g_done_semaphore)`
  wait_done :
      (n : ℕ)
      → s.crash_pc ≡ waiting
      → s.done ≡ suc n
      → t ≡ record s { crash_pc = returned; done = n }
      → Step has_method r s t
  -- `GetEnv` says that the thread is attached, or `AttachCurrentThread` succeeds or fails.
  present :
      s.callback_pc ≡ started → t ≡ record s { callback_pc = listening } → Step has_method r s t
  attach :
      s.callback_pc ≡ started
      → t ≡ record s { callback_pc = listening; attached = true }
      → Step has_method r s t
  attach_fails :
      s.callback_pc ≡ started → t ≡ record s { callback_pc = failed } → Step has_method r s t
  -- `sem_wait(&g_cat_java_crash_semaphore)`
  wait_cat :
      (n : ℕ)
      → s.callback_pc ≡ listening
      → s.cat_java_crash ≡ suc n
      → t ≡ record s { callback_pc = awake; cat_java_crash = n }
      → Step has_method r s t
  -- `notify2Java` and `DetachCurrentThread`
  notify :
      (call : Option JavaCall)
      → s.callback_pc ≡ awake
      → notify_2_java has_method s.g_crash_info ≡ some call
      → t ≡ record s { callback_pc = notified; attached = false; calls = add_call call s.calls }
      → Step has_method r s t
  post_done :
      s.callback_pc ≡ notified
      → t ≡ record s { callback_pc = posted; done = suc s.done }
      → Step has_method r s t
  -- `delete g_crash_info`
  delete_info :
      s.callback_pc ≡ posted
      → t ≡ record s { callback_pc = ended; g_crash_info = deleted }
      → Step has_method r s t

pub data Reach (has_method : Bool) (r : CrashRecord) : System → Type 0 where
  here : Reach has_method r start
  next : {s t : System} → Reach has_method r s → Step has_method r s t → Reach has_method r t
