-- ===== src/Bridge/Invariant.antt =====
-- What holds in every reachable state of the two threads.
use native_crash2java.Base.{
  ℕ, suc, ◌+◌, ◌≡◌, refl, Bool, true, false, List, [], Option, some, arith, subst, sym,
}
use native_crash2java.Bridge.{
  CrashRecord, JavaCall, InfoPointer, null, live, deleted, notify_2_java, CrashPc, running, filled,
  waiting, returned, CallbackPc, started, listening, awake, notified, posted, ended, failed, System,
  start, add_call, Step, fill, post_cat, wait_done, present, attach, attach_fails, wait_cat, notify,
  post_done, delete_info, Reach, here, next,
}

-- Units of the first semaphore that the crashing thread put in and the callback thread took out.
abbrev pub posts_cat : CrashPc → ℕ
posts_cat running = 0
posts_cat filled = 0
posts_cat waiting = 1
posts_cat returned = 1

abbrev pub takes_cat : CallbackPc → ℕ
takes_cat started = 0
takes_cat listening = 0
takes_cat failed = 0
takes_cat awake = 1
takes_cat notified = 1
takes_cat posted = 1
takes_cat ended = 1

abbrev pub takes_done : CrashPc → ℕ
takes_done returned = 1
takes_done pc = 0

abbrev pub posts_done : CallbackPc → ℕ
posts_done posted = 1
posts_done ended = 1
posts_done pc = 0

-- What `onCrash` was called with before the callback thread stands here.
abbrev pub CallsAt : Bool → CrashRecord → CallbackPc → List JavaCall → Type 0
CallsAt has_method r started calls = calls ≡ []
CallsAt has_method r listening calls = calls ≡ []
CallsAt has_method r failed calls = calls ≡ []
CallsAt has_method r awake calls = calls ≡ []
CallsAt has_method r pc calls =
    (call : Option JavaCall) × (notify_2_java has_method (live r) ≡ some call)
    × (calls ≡ add_call call [])

-- The record of the crash is there from `DumpCallback` on until it is deleted.
abbrev pub InfoAt : CrashRecord → CrashPc → CallbackPc → InfoPointer → Type 0
InfoAt r running cb info = info ≡ null
InfoAt r pc ended info = info ≡ deleted
InfoAt r pc cb info = info ≡ live r

pub record Inv (has_method : Bool) (r : CrashRecord) (s : System) : Type 0 where
  pub cat : s.cat_java_crash + takes_cat s.callback_pc ≡ posts_cat s.crash_pc
  pub done : s.done + takes_done s.crash_pc ≡ posts_done s.callback_pc
  pub info : InfoAt r s.crash_pc s.callback_pc s.g_crash_info
  pub calls : CallsAt has_method r s.callback_pc s.calls

start-Inv : (has_method : Bool) (r : CrashRecord) → Inv has_method r start
start-Inv has_method r = record { cat = refl; done = refl; info = refl; calls = refl }

module _ (has_method : Bool) (r : CrashRecord) (s t : System) (inv : Inv has_method r s) where
  fill-Inv :
      s.crash_pc ≡ running
      → t ≡ record s { crash_pc = filled; g_crash_info = live r }
      → Inv has_method r t
  fill-Inv p e = ground arith

  post_cat-Inv :
      s.crash_pc ≡ filled
      → t ≡ record s { crash_pc = waiting; cat_java_crash = suc s.cat_java_crash }
      → Inv has_method r t
  post_cat-Inv p e = ground arith

  wait_done-Inv :
      (n : ℕ)
      → s.crash_pc ≡ waiting
      → s.done ≡ suc n
      → t ≡ record s { crash_pc = returned; done = n }
      → Inv has_method r t
  wait_done-Inv n p q e = ground arith

  present-Inv :
      s.callback_pc ≡ started → t ≡ record s { callback_pc = listening } → Inv has_method r t
  present-Inv p e = ground arith

  attach-Inv :
      s.callback_pc ≡ started
      → t ≡ record s { callback_pc = listening; attached = true }
      → Inv has_method r t
  attach-Inv p e = ground arith

  attach_fails-Inv :
      s.callback_pc ≡ started → t ≡ record s { callback_pc = failed } → Inv has_method r t
  attach_fails-Inv p e = ground arith

  wait_cat-Inv :
      (n : ℕ)
      → s.callback_pc ≡ listening
      → s.cat_java_crash ≡ suc n
      → t ≡ record s { callback_pc = awake; cat_java_crash = n }
      → Inv has_method r t
  wait_cat-Inv n p q e = ground arith

  pub awake-live : s.callback_pc ≡ awake → s.g_crash_info ≡ live r
  awake-live p = ground arith

  notify-Inv :
      (call : Option JavaCall)
      → s.callback_pc ≡ awake
      → notify_2_java has_method s.g_crash_info ≡ some call
      → t ≡ record s { callback_pc = notified; attached = false; calls = add_call call s.calls }
      → Inv has_method r t
  notify-Inv call p q e =
      let told : notify_2_java has_method (live r) ≡ some call =
        subst (λ g. notify_2_java has_method g ≡ some call) (awake-live p) q in
      let calls_equal : add_call call s.calls ≡ add_call call [] = ground arith in
      let after : Inv has_method r
          (record s { callback_pc = notified; attached = false; calls = add_call call s.calls }) =
        record {
          cat = ground arith;
          done = ground arith;
          info = ground arith;
          calls = (call, told, calls_equal);
        } in
      subst (Inv has_method r) (sym e) after

  post_done-Inv :
      s.callback_pc ≡ notified
      → t ≡ record s { callback_pc = posted; done = suc s.done }
      → Inv has_method r t
  post_done-Inv p e = ground arith

  delete_info-Inv :
      s.callback_pc ≡ posted
      → t ≡ record s { callback_pc = ended; g_crash_info = deleted }
      → Inv has_method r t
  delete_info-Inv p e = ground arith

Step-Inv :
    (has_method : Bool) (r : CrashRecord) {s t : System}
    → Inv has_method r s
    → Step has_method r s t
    → Inv has_method r t
Step-Inv has_method r {s} {t} inv (fill p e) = fill-Inv has_method r s t inv p e
Step-Inv has_method r {s} {t} inv (post_cat p e) = post_cat-Inv has_method r s t inv p e
Step-Inv has_method r {s} {t} inv (wait_done n p q e) = wait_done-Inv has_method r s t inv n p q e
Step-Inv has_method r {s} {t} inv (present p e) = present-Inv has_method r s t inv p e
Step-Inv has_method r {s} {t} inv (attach p e) = attach-Inv has_method r s t inv p e
Step-Inv has_method r {s} {t} inv (attach_fails p e) = attach_fails-Inv has_method r s t inv p e
Step-Inv has_method r {s} {t} inv (wait_cat n p q e) = wait_cat-Inv has_method r s t inv n p q e
Step-Inv has_method r {s} {t} inv (notify call p q e) = notify-Inv has_method r s t inv call p q e
Step-Inv has_method r {s} {t} inv (post_done p e) = post_done-Inv has_method r s t inv p e
Step-Inv has_method r {s} {t} inv (delete_info p e) = delete_info-Inv has_method r s t inv p e

-- In every state that the two threads can reach, the semaphores count the posts that no wait has
-- taken, the record of the crash stands where the threads say, and `onCrash` was called at most once.
pub Reach-Inv :
    (has_method : Bool) (r : CrashRecord) {s : System} → Reach has_method r s → Inv has_method r s
Reach-Inv has_method r here = start-Inv has_method r
Reach-Inv has_method r (next reached step) =
    Step-Inv has_method r (Reach-Inv has_method r reached) step
