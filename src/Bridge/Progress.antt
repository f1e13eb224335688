-- ===== src/Bridge/Progress.antt =====
-- What the invariant gives: the hand-over to Java is complete, finishes, and hangs where attaching failed.
use native_crash2java.Base.{
  ℕ, ◌+◌, ◌<◌, ◌≡◌, refl, ◌≢◌, ◌⊎◌, inl, inr, Bool, true, List, [], ◌∷◌, Option, some, arith,
  subst⁻¹,
}
use native_crash2java.Base.Codes.{codes}
use native_crash2java.Bridge.{
  CrashRecord, JavaCall, or_text, live, notify_2_java, CrashPc, running, filled, waiting, returned,
  CallbackPc, started, listening, awake, notified, posted, ended, failed, System, Step, fill,
  post_cat, wait_done, present, attach, attach_fails, wait_cat, notify, post_done, delete_info,
  Reach,
}
use native_crash2java.Bridge.Invariant.{Inv, Reach-Inv, awake-live, CallsAt}

-- The call of `onCrash` that a crash is to end in.
abbrev pub on_crash : CrashRecord → JavaCall
on_crash r = record {
  path = or_text r.path (codes "not dump path");
  info = or_text r.crash_info (codes "get crash info error");
  track = or_text r.crash_thread_track (codes "get crash thread track error");
  thread_name = r.crash_thread_name;
}

calls-notified :
    (r : CrashRecord) (calls : List JavaCall)
    → CallsAt true r notified calls
    → calls ≡ on_crash r ∷ []
unfolding notify_2_java
calls-notified r calls (call, told, e) = ground arith

-- If the method `onCrash` was found, then when the crashing thread is released from `DumpCallback`, it has been called
-- exactly once, with what the crash came with, and every field that was null replaced by its text.
pub returned-on_crash :
    (r : CrashRecord) (s : System)
    → Reach true r s
    → s.crash_pc ≡ returned
    → s.calls ≡ on_crash r ∷ []
returned-on_crash r s reached p =
    let inv : Inv true r s = Reach-Inv true r reached in
    let told : CallsAt true r notified s.calls = ground arith in calls-notified r s.calls told

live-notify :
    (has_method : Bool) (r : CrashRecord)
    → (call : Option JavaCall) × (notify_2_java has_method (live r) ≡ some call)
unfolding notify_2_java
live-notify has_method r = (_, refl)

-- Where Java is told, the record of the crash is alive: `notify2Java` reads no null and no deleted record.
pub awake-notify :
    (has_method : Bool) (r : CrashRecord) (s : System)
    → Reach has_method r s
    → s.callback_pc ≡ awake
    → (call : Option JavaCall) × (notify_2_java has_method s.g_crash_info ≡ some call)
awake-notify has_method r s reached p =
    let (call, told) = live-notify has_method r in
    let there : s.g_crash_info ≡ live r =
      awake-live has_method r s s (Reach-Inv has_method r reached) p in
    (call, subst⁻¹ (λ g. notify_2_java has_method g ≡ some call) there told)

abbrev pub crash_steps : CrashPc → ℕ
crash_steps running = 3
crash_steps filled = 2
crash_steps waiting = 1
crash_steps returned = 0

abbrev pub callback_steps : CallbackPc → ℕ
callback_steps started = 5
callback_steps listening = 4
callback_steps awake = 3
callback_steps notified = 2
callback_steps posted = 1
callback_steps ended = 0
callback_steps failed = 0

-- How many steps the two threads have left at most.
abbrev pub remaining : System → ℕ
remaining s = crash_steps s.crash_pc + callback_steps s.callback_pc

-- Every step of either thread leaves fewer of the eight steps that `start` has at most.
pub Step-remaining :
    (has_method : Bool) (r : CrashRecord) (s t : System)
    → Step has_method r s t
    → remaining t < remaining s
Step-remaining has_method r s t (fill p e) = ground arith
Step-remaining has_method r s t (post_cat p e) = ground arith
Step-remaining has_method r s t (wait_done n p q e) = ground arith
Step-remaining has_method r s t (present p e) = ground arith
Step-remaining has_method r s t (attach p e) = ground arith
Step-remaining has_method r s t (attach_fails p e) = ground arith
Step-remaining has_method r s t (wait_cat n p q e) = ground arith
Step-remaining has_method r s t (notify call p q e) = ground arith
Step-remaining has_method r s t (post_done p e) = ground arith
Step-remaining has_method r s t (delete_info p e) = ground arith

-- A thread that failed to attach is gone for good.
failed-stays :
    (has_method : Bool) (r : CrashRecord) (s t : System)
    → Step has_method r s t
    → s.callback_pc ≡ failed
    → t.callback_pc ≡ failed
failed-stays has_method r s t (fill p e) f = ground arith
failed-stays has_method r s t (post_cat p e) f = ground arith
failed-stays has_method r s t (wait_done n p q e) f = ground arith
failed-stays has_method r s t (present p e) f = ground arith
failed-stays has_method r s t (attach p e) f = ground arith
failed-stays has_method r s t (attach_fails p e) f = ground arith
failed-stays has_method r s t (wait_cat n p q e) f = ground arith
failed-stays has_method r s t (notify call p q e) f = ground arith
failed-stays has_method r s t (post_done p e) f = ground arith
failed-stays has_method r s t (delete_info p e) f = ground arith

-- Where attaching the callback thread failed, `onCrash` has not been called, the crashing thread has
-- not returned from `DumpCallback`, and no step of any thread changes that the callback thread is gone.
pub failed-hangs :
    (has_method : Bool) (r : CrashRecord) (s : System)
    → Reach has_method r s
    → s.callback_pc ≡ failed
    → (s.calls ≡ [])
      × (s.crash_pc ≢ returned)
      × ((t : System) → Step has_method r s t → t.callback_pc ≡ failed)
failed-hangs has_method r s reached f =
    let inv : Inv has_method r s = Reach-Inv has_method r reached in
    (ground arith, ground arith, λ t step. failed-stays has_method r s t step f)

-- Both threads are at their end.
abbrev pub IsFinished : System → Type 0
IsFinished s = (s.crash_pc ≡ returned) × (s.callback_pc ≡ ended)

module _ (has_method : Bool) (r : CrashRecord) (s : System) (reached : Reach has_method r s) where
  -- A step that does not fail to attach.
  abbrev Onward : Type 0
  Onward = (t : System) × Step has_method r s t × (t.callback_pc ≢ failed)

  callback-step :
      (cb : CallbackPc)
      → s.callback_pc ≡ cb
      → s.crash_pc ≢ running
      → s.crash_pc ≢ filled
      → cb ≢ failed
      → (cb ≡ ended) ⊎ Onward
  callback-step started p nr nf alive = inr (_, attach p refl, λ f. cc)
  callback-step listening p nr nf alive =
      let inv : Inv has_method r s = Reach-Inv has_method r reached in
      inr (_, wait_cat 0 p (ground arith) refl, λ f. cc)
  callback-step awake p nr nf alive =
      let (call, told) = awake-notify has_method r s reached p in
      inr (_, notify call p told refl, λ f. cc)
  callback-step notified p nr nf alive = inr (_, post_done p refl, λ f. cc)
  callback-step posted p nr nf alive = inr (_, delete_info p refl, λ f. cc)
  callback-step ended p nr nf alive = inl refl
  callback-step failed p nr nf alive = absurd (alive refl)

  pub step-from : (pc : CrashPc) → s.crash_pc ≡ pc → s.callback_pc ≢ failed → IsFinished s ⊎ Onward
  step-from running p alive = inr (_, fill p refl, alive)
  step-from filled p alive = inr (_, post_cat p refl, alive)
  step-from waiting p alive =
      elim (callback-step s.callback_pc refl (ground arith) (ground arith) alive) [
        | inl q ↦
            let inv : Inv has_method r s = Reach-Inv has_method r reached in
            inr (_, wait_done 0 p (ground arith) refl, alive)
        | inr step ↦ inr step
      ]
  step-from returned p alive =
      elim (callback-step s.callback_pc refl (ground arith) (ground arith) alive) [
        | inl q ↦ inl (p, q)
        | inr step ↦ inr step
      ]

-- There is no deadlock: unless attaching failed, a reachable state has a step or both threads are at
-- their end.
pub Reach-step :
    (has_method : Bool) (r : CrashRecord) (s : System)
    → Reach has_method r s
    → s.callback_pc ≢ failed
    → IsFinished s ⊎ ((t : System) × Step has_method r s t)
Reach-step has_method r s reached alive =
    elim (step-from has_method r s reached s.crash_pc refl alive) [
      | inl finished ↦ inl finished
      | inr (t, step, onward) ↦ inr (t, step)
    ]

-- If the method `onCrash` was found, then where the two threads have come to rest and attaching did not
-- fail, both are at their end, the crashing thread has been
-- released and `onCrash` has been called exactly once, with what belongs to this crash.
pub stuck-on_crash :
    (r : CrashRecord) (s : System)
    → Reach true r s
    → s.callback_pc ≢ failed
    → ((t : System) → ¬ Step true r s t)
    → IsFinished s × (s.calls ≡ on_crash r ∷ [])
stuck-on_crash r s reached alive stuck = elim (Reach-step true r s reached alive) [
  | inl (p, q) ↦ ((p, q), returned-on_crash r s reached p)
  | inr (t, step) ↦ absurd (stuck t step)
]
