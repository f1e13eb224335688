-- ===== src/Bridge/Runs.antt =====
-- Tests and examples of the hand-over to Java.
use native_crash2java.Base.{◌≡◌, refl, ◌≢◌, true, false, [], ◌∷◌, none, some, arith, ◌⊎◌, ℕ, ◌≤◌}
use native_crash2java.Base.Codes.{codes}
use native_crash2java.Bridge.{
  CrashRecord, null, live, deleted, notify_2_java, filled, waiting, returned, listening, awake,
  notified, posted, ended, failed, System, start, Step, fill, post_cat, wait_done, present, attach,
  attach_fails, wait_cat, notify, post_done, delete_info, Reach, here, next,
}
use native_crash2java.Bridge.Invariant.{Inv, Reach-Inv}
use native_crash2java.Bridge.Finish.{Steps, Reach-finish}
use native_crash2java.Bridge.Progress.{
  on_crash, failed-hangs, IsFinished, Reach-step, stuck-on_crash,
}

abbrev crash : CrashRecord
crash = record {
  crash_info = some (codes "SIGSEGV");
  path = none;
  crash_thread_name = codes "main";
  crash_thread_track = some (codes "#00");
}

-- No record, no method, and a missing path.
notify_runs :
    (notify_2_java true null ≡ none)
    × (notify_2_java true deleted ≡ none)
    × (notify_2_java false (live crash) ≡ some none)
    × (notify_2_java true (live crash) ≡ some (some (on_crash crash)))
unfolding notify_2_java
notify_runs = (refl, refl, refl, refl)

abbrev at_filled : System
at_filled = record start { crash_pc = filled; g_crash_info = live crash }

abbrev at_waiting : System
at_waiting = record at_filled { crash_pc = waiting; cat_java_crash = 1 }

abbrev at_listening : System
at_listening = record at_waiting { callback_pc = listening; attached = true }

abbrev at_awake : System
at_awake = record at_listening { callback_pc = awake; cat_java_crash = 0 }

abbrev at_notified : System
at_notified = record at_awake {
  callback_pc = notified;
  attached = false;
  calls = on_crash crash ∷ [];
}

abbrev at_posted : System
at_posted = record at_notified { callback_pc = posted; done = 1 }

abbrev at_deleted : System
at_deleted = record at_posted { callback_pc = ended; g_crash_info = deleted }

abbrev at_returned : System
at_returned = record at_deleted { crash_pc = returned; done = 0 }

abbrev at_failed : System
at_failed = record at_waiting { callback_pc = failed }

Reach-waiting : Reach true crash at_waiting
Reach-waiting = next (next here (fill refl refl)) (post_cat refl refl)

Reach-awake : Reach true crash at_awake
Reach-awake = next (next Reach-waiting (attach refl refl)) (wait_cat 0 refl refl refl)

notified_step : Step true crash at_awake at_notified
notified_step = notify (some (on_crash crash)) refl (unfold notify_2_java in refl) refl

Reach-returned : Reach true crash at_returned
Reach-returned =
    next
      (next (next (next Reach-awake notified_step) (post_done refl refl)) (delete_info refl refl))
      (wait_done 0 refl refl refl)

Reach-failed : Reach true crash at_failed
Reach-failed = next Reach-waiting (attach_fails refl refl)

Reach-Inv_example : Inv true crash at_awake
Reach-Inv_example = Reach-Inv true crash Reach-awake

Reach-finish_example :
    (n : ℕ) × (t : System) × Steps true crash n at_awake t
    × (n ≤ 8)
    × IsFinished t
    × (t.calls ≡ on_crash crash ∷ [])
Reach-finish_example = Reach-finish crash at_awake Reach-awake (λ e. ground arith)

failed-hangs_example :
    (at_failed.calls ≡ [])
    × (at_failed.crash_pc ≢ returned)
    × ((t : System) → Step true crash at_failed t → t.callback_pc ≡ failed)
failed-hangs_example = failed-hangs true crash at_failed Reach-failed refl

Reach-step_example : IsFinished at_awake ⊎ ((t : System) × Step true crash at_awake t)
Reach-step_example = Reach-step true crash at_awake Reach-awake (λ e. ground arith)

returned_stuck : (t : System) → ¬ Step true crash at_returned t
returned_stuck t (fill p e) = ground arith
returned_stuck t (post_cat p e) = ground arith
returned_stuck t (wait_done n p q e) = ground arith
returned_stuck t (present p e) = ground arith
returned_stuck t (attach p e) = ground arith
returned_stuck t (attach_fails p e) = ground arith
returned_stuck t (wait_cat n p q e) = ground arith
returned_stuck t (notify call p q e) = ground arith
returned_stuck t (post_done p e) = ground arith
returned_stuck t (delete_info p e) = ground arith

stuck-on_crash_example : IsFinished at_returned × (at_returned.calls ≡ on_crash crash ∷ [])
stuck-on_crash_example =
    stuck-on_crash crash at_returned Reach-returned (λ e. ground arith) returned_stuck
