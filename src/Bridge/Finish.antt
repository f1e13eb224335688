-- ===== src/Bridge/Finish.antt =====
-- From every state of `DumpCallback` and the callback thread there is a way to the end.
use native_crash2java.Base.{
  ℕ, zero, suc, ◌≤◌, ◌<◌, ◌≡◌, refl, ◌≢◌, inl, inr, true, Bool, [], ◌∷◌, arith,
}
use native_crash2java.Bridge.{
  CrashRecord, failed, CrashPc, running, filled, waiting, returned, CallbackPc, started, listening,
  awake, notified, posted, ended, System, Step, Reach, next,
}
use native_crash2java.Bridge.Progress.{
  on_crash, crash_steps, callback_steps, remaining, Step-remaining, IsFinished, step-from,
  returned-on_crash,
}

-- So many steps of the two threads, one after the other.
pub data Steps (has_method : Bool) (r : CrashRecord) : ℕ → System → System → Type 0 where
  stay : {s : System} → Steps has_method r 0 s s
  go :
      {n : ℕ} {s t u : System}
      → Step has_method r s t
      → Steps has_method r n t u
      → Steps has_method r (suc n) s u

-- In no more steps than are left the threads come to their end, and Java was told.
abbrev Finishes : CrashRecord → System → Type 0
Finishes r s =
    (n : ℕ) × (t : System) × Steps true r n s t
    × (n ≤ remaining s)
    × IsFinished t
    × (t.calls ≡ on_crash r ∷ [])

finish-from :
    (fuel : ℕ) (r : CrashRecord) (s : System)
    → remaining s < fuel
    → Reach true r s
    → s.callback_pc ≢ failed
    → Finishes r s
finish-from zero r s enough reached alive = absurd (omega arith)
finish-from (suc fuel) r s enough reached alive =
    elim (step-from true r s reached s.crash_pc refl alive) [
      | inl (p, q) ↦ (0, s, stay, omega arith, (p, q), returned-on_crash r s reached p)
      | inr (t, step, onward) ↦
          let fewer : remaining t < remaining s = Step-remaining true r s t step in
          let (n, u, steps, short, finished, told) =
            finish-from fuel r t (omega arith) (next reached step) onward in
          (suc n, u, go step steps, omega arith, finished, told)
    ]

crash-most : (pc : CrashPc) → crash_steps pc ≤ 3
crash-most running = omega arith
crash-most filled = omega arith
crash-most waiting = omega arith
crash-most returned = omega arith

callback-most : (pc : CallbackPc) → callback_steps pc ≤ 5
callback-most started = omega arith
callback-most listening = omega arith
callback-most awake = omega arith
callback-most notified = omega arith
callback-most posted = omega arith
callback-most ended = omega arith
callback-most failed = omega arith

-- If the method `onCrash` was found: from every state that the two threads can reach, in whatever order
-- their steps came, they can go on to the end in eight steps at most unless attaching the callback thread has
-- failed; the crashing thread is released then and `onCrash` has been called exactly once, with what
-- belongs to this crash.
pub Reach-finish :
    (r : CrashRecord) (s : System)
    → Reach true r s
    → s.callback_pc ≢ failed
    → (n : ℕ) × (t : System) × Steps true r n s t
      × (n ≤ 8)
      × IsFinished t
      × (t.calls ≡ on_crash r ∷ [])
Reach-finish r s reached alive =
    let (n, t, steps, short, finished, told) =
      finish-from (suc (remaining s)) r s (omega arith) reached alive in
    let crash = crash-most s.crash_pc in
    let callback = callback-most s.callback_pc in (n, t, steps, omega arith, finished, told)
