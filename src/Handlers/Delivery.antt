-- ===== src/Handlers/Delivery.antt =====
-- What the invariant gives for the table of actions and for each signal.
use native_crash2java.Base.{
  ℕ, ◌≡◌, inl, inr, true, false, not, ◌&&◌, List, [], none, some, arith, if◌then◌else◌, sym, ◌∙◌,
  Bool-cases, Option-cases,
}
use native_crash2java.Handlers.{
  Action, breakpad, Handler, Process, Kernel, update, install_default, Siginfo, Event, Leave,
  returns, lost_siginfo, recovers, run_handlers, signal_handler,
}
use native_crash2java.Handlers.Managed.{IsManaged}
use native_crash2java.Handlers.Life.{IsClean, Reach, Reach-IsManaged, breakpad-installed}

signal_handler-some :
    (k : Kernel) (pid sig : ℕ) (info : Siginfo) (handlers : List Handler) (p : Process)
    → p.g_handler_stack ≡ some handlers
    → (r : Process × List Event × Leave) × (signal_handler k pid sig info p ≡ some r)
unfolding signal_handler
signal_handler-some k pid sig info handlers p there =
    elim (Bool-cases (recovers p.first_chance sig)) [
      | inl recovered ↦ ((p, [], returns), ground arith)
      | inr no_chance ↦ elim (Bool-cases (not (k.get_fails sig) && lost_siginfo (p.actions sig))) [
        | inl lost ↦ (
          (
            record p {
              actions =
                  if k.set_fails sig
                  then install_default k sig p.actions
                  else update p.actions sig (breakpad true);
            },
            [],
            returns,
          ),
          ground arith,
        )
        | inr kept ↦ (run_handlers k pid sig info handlers p, ground arith)
      ]
    ]

-- Whatever handlers were constructed, run by signals and destroyed: where the last one is destroyed,
-- every signal has the action again that it had before the first one.
pub Reach-actions :
    (p q : Process)
    → IsClean p
    → Reach p q
    → q.g_handler_stack ≡ none
    → (sig : ℕ) → q.actions sig ≡ p.actions sig
Reach-actions p q c reached gone sig =
    let m : IsManaged p.actions q = Reach-IsManaged c reached in m.table.idle (m.bare gone) sig

-- While `SignalHandler` is the action of some signal, where no `sigaction` that sets an action has failed
-- since the first handler was constructed and no other code has changed an action until now: other code
-- may then change the actions in any way, also so that `SA_SIGINFO` is lost, and a signal on which
-- `SignalHandler` is called finds the vector of handlers; none of the reads is through a null pointer.
pub signal_handler_total :
    (p q : Process) (k : Kernel) (pid n sig : ℕ) (info : Siginfo) (actions : ℕ → Action)
    → IsClean p
    → Reach p q
    → q.actions n ≡ breakpad true
    → (r : Process × List Event × Leave) × (signal_handler k pid sig info
          (record q { actions = actions })
        ≡ some r)
signal_handler_total p q k pid n sig info actions c reached action =
    let m : IsManaged p.actions q = Reach-IsManaged c reached in
    let (on, _) = breakpad-installed p.actions c.foreign_actions q n true m action in
    elim (Option-cases q.g_handler_stack) [
      | inl null ↦ absurd (let e : true ≡ false = sym on ∙ m.bare null in cc)
      | inr (handlers, there) ↦
          signal_handler-some k pid sig info handlers (record q { actions = actions }) there
    ]
