-- ===== src/Handlers/Runs.antt =====
-- Tests and examples of the signal handlers.
use native_crash2java.Base.{◌≡◌, refl, ◌⊎◌, true, false, List, [], ◌∷◌, none, some, All}
use native_crash2java.Base.Int.{pos}
use native_crash2java.Handlers.{
  default_action, breakpad, foreign, no_stack, Handler, Process, Kernel, install_handlers,
  restore_handlers, install_alternate_stack, restore_alternate_stack, construct, destruct, Siginfo,
  Event, filtered_out, made_dumpable, asked, dumped, Leave, returns, handle_signal, handle_all,
  signal_handler, run_handlers, after_erase, erase, save_handlers, set_handlers, restore_actions,
  install_default,
}
use native_crash2java.Handlers.Chain.{IsHandledBy, Refuses, done_by, handle_all-IsHandledBy}
use native_crash2java.Handlers.Life.{constructed, destroyed, Reach, here, next, IsClean}
use native_crash2java.Handlers.Delivery.{Reach-actions, signal_handler_total}
use native_crash2java.Handlers.Alternate.{IsUnused, IsWorking, restore_alternate_stack-install}

abbrev kernel : Kernel
kernel = record {
  get_fails = λ s. false;
  set_fails = λ s. false;
  default_fails = λ s. false;
  sigaltstack_get_fails = false;
  sigaltstack_set_fails = false;
  tgkill_fails = false;
}

-- Each signal has an action of its own, and there is no alternate stack.
abbrev fresh : Process
fresh = record {
  actions = foreign;
  old_handlers =
      default_action ∷ default_action ∷ default_action ∷ default_action ∷ default_action
      ∷ default_action ∷ [];
  handlers_installed = false;
  alternate = no_stack;
  old_stack = no_stack;
  new_stack = no_stack;
  allocated = false;
  stack_installed = false;
  g_handler_stack = none;
  first_chance = none;
}

-- One that refuses, and one that dumps.
abbrev refusing : Handler
refusing = record { this = 1; filter = some false; crash_handler = none; generate_dump = true }

abbrev dumping : Handler
dumping = record { this = 2; filter = none; crash_handler = some false; generate_dump = true }

abbrev one_handler : Process
one_handler = construct kernel 4096 true dumping fresh

abbrev two_handlers : Process
two_handlers = construct kernel 8192 true refusing one_handler

abbrev segv : Siginfo
segv = record { si_code = pos 1; si_pid = 0 }

-- The second handler refuses and the first one dumps; then the signal has the default action, and a
-- signal that a process sent by `kill` is sent again.
handlers_run :
    (handle_all 7 segv (refusing ∷ dumping ∷ [])
      ≡ (true, filtered_out 1 ∷ made_dumpable 2 ∷ asked 2 ∷ dumped 2 ∷ []))
    × (handle_all 7 segv (refusing ∷ []) ≡ (false, filtered_out 1 ∷ []))
    × (two_handlers.actions 11 ≡ breakpad true)
    × (two_handlers.actions 13 ≡ foreign 13)
    × (two_handlers.alternate ≡ record { ss_sp = 4096; ss_size = 16384 })
    × (erase 9 (refusing ∷ dumping ∷ []) ≡ none)
unfolding handle_all handle_signal construct install_handlers install_alternate_stack save_handlers
    set_handlers erase
handlers_run = (refl, refl, refl, refl, refl, refl)

fresh-IsClean : IsClean fresh
fresh-IsClean = record { off = refl; array = refl; foreign_actions = λ sig flag e. cc }

one_handler-Reach : Reach fresh one_handler
one_handler-Reach = next here (constructed kernel 4096 true dumping refl)

one_handler-actions : one_handler.actions 11 ≡ breakpad true
unfolding construct install_handlers install_alternate_stack save_handlers set_handlers
one_handler-actions = refl

abbrev none_left : Process
none_left = after_erase kernel [] one_handler

destroyed_one : destruct kernel 2 one_handler ≡ some none_left
unfolding destruct construct install_handlers install_alternate_stack save_handlers set_handlers
    erase
destroyed_one = refl

none_left-vector : none_left.g_handler_stack ≡ none
unfolding construct install_handlers install_alternate_stack save_handlers set_handlers
    restore_handlers restore_alternate_stack restore_actions
none_left-vector = refl

Reach-actions_example : none_left.actions 11 ≡ foreign 11
Reach-actions_example =
    Reach-actions fresh none_left fresh-IsClean
      (next one_handler-Reach (destroyed kernel 2 (λ s. refl) destroyed_one)) none_left-vector 11

signal_handler_total_example :
    (r : Process × List Event × Leave) × (signal_handler kernel 7 11 segv
        (record one_handler { actions = λ s. breakpad false })
      ≡ some r)
signal_handler_total_example =
    signal_handler_total fresh one_handler kernel 7 11 11 segv (λ s. breakpad false) fresh-IsClean
      one_handler-Reach one_handler-actions

abbrev after_signal : Process
after_signal = record one_handler { actions = install_default kernel 11 one_handler.actions }

delivered :
    signal_handler kernel 7 11 segv one_handler
    ≡ some (after_signal, made_dumpable 2 ∷ asked 2 ∷ dumped 2 ∷ [], returns)
unfolding signal_handler run_handlers handle_all handle_signal construct install_handlers
    install_alternate_stack save_handlers set_handlers
delivered = refl

handle_all-IsHandledBy_example :
    ((refused : List Handler) × (h : Handler) × (rest : List Handler) × IsHandledBy 7 segv
        (refusing ∷ dumping ∷ [])
        refused
        h
        rest)
    ⊎ (All (Refuses 7 segv) (refusing ∷ dumping ∷ [])
        × (handle_all 7 segv (refusing ∷ dumping ∷ [])
            ≡ (false, done_by 7 segv (refusing ∷ dumping ∷ []))))
handle_all-IsHandledBy_example = handle_all-IsHandledBy 7 segv (refusing ∷ dumping ∷ [])

fresh-IsUnused : IsUnused fresh
fresh-IsUnused = record { not_installed = refl; not_allocated = refl; bare = λ e. refl }

kernel-IsWorking : IsWorking kernel
kernel-IsWorking = record { gets = refl; sets = refl }

restore_alternate_stack-install_example :
    ((restore_alternate_stack kernel (install_alternate_stack kernel 4096 fresh)).alternate
      ≡ no_stack)
    × ((restore_alternate_stack kernel (install_alternate_stack kernel 4096 fresh)).allocated
        ≡ false)
    × ((restore_alternate_stack kernel (install_alternate_stack kernel 4096 fresh)).stack_installed
        ≡ false)
restore_alternate_stack-install_example =
    restore_alternate_stack-install kernel kernel 4096 fresh fresh-IsUnused kernel-IsWorking
      kernel-IsWorking
