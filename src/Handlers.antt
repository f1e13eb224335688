-- ===== src/Handlers.antt =====
-- The signal-handling half of client/linux/handler/exception_handler.cc: what the process keeps about
-- its handlers, and the functions that install, run and remove them. The mutex makes each of them one
-- step. The kernel's answers are arguments: `Kernel` says which calls of `sigaction` fail.
pub mod Table
pub mod Managed
pub mod Chain
pub mod Life
pub mod Delivery
pub mod Alternate
mod Runs
use native_crash2java.Base.{
  ℕ, zero, suc, ◌≤◌, Bool, true, false, not, ◌&&◌, ◌||◌, List, [], ◌∷◌, ◌++◌, Option, none, some,
  ◌==◌, if◌then◌else◌, map, ltb, ◌>>=◌,
}
use native_crash2java.Base.Int.{ℤ, pos, negsuc}

-- The action of a signal: `breakpad` is `SignalHandler`, with the flag `SA_SIGINFO` or without it.
pub data Action : Type 0 where
  default_action : Action
  breakpad : Bool → Action
  foreign : ℕ → Action

-- `kExceptionSignals`: SIGSEGV, SIGABRT, SIGFPE, SIGILL, SIGBUS, SIGTRAP.
abbrev pub exception_signals : List ℕ
exception_signals = 11 ∷ 6 ∷ 8 ∷ 4 ∷ 7 ∷ 5 ∷ []

abbrev pub sigabrt : ℕ
sigabrt = 6

-- A `stack_t`; an address of 0 is no stack.
pub record AltStack : Type 0 where
  pub ss_sp : ℕ
  pub ss_size : ℕ

abbrev pub no_stack : AltStack
no_stack = record { ss_sp = 0; ss_size = 0 }

-- An `ExceptionHandler`: its address and the answers of its callbacks and of `GenerateDump`.
pub record Handler : Type 0 where
  pub this : ℕ
  pub filter : Option Bool
  pub crash_handler : Option Bool
  pub generate_dump : Bool

-- The variables of the file with those of the kernel: `actions` and `alternate`. `allocated` says that
-- the memory of `new_stack` is. The vector of handlers has its back first; `none` is null.
pub record Process : Type 0 where
  pub actions : ℕ → Action
  pub old_handlers : List Action
  pub handlers_installed : Bool
  pub alternate : AltStack
  pub old_stack : AltStack
  pub new_stack : AltStack
  pub allocated : Bool
  pub stack_installed : Bool
  pub g_handler_stack : Option (List Handler)
  pub first_chance : Option (ℕ → Bool)

pub record Kernel : Type 0 where
  pub get_fails : ℕ → Bool
  pub set_fails : ℕ → Bool
  pub default_fails : ℕ → Bool
  pub sigaltstack_get_fails : Bool
  pub sigaltstack_set_fails : Bool
  pub tgkill_fails : Bool

abbrev pub update : (ℕ → Action) → ℕ → Action → ℕ → Action
update actions sig action n = if n == sig then action else actions n

-- `InstallDefaultHandler`
unfoldable pub install_default : Kernel → ℕ → (ℕ → Action) → ℕ → Action
install_default k sig actions =
    if k.default_fails sig then actions else update actions sig default_action

-- The loop that stores the old handlers: the array and whether all calls succeeded.
unfoldable pub save_handlers : Kernel → (ℕ → Action) → List ℕ → List Action → List Action × Bool
save_handlers k actions [] old = (old, true)
save_handlers k actions (s ∷ signals) [] = ([], true)
save_handlers k actions (s ∷ signals) (o ∷ old) =
    let (rest, ok) = save_handlers k actions signals old in
    if k.get_fails s then (o ∷ old, false) else (actions s ∷ rest, ok)

-- The loop that installs `SignalHandler`; a failure is ignored.
unfoldable pub set_handlers : Kernel → List ℕ → (ℕ → Action) → ℕ → Action
set_handlers k [] actions = actions
set_handlers k (s ∷ signals) actions =
    set_handlers k signals (if k.set_fails s then actions else update actions s (breakpad true))

-- `InstallHandlersLocked`
unfoldable pub install_handlers : Kernel → Process → Bool × Process
unfolding save_handlers
install_handlers k p =
    if p.handlers_installed
    then (false, p)
    else (let (old, ok) = save_handlers k p.actions exception_signals p.old_handlers in
        if ok
        then (
          true,
          record p {
            old_handlers = old;
            actions = set_handlers k exception_signals p.actions;
            handlers_installed = true;
          },
        )
        else (false, record p { old_handlers = old }))

unfoldable pub restore_actions : Kernel → List ℕ → List Action → (ℕ → Action) → ℕ → Action
unfolding install_default
restore_actions k [] old actions = actions
restore_actions k (s ∷ signals) [] actions = actions
restore_actions k (s ∷ signals) (o ∷ old) actions =
    restore_actions k signals old
      (if k.set_fails s then install_default k s actions else update actions s o)

-- `RestoreHandlersLocked`
unfoldable pub restore_handlers : Kernel → Process → Process
restore_handlers k p = if not p.handlers_installed then p else record p {
  actions = restore_actions k exception_signals p.old_handlers p.actions;
  handlers_installed = false;
}

abbrev pub sig_stack_size : ℕ
sig_stack_size = 16384

-- `InstallAlternateStackLocked`; `block` is what `calloc` returned.
unfoldable pub install_alternate_stack : Kernel → ℕ → Process → Process
install_alternate_stack k block p =
    if p.stack_installed
    then p
    else (let old : AltStack = if k.sigaltstack_get_fails then no_stack else p.alternate in
        let own : AltStack = record { ss_sp = block; ss_size = sig_stack_size } in
        if k.sigaltstack_get_fails || old.ss_sp == 0 || ltb old.ss_size sig_stack_size
        then (if k.sigaltstack_set_fails
            then record p { old_stack = old; new_stack = own; allocated = false }
            else record p {
              old_stack = old;
              new_stack = own;
              allocated = true;
              alternate = own;
              stack_installed = true;
            })
        else record p { old_stack = old; new_stack = no_stack })

-- `RestoreAlternateStackLocked`
unfoldable pub restore_alternate_stack : Kernel → Process → Process
restore_alternate_stack k p =
    if not p.stack_installed
    then p
    else if k.sigaltstack_get_fails
    then p
    else if p.alternate.ss_sp == p.new_stack.ss_sp
    then (if k.sigaltstack_set_fails then p else record p {
      alternate = if p.old_stack.ss_sp == 0 then no_stack else p.old_stack;
      allocated = false;
      stack_installed = false;
    })
    else record p { allocated = false; stack_installed = false }

abbrev pub handlers_of : Option (List Handler) → List Handler
handlers_of none = []
handlers_of (some handlers) = handlers

-- The constructor, from the lock on.
unfoldable pub construct : Kernel → ℕ → Bool → Handler → Process → Process
construct k block install_handler h p =
    let p' =
      if install_handler then (install_handlers k (install_alternate_stack k block p)).1 else p in
    record p' { g_handler_stack = some (h ∷ handlers_of p.g_handler_stack) }

-- `std::find` and `erase`: `none` is an erase at the end of the vector.
unfoldable pub erase : ℕ → List Handler → Option (List Handler)
erase this [] = none
erase this (h ∷ handlers) =
    let rest = erase this handlers in
    if h.this == this then some handlers else (rest >>= λ hs. some (h ∷ hs))

abbrev pub after_erase : Kernel → List Handler → Process → Process
after_erase k [] p =
    restore_handlers k (restore_alternate_stack k (record p { g_handler_stack = none }))
after_erase k (h ∷ handlers) p = record p { g_handler_stack = some (h ∷ handlers) }

-- The destructor; `none` is a null pointer that is read, or the erase.
unfoldable pub destruct : Kernel → ℕ → Process → Option Process
destruct k this p =
    p.g_handler_stack >>= λ handlers. erase this handlers >>= λ rest. some (after_erase k rest p)

-- The fields of a `siginfo_t` that are read.
pub record Siginfo : Type 0 where
  pub si_code : ℤ
  pub si_pid : ℕ

pub data Event : Type 0 where
  filtered_out made_dumpable asked dumped : ℕ → Event

-- `si_code > 0`, and the two codes of a trusted sender, SI_USER and SI_TKILL.
abbrev pub is_positive : ℤ → Bool
is_positive (pos n) = ltb 0 n
is_positive (negsuc n) = false

abbrev pub is_user_or_tkill : ℤ → Bool
is_user_or_tkill (pos n) = n == 0
is_user_or_tkill (negsuc n) = n == 5

abbrev pub filters_out : Option Bool → Bool
filters_out none = false
filters_out (some passes) = not passes

abbrev pub ask : Handler → Option Bool → Bool × List Event
ask h (some true) = (true, asked h.this ∷ [])
ask h (some false) = (h.generate_dump, asked h.this ∷ dumped h.this ∷ [])
ask h none = (h.generate_dump, dumped h.this ∷ [])

-- `HandleSignal`: the result and what is done, in order. `pid` is that of the process.
unfoldable pub handle_signal : ℕ → Siginfo → Handler → Bool × List Event
handle_signal pid info h =
    if filters_out h.filter
    then (false, filtered_out h.this ∷ [])
    else (let (handled, events) = ask h h.crash_handler in
        let trusted =
          is_positive info.si_code || (is_user_or_tkill info.si_code && info.si_pid == pid) in
        (handled, if trusted then made_dumpable h.this ∷ events else events))

-- The loop from the back of the vector.
unfoldable pub handle_all : ℕ → Siginfo → List Handler → Bool × List Event
handle_all pid info [] = (false, [])
handle_all pid info (h ∷ handlers) =
    let (handled, events) = handle_signal pid info h in
    let (later, more) = handle_all pid info handlers in
    if handled then (true, events) else (later, events ++ more)

-- How the handler is left: the signal comes again by itself, it is sent again, or the process ends.
pub data Leave : Type 0 where
  returns sends_again exits : Leave

abbrev pub leave : Kernel → ℕ → Siginfo → Leave
leave k sig info =
    if not (is_positive info.si_code) || sig == sigabrt
    then (if k.tgkill_fails then exits else sends_again)
    else returns

abbrev pub lost_siginfo : Action → Bool
lost_siginfo (breakpad false) = true
lost_siginfo action = false

abbrev pub recovers : Option (ℕ → Bool) → ℕ → Bool
recovers none sig = false
recovers (some first_chance) sig = first_chance sig

-- `SignalHandler` behind the first tests.
unfoldable pub run_handlers :
    Kernel → ℕ → ℕ → Siginfo → List Handler → Process → Process × List Event × Leave
unfolding install_default
run_handlers k pid sig info handlers p =
    let (handled, events) = handle_all pid info handlers in
    (
      (if handled
          then record p { actions = install_default k sig p.actions }
          else restore_handlers k p),
      events,
      leave k sig info,
    )

-- `SignalHandler`; `none` is a null pointer that is read.
unfoldable pub signal_handler :
    Kernel → ℕ → ℕ → Siginfo → Process → Option (Process × List Event × Leave)
unfolding install_default run_handlers
signal_handler k pid sig info p =
    if recovers p.first_chance sig
    then some (p, [], returns)
    else if not (k.get_fails sig) && lost_siginfo (p.actions sig)
    then some (
      record p {
        actions =
            if k.set_fails sig
            then install_default k sig p.actions
            else update p.actions sig (breakpad true);
      },
      [],
      returns,
    )
    else (p.g_handler_stack >>= λ handlers. some (run_handlers k pid sig info handlers p))
