-- ===== src/Handlers/Life.antt =====
-- The life of the handlers in a process: construction, destruction and signals in any order, and the
-- invariant over it.
use native_crash2java.Base.{
  ℕ, ◌≡◌, refl, ◌≢◌, ◌⊎◌, inl, inr, Bool, true, false, not, ◌&&◌, List, [], ◌∷◌, Option, none, some,
  arith, ◌==◌, if◌then◌else◌, length, sym, ◌∙◌, subst⁻¹, subst, Bool-cases, Option-cases,
  >>=-eq-some,
}
use native_crash2java.Handlers.{
  Action, default_action, breakpad, exception_signals, Handler, Process, Kernel, update,
  install_default, install_handlers, restore_handlers, install_alternate_stack,
  restore_alternate_stack, construct, erase, after_erase, destruct, Siginfo, Event, Leave,
  handle_all, lost_siginfo, recovers, run_handlers, signal_handler,
}
use native_crash2java.Handlers.Table.{is_in, NeverFails}
use native_crash2java.Handlers.Managed.{
  IsTabled, IsManaged, install_alternate_stack-IsSameTable, restore_alternate_stack-IsSameTable,
  IsSameTable-IsTabled, install_handlers-IsTabled, restore_handlers-off, restore_handlers-IsTabled,
}

-- In each step the kernel may answer in another way, but it sets the actions that it is asked to set.
-- A signal comes to `SignalHandler` only where that is its action.
pub data Step (p q : Process) : Type 0 where
  constructed :
      (k : Kernel) (block : ℕ) (install_handler : Bool) (h : Handler)
      → q ≡ construct k block install_handler h p
      → Step p q
  destroyed : (k : Kernel) (this : ℕ) → NeverFails k → destruct k this p ≡ some q → Step p q
  signalled :
      (k : Kernel) (pid sig : ℕ) (info : Siginfo) (flag : Bool) (events : List Event) (how : Leave)
      → NeverFails k
      → p.actions sig ≡ breakpad flag
      → signal_handler k pid sig info p ≡ some (q, events, how)
      → Step p q
  first_chance_set : (f : Option (ℕ → Bool)) → q ≡ record p { first_chance = f } → Step p q

pub data Reach (p : Process) : Process → Type 0 where
  here : Reach p p
  next : {q r : Process} → Reach p q → Step q r → Reach p r

-- Before the first handler: nothing is installed, and no action is `SignalHandler`.
pub record IsClean (p : Process) : Type 0 where
  pub off : p.handlers_installed ≡ false
  pub array : length p.old_handlers ≡ 6
  pub foreign_actions : (sig : ℕ) (flag : Bool) → p.actions sig ≢ breakpad flag

clean-IsManaged : (p : Process) → IsClean p → IsManaged p.actions p
clean-IsManaged p c = record {
  table = record {
    array = c.array;
    idle = λ off sig. refl;
    saved = λ on. absurd (let e : false ≡ true = sym c.off ∙ on in cc);
    outside = λ sig out. refl;
  };
  bare = λ e. c.off;
}

module _ (orig : ℕ → Action) (never : (sig : ℕ) (flag : Bool) → orig sig ≢ breakpad flag) where
  construct-IsManaged :
      (k : Kernel) (block : ℕ) (inst : Bool) (h : Handler) (p : Process)
      → IsManaged orig p
      → IsManaged orig (construct k block inst h p)
  unfolding construct
  construct-IsManaged k block true h p m =
      let with_stack : IsTabled orig (install_alternate_stack k block p) =
        IsSameTable-IsTabled orig p (install_alternate_stack k block p)
          (install_alternate_stack-IsSameTable k block p) m.table in
      let installed : IsTabled orig (install_handlers k (install_alternate_stack k block p)).1 =
        install_handlers-IsTabled orig k (install_alternate_stack k block p) with_stack in
      record {
        table = record {
          array = installed.array;
          idle = installed.idle;
          saved = installed.saved;
          outside = installed.outside;
        };
        bare = λ e. cc;
      }
  construct-IsManaged k block false h p m = record {
    table = record {
      array = m.table.array;
      idle = m.table.idle;
      saved = m.table.saved;
      outside = m.table.outside;
    };
    bare = λ e. cc;
  }

  with_vector :
      (v : Option (List Handler)) (p : Process)
      → IsTabled orig p
      → IsTabled orig (record p { g_handler_stack = v })
  with_vector v p t = record {
    array = t.array;
    idle = t.idle;
    saved = t.saved;
    outside = t.outside;
  }

  after_erase-IsManaged :
      (k : Kernel) (rest : List Handler) (p : Process)
      → NeverFails k
      → IsManaged orig p
      → IsManaged orig (after_erase k rest p)
  after_erase-IsManaged k (h ∷ rest) p sets m = record {
    table = with_vector (some (h ∷ rest)) p m.table;
    bare = λ e. cc;
  }
  after_erase-IsManaged k [] p sets m =
      let q : Process = record p { g_handler_stack = none } in
      let with_stack : IsTabled orig (restore_alternate_stack k q) =
        IsSameTable-IsTabled orig q (restore_alternate_stack k q)
          (restore_alternate_stack-IsSameTable k q) (with_vector none p m.table) in
      record {
        table = restore_handlers-IsTabled orig k (restore_alternate_stack k q) sets with_stack;
        bare = λ e. restore_handlers-off orig k (restore_alternate_stack k q);
      }

  destruct-IsManaged :
      (k : Kernel) (this : ℕ) (p q : Process)
      → NeverFails k
      → IsManaged orig p
      → destruct k this p ≡ some q
      → IsManaged orig q
  unfolding destruct
  destruct-IsManaged k this p q sets m e =
      let (handlers, there, e') = >>=-eq-some p.g_handler_stack _ e in
      let (rest, erased, e'') = >>=-eq-some (erase this handlers) _ e' in
      let same : after_erase k rest p ≡ q = cc in
      subst (IsManaged orig) same (after_erase-IsManaged k rest p sets m)

  -- Where `SignalHandler` is the action, it was installed, for one of its signals.
  pub breakpad-installed :
      (p : Process) (sig : ℕ) (flag : Bool)
      → IsManaged orig p
      → p.actions sig ≡ breakpad flag
      → (p.handlers_installed ≡ true) × (is_in sig exception_signals ≡ true)
  breakpad-installed p sig flag m e = (
    elim (Bool-cases p.handlers_installed) [
      | inl on ↦ on
      | inr off ↦ absurd (never sig flag (sym (m.table.idle off sig) ∙ e))
    ],
    elim (Bool-cases (is_in sig exception_signals)) [
      | inl within ↦ within
      | inr without ↦ absurd (never sig flag (sym (m.table.outside sig without) ∙ e))
    ],
  )

  update-IsManaged :
      (p : Process) (sig : ℕ) (action : Action)
      → IsManaged orig p
      → p.handlers_installed ≡ true
      → is_in sig exception_signals ≡ true
      → IsManaged orig (record p { actions = update p.actions sig action })
  update-IsManaged p sig action m on within = record {
    table = record {
      array = m.table.array;
      idle = λ off. cc;
      saved = m.table.saved;
      outside = λ s out. elim (Bool-cases (s == sig)) [
        | inl same ↦ let e : s ≡ sig = ground arith in cc
        | inr other ↦ rw other (m.table.outside s out)
      ];
    };
    bare = m.bare;
  }

  install_default-IsManaged :
      (k : Kernel) (p : Process) (sig : ℕ)
      → IsManaged orig p
      → p.handlers_installed ≡ true
      → is_in sig exception_signals ≡ true
      → IsManaged orig (record p { actions = install_default k sig p.actions })
  unfolding install_default
  install_default-IsManaged k p sig m on within = elim (Bool-cases (k.default_fails sig)) [
    | inl fails ↦ simp fails m
    | inr works ↦ simp works (update-IsManaged p sig default_action m on within)
  ]

  restore_handlers-IsManaged :
      (k : Kernel) (p : Process)
      → NeverFails k
      → IsManaged orig p
      → IsManaged orig (restore_handlers k p)
  restore_handlers-IsManaged k p sets m = record {
    table = restore_handlers-IsTabled orig k p sets m.table;
    bare = λ e. restore_handlers-off orig k p;
  }

  pub run_handlers-cases :
      (k : Kernel) (pid sig : ℕ) (info : Siginfo) (handlers : List Handler) (p : Process)
      → (((handle_all pid info handlers).0 ≡ true)
          × ((run_handlers k pid sig info handlers p).0
              ≡ record p { actions = install_default k sig p.actions }))
        ⊎ (((handle_all pid info handlers).0 ≡ false)
            × ((run_handlers k pid sig info handlers p).0 ≡ restore_handlers k p))
  unfolding run_handlers
  run_handlers-cases k pid sig info handlers p =
      elim (Bool-cases (handle_all pid info handlers).0) [
        | inl yes_it_is ↦ inl (yes_it_is, rw yes_it_is refl)
        | inr it_is_not ↦ inr (it_is_not, rw it_is_not refl)
      ]

  run_handlers-IsManaged :
      (k : Kernel) (pid sig : ℕ) (info : Siginfo) (handlers : List Handler) (p : Process)
      → NeverFails k
      → IsManaged orig p
      → p.handlers_installed ≡ true
      → is_in sig exception_signals ≡ true
      → IsManaged orig (run_handlers k pid sig info handlers p).0
  run_handlers-IsManaged k pid sig info handlers p sets m on within =
      elim (run_handlers-cases k pid sig info handlers p) [
        | inl (_, e) ↦ subst⁻¹ (IsManaged orig) e (install_default-IsManaged k p sig m on within)
        | inr (_, e) ↦ subst⁻¹ (IsManaged orig) e (restore_handlers-IsManaged k p sets m)
      ]

  -- The three ways through `SignalHandler`.
  abbrev pub reset : Kernel → ℕ → Process → Process
  reset k sig p = record p {
    actions =
        if k.set_fails sig
        then install_default k sig p.actions
        else update p.actions sig (breakpad true);
  }

  pub signal_handler-cases :
      (k : Kernel) (pid sig : ℕ) (info : Siginfo) (p q : Process) (events : List Event)
      (how : Leave)
      → signal_handler k pid sig info p ≡ some (q, events, how)
      → ((recovers p.first_chance sig ≡ true) × (q ≡ p))
        ⊎ ((lost_siginfo (p.actions sig) ≡ true) × (q ≡ reset k sig p))
        ⊎ ((handlers : List Handler) × (p.g_handler_stack ≡ some handlers)
            × (q ≡ (run_handlers k pid sig info handlers p).0))
  unfolding signal_handler
  signal_handler-cases k pid sig info p q events how e =
      elim (Bool-cases (recovers p.first_chance sig)) [
        | inl recovered ↦ inl (recovered, ground arith)
        | inr no_chance ↦
            elim (Bool-cases (not (k.get_fails sig) && lost_siginfo (p.actions sig))) [
              | inl lost ↦ inr (inl (ground arith, ground arith))
              | inr kept ↦ elim (Option-cases p.g_handler_stack) [
                | inl null ↦ absurd (ground arith)
                | inr (handlers, there) ↦ inr (inr (handlers, there, ground arith))
              ]
            ]
      ]

  signal_handler-IsManaged :
      (k : Kernel) (pid sig : ℕ) (info : Siginfo) (flag : Bool) (p q : Process)
      (events : List Event) (how : Leave)
      → NeverFails k
      → IsManaged orig p
      → p.actions sig ≡ breakpad flag
      → signal_handler k pid sig info p ≡ some (q, events, how)
      → IsManaged orig q
  signal_handler-IsManaged k pid sig info flag p q events how sets m action e =
      let (on, within) = breakpad-installed p sig flag m action in
      elim (signal_handler-cases k pid sig info p q events how e) [
        | inl (_, same) ↦ subst⁻¹ (IsManaged orig) same m
        | inr (inl (_, same)) ↦
            subst⁻¹ (IsManaged orig) same
              (simp (sets sig) (update-IsManaged p sig (breakpad true) m on within))
        | inr (inr (handlers, _, same)) ↦
            subst⁻¹ (IsManaged orig) same
              (run_handlers-IsManaged k pid sig info handlers p sets m on within)
      ]

  Step-IsManaged : (p q : Process) → Step p q → IsManaged orig p → IsManaged orig q
  Step-IsManaged p q (constructed k block inst h e) m =
      subst⁻¹ (IsManaged orig) e (construct-IsManaged k block inst h p m)
  Step-IsManaged p q (destroyed k this sets e) m = destruct-IsManaged k this p q sets m e
  Step-IsManaged p q (signalled k pid sig info flag events how sets action e) m =
      signal_handler-IsManaged k pid sig info flag p q events how sets m action e
  Step-IsManaged p q (first_chance_set f e) m = subst⁻¹ (IsManaged orig) e (record {
    table = record {
      array = m.table.array;
      idle = m.table.idle;
      saved = m.table.saved;
      outside = m.table.outside;
    };
    bare = m.bare;
  })

pub Reach-IsManaged : {p q : Process} → IsClean p → Reach p q → IsManaged p.actions q
Reach-IsManaged {p} c here = clean-IsManaged p c
Reach-IsManaged {p} c (next {q} {r} reached step) =
    Step-IsManaged p.actions c.foreign_actions q r step (Reach-IsManaged c reached)
