-- ===== src/Handlers/Managed.antt =====
-- Over any life of handlers that are constructed, run and destroyed, the table of signal actions comes
-- back to what it was.
use mathlib.Core.Path.{fun_ext}
use native_crash2java.Base.{
  ℕ, ◌≡◌, refl, inl, inr, true, false, none, arith, map, length, ap, sym, ◌∙◌, subst⁻¹, Bool-cases,
}
use native_crash2java.Handlers.{
  Action, exception_signals, Process, Kernel, save_handlers, set_handlers, install_handlers,
  restore_actions, restore_handlers, install_alternate_stack, restore_alternate_stack,
}
use native_crash2java.Handlers.Table.{
  is_in, NeverFails, save_handlers-map, length-save_handlers, set_handlers_outside,
  restore_actions_lem,
}

-- `orig` is the table before the first handler.
pub record IsTabled (orig : ℕ → Action) (p : Process) : Type 0 where
  pub array : length p.old_handlers ≡ 6
  pub idle : p.handlers_installed ≡ false → (sig : ℕ) → p.actions sig ≡ orig sig
  pub saved : p.handlers_installed ≡ true → p.old_handlers ≡ map orig exception_signals
  pub outside : (sig : ℕ) → is_in sig exception_signals ≡ false → p.actions sig ≡ orig sig

-- Without a vector of handlers nothing is installed.
pub record IsManaged (orig : ℕ → Action) (p : Process) : Type 0 where
  pub table : IsTabled orig p
  pub bare : p.g_handler_stack ≡ none → p.handlers_installed ≡ false

-- What the operations on the alternate stack leave alone.
pub record IsSameTable (p q : Process) : Type 0 where
  actions : q.actions ≡ p.actions
  old_handlers : q.old_handlers ≡ p.old_handlers
  handlers_installed : q.handlers_installed ≡ p.handlers_installed

pub install_alternate_stack-IsSameTable :
    (k : Kernel) (block : ℕ) (p : Process) → IsSameTable p (install_alternate_stack k block p)
unfolding install_alternate_stack
install_alternate_stack-IsSameTable k block p = ground arith

pub restore_alternate_stack-IsSameTable :
    (k : Kernel) (p : Process) → IsSameTable p (restore_alternate_stack k p)
unfolding restore_alternate_stack
restore_alternate_stack-IsSameTable k p = ground arith

pub restore_alternate_stack-vector :
    (k : Kernel) (p : Process) → (restore_alternate_stack k p).g_handler_stack ≡ p.g_handler_stack
unfolding restore_alternate_stack
restore_alternate_stack-vector k p = ground arith

install_handlers_again :
    (k : Kernel) (p : Process) → p.handlers_installed ≡ true → (install_handlers k p).1 ≡ p
unfolding install_handlers
install_handlers_again k p on = ground arith

install_handlers_first :
    (k : Kernel) (p : Process)
    → p.handlers_installed ≡ false
    → (save_handlers k p.actions exception_signals p.old_handlers).1 ≡ true
    → (install_handlers k p).1 ≡ record p {
      old_handlers = (save_handlers k p.actions exception_signals p.old_handlers).0;
      actions = set_handlers k exception_signals p.actions;
      handlers_installed = true;
    }
unfolding install_handlers
install_handlers_first k p off ok = ground arith

install_handlers_fails :
    (k : Kernel) (p : Process)
    → p.handlers_installed ≡ false
    → (save_handlers k p.actions exception_signals p.old_handlers).1 ≡ false
    → (install_handlers k p).1
      ≡ record p { old_handlers = (save_handlers k p.actions exception_signals p.old_handlers).0 }
unfolding install_handlers
install_handlers_fails k p off ok = ground arith

restore_handlers_off :
    (k : Kernel) (p : Process) → p.handlers_installed ≡ false → restore_handlers k p ≡ p
unfolding restore_handlers
restore_handlers_off k p off = ground arith

pub restore_handlers_on :
    (k : Kernel) (p : Process)
    → p.handlers_installed ≡ true
    → restore_handlers k p ≡ record p {
      actions = restore_actions k exception_signals p.old_handlers p.actions;
      handlers_installed = false;
    }
unfolding restore_handlers
restore_handlers_on k p on = ground arith

module _ (orig : ℕ → Action) where
  pub IsSameTable-IsTabled : (p q : Process) → IsSameTable p q → IsTabled orig p → IsTabled orig q
  IsSameTable-IsTabled p q e m = record {
    array = ap length e.old_handlers ∙ m.array;
    idle = λ off sig. ap (λ f. f sig) e.actions ∙ m.idle (sym e.handlers_installed ∙ off) sig;
    saved = λ on. e.old_handlers ∙ m.saved (sym e.handlers_installed ∙ on);
    outside = λ sig out. ap (λ f. f sig) e.actions ∙ m.outside sig out;
  }

  pub install_handlers-IsTabled :
      (k : Kernel) (p : Process) → IsTabled orig p → IsTabled orig (install_handlers k p).1
  install_handlers-IsTabled k p m = elim (Bool-cases p.handlers_installed) [
    | inl on ↦ subst⁻¹ (IsTabled orig) (install_handlers_again k p on) m
    | inr off ↦
        let same : p.actions ≡ orig = fun_ext (m.idle off) in
        let length_kept : length (save_handlers k p.actions exception_signals p.old_handlers).0
            ≡ 6 =
          length-save_handlers k p.actions exception_signals p.old_handlers ∙ m.array in
        elim (Bool-cases (save_handlers k p.actions exception_signals p.old_handlers).1) [
          | inl ok ↦ subst⁻¹ (IsTabled orig) (install_handlers_first k p off ok) (record {
            array = length_kept;
            idle = λ e sig. cc;
            saved = λ e.
                save_handlers-map k p.actions exception_signals p.old_handlers m.array ok
                ∙ ap (λ f. map f exception_signals) same;
            outside = λ sig out.
                set_handlers_outside k exception_signals p.actions sig out ∙ m.outside sig out;
          })
          | inr failed ↦
              subst⁻¹ (IsTabled orig) (install_handlers_fails k p off failed) (record {
                array = length_kept;
                idle = m.idle;
                saved = λ e. cc;
                outside = m.outside;
              })
        ]
  ]

  -- After `RestoreHandlersLocked` the table is what it was.
  pub restore_handlers-back :
      (k : Kernel) (p : Process)
      → NeverFails k
      → IsTabled orig p
      → (sig : ℕ) → (restore_handlers k p).actions sig ≡ orig sig
  restore_handlers-back k p sets m sig = elim (Bool-cases p.handlers_installed) [
    | inr off ↦ ap (λ q. q.actions sig) (restore_handlers_off k p off) ∙ m.idle off sig
    | inl on ↦
        ap (λ q. q.actions sig) (restore_handlers_on k p on)
        ∙ ap (λ old. restore_actions k exception_signals old p.actions sig) (m.saved on)
        ∙ restore_actions_lem k exception_signals orig p.actions sig sets
        ∙ elim (Bool-cases (is_in sig exception_signals)) [
          | inl within ↦ rw within refl
          | inr without ↦ rw without (m.outside sig without)
        ]
  ]

  pub restore_handlers-off :
      (k : Kernel) (p : Process) → (restore_handlers k p).handlers_installed ≡ false
  unfolding restore_handlers
  restore_handlers-off k p = ground arith

  restore_handlers-array :
      (k : Kernel) (p : Process) → (restore_handlers k p).old_handlers ≡ p.old_handlers
  unfolding restore_handlers
  restore_handlers-array k p = ground arith

  pub restore_handlers-IsTabled :
      (k : Kernel) (p : Process)
      → NeverFails k
      → IsTabled orig p
      → IsTabled orig (restore_handlers k p)
  restore_handlers-IsTabled k p sets m = record {
    array = ap length (restore_handlers-array k p) ∙ m.array;
    idle = λ off sig. restore_handlers-back k p sets m sig;
    saved = λ on. absurd (let e : false ≡ true = sym (restore_handlers-off k p) ∙ on in cc);
    outside = λ sig out. restore_handlers-back k p sets m sig;
  }
