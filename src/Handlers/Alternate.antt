-- ===== src/Handlers/Alternate.antt =====
-- The alternate signal stack of `InstallAlternateStackLocked` and `RestoreAlternateStackLocked`.
use native_crash2java.Base.{
  ℕ, ◌≡◌, refl, inl, inr, Bool, true, false, ◌||◌, ◌==◌, ltb, if◌then◌else◌, ap, sym, ◌∙◌,
  Bool-cases, ==_iff,
}
use native_crash2java.Handlers.{
  AltStack, no_stack, Process, Kernel, sig_stack_size, install_alternate_stack,
  restore_alternate_stack,
}

-- No stack of the handlers is in use; where the kernel has none, its size is 0 as well.
pub record IsUnused (p : Process) : Type 0 where
  pub not_installed : p.stack_installed ≡ false
  pub not_allocated : p.allocated ≡ false
  pub bare : p.alternate.ss_sp ≡ 0 → p.alternate ≡ no_stack

-- `sigaltstack` succeeds.
pub record IsWorking (k : Kernel) : Type 0 where
  pub gets : k.sigaltstack_get_fails ≡ false
  pub sets : k.sigaltstack_set_fails ≡ false

abbrev too_small : Process → Bool
too_small p = p.alternate.ss_sp == 0 || ltb p.alternate.ss_size sig_stack_size

abbrev own : ℕ → AltStack
own block = record { ss_sp = block; ss_size = sig_stack_size }

module _ (k : Kernel) (block : ℕ) (p : Process) (u : IsUnused p) (w : IsWorking k) where
  install-small :
      too_small p ≡ true
      → install_alternate_stack k block p ≡ record p {
        old_stack = p.alternate;
        new_stack = own block;
        allocated = true;
        alternate = own block;
        stack_installed = true;
      }
  unfolding install_alternate_stack
  install-small small = simp (u.not_installed, w.gets, w.sets, small) refl

  install-large :
      too_small p ≡ false
      → install_alternate_stack k block p
        ≡ record p { old_stack = p.alternate; new_stack = no_stack }
  unfolding install_alternate_stack
  install-large large = simp (u.not_installed, w.gets, large) refl

restore-off :
    (k : Kernel) (p : Process) → p.stack_installed ≡ false → restore_alternate_stack k p ≡ p
unfolding restore_alternate_stack
restore-off k p off = simp off refl

restore-current :
    (k : Kernel) (p : Process)
    → IsWorking k
    → p.stack_installed ≡ true
    → (p.alternate.ss_sp == p.new_stack.ss_sp) ≡ true
    → restore_alternate_stack k p ≡ record p {
      alternate = if p.old_stack.ss_sp == 0 then no_stack else p.old_stack;
      allocated = false;
      stack_installed = false;
    }
unfolding restore_alternate_stack
restore-current k p w on same = simp (on, w.gets, w.sets, same) refl

restored :
    (stack : AltStack)
    → (stack.ss_sp ≡ 0 → stack ≡ no_stack)
    → (if stack.ss_sp == 0 then no_stack else stack) ≡ stack
restored stack bare = elim (Bool-cases (stack.ss_sp == 0)) [
  | inl null ↦ simp null (sym (bare ((==_iff stack.ss_sp 0).0 null)))
  | inr there ↦ simp there refl
]

-- Where `sigaltstack` works, removing the alternate stack after it was installed leaves the process
-- with the alternate stack that it had before, large enough or not, and with no memory allocated.
pub restore_alternate_stack-install :
    (k k' : Kernel) (block : ℕ) (p : Process)
    → IsUnused p
    → IsWorking k
    → IsWorking k'
    → ((restore_alternate_stack k' (install_alternate_stack k block p)).alternate ≡ p.alternate)
      × ((restore_alternate_stack k' (install_alternate_stack k block p)).allocated ≡ false)
      × ((restore_alternate_stack k' (install_alternate_stack k block p)).stack_installed ≡ false)
restore_alternate_stack-install k k' block p u w w' = elim (Bool-cases (too_small p)) [
  | inl small ↦
      let installed : Process = record p {
        old_stack = p.alternate;
        new_stack = own block;
        allocated = true;
        alternate = own block;
        stack_installed = true;
      } in
      let e : restore_alternate_stack k' (install_alternate_stack k block p) ≡ record p {
        old_stack = p.alternate;
        new_stack = own block;
        alternate = if p.alternate.ss_sp == 0 then no_stack else p.alternate;
        allocated = false;
        stack_installed = false;
      } =
        ap (restore_alternate_stack k') (install-small k block p u w small)
        ∙ restore-current k' installed w' refl ((==_iff block block).1 refl) in
      (
        ap (λ q. q.alternate) e ∙ restored p.alternate u.bare,
        ap (λ q. q.allocated) e,
        ap (λ q. q.stack_installed) e,
      )
  | inr large ↦
      let installed : Process = record p { old_stack = p.alternate; new_stack = no_stack } in
      let e : restore_alternate_stack k' (install_alternate_stack k block p) ≡ installed =
        ap (restore_alternate_stack k') (install-large k block p u w large)
        ∙ restore-off k' installed u.not_installed in
      (
        ap (λ q. q.alternate) e,
        ap (λ q. q.allocated) e ∙ u.not_allocated,
        ap (λ q. q.stack_installed) e ∙ u.not_installed,
      )
]
