-- ===== src/Handlers/Table.antt =====
-- The loops over the table of signal actions.
use native_crash2java.Base.{
  ℕ, ◌≡◌, refl, Bool, true, false, ◌||◌, List, [], ◌∷◌, arith, ◌==◌, if◌then◌else◌, map, length,
}
use native_crash2java.Handlers.{
  Action, breakpad, Kernel, update, save_handlers, set_handlers, restore_actions,
}

abbrev pub is_in : ℕ → List ℕ → Bool
is_in sig [] = false
is_in sig (s ∷ signals) = sig == s || is_in sig signals

-- No call of `sigaction` that sets an action fails.
abbrev pub NeverFails : Kernel → Type 0
NeverFails k = (sig : ℕ) → k.set_fails sig ≡ false

pub save_handlers-map :
    (k : Kernel) (actions : ℕ → Action) (signals : List ℕ) (old : List Action)
    → length old ≡ length signals
    → (save_handlers k actions signals old).1 ≡ true
    → (save_handlers k actions signals old).0 ≡ map actions signals
unfolding save_handlers
save_handlers-map k actions [] [] l ok = refl
save_handlers-map k actions [] (o ∷ old) l ok = absurd (omega arith)
save_handlers-map k actions (s ∷ signals) [] l ok = absurd (omega arith)
save_handlers-map k actions (s ∷ signals) (o ∷ old) l ok =
    ground (arith, save_handlers-map k actions signals old (omega arith))

pub length-save_handlers :
    (k : Kernel) (actions : ℕ → Action) (signals : List ℕ) (old : List Action)
    → length (save_handlers k actions signals old).0 ≡ length old
unfolding save_handlers
length-save_handlers k actions [] old = refl
length-save_handlers k actions (s ∷ signals) [] = refl
length-save_handlers k actions (s ∷ signals) (o ∷ old) =
    ground (arith, length-save_handlers k actions signals old)

-- The actions of other signals stay.
pub set_handlers_outside :
    (k : Kernel) (signals : List ℕ) (actions : ℕ → Action) (sig : ℕ)
    → is_in sig signals ≡ false
    → set_handlers k signals actions sig ≡ actions sig
unfolding set_handlers
set_handlers_outside k [] actions sig h = refl
set_handlers_outside k (s ∷ signals) actions sig h = ground (
  arith,
  set_handlers_outside k signals (update actions s (breakpad true)) sig,
  set_handlers_outside k signals actions sig,
)

-- Restoring the actions that were saved gives these signals their old actions.
pub restore_actions_lem :
    (k : Kernel) (signals : List ℕ) (orig actions : ℕ → Action) (sig : ℕ)
    → NeverFails k
    → restore_actions k signals (map orig signals) actions sig
      ≡ (if is_in sig signals then orig sig else actions sig)
unfolding restore_actions
restore_actions_lem k [] orig actions sig h = refl
restore_actions_lem k (s ∷ signals) orig actions sig h =
    ground (arith, h s, restore_actions_lem k signals orig (update actions s (orig s)) sig h)
