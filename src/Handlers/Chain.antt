-- ===== src/Handlers/Chain.antt =====
-- The order in which `SignalHandler` asks the handlers.
use native_crash2java.Base.{
  ℕ, ◌≡◌, refl, ◌⊎◌, inl, inr, true, false, List, [], ◌∷◌, ◌++◌, arith, All, Bool-cases, ap,
  append_assoc, sym, ◌∙◌,
}
use native_crash2java.Handlers.{Siginfo, Event, Handler, handle_signal, handle_all}

module _ (pid : ℕ) (info : Siginfo) where
  abbrev pub Refuses : Handler → Type 0
  Refuses h = (handle_signal pid info h).0 ≡ false

  -- What is done by these handlers, one after the other.
  unfoldable pub done_by : List Handler → List Event
  done_by [] = []
  done_by (h ∷ handlers) = (handle_signal pid info h).1 ++ done_by handlers

  -- `h` handles the signal, those before it do not, and those behind it are not asked.
  pub record IsHandledBy (handlers refusing : List Handler) (h : Handler) (rest : List Handler)
      : Type 0 where
    pub splits : handlers ≡ refusing ++ h ∷ rest
    pub refuse : All Refuses refusing
    pub handles : (handle_signal pid info h).0 ≡ true
    pub result :
        handle_all pid info handlers ≡ (true, done_by refusing ++ (handle_signal pid info h).1)

  handle_all_here :
      (h : Handler) (handlers : List Handler)
      → (handle_signal pid info h).0 ≡ true
      → handle_all pid info (h ∷ handlers) ≡ (true, (handle_signal pid info h).1)
  unfolding handle_all
  handle_all_here h handlers e = ground arith

  handle_all_later :
      (h : Handler) (handlers : List Handler)
      → (handle_signal pid info h).0 ≡ false
      → handle_all pid info (h ∷ handlers) ≡ (
        (handle_all pid info handlers).0,
        (handle_signal pid info h).1 ++ (handle_all pid info handlers).1,
      )
  unfolding handle_all
  handle_all_later h handlers e = ground arith

  -- `SignalHandler` asks the handlers from the newest one on, up to the first that handles the signal,
  -- and none behind it: what is done is what these handlers do, in this order. If none handles the
  -- signal, all of them are asked.
  pub handle_all-IsHandledBy :
      (handlers : List Handler)
      → ((refusing : List Handler) × (h : Handler) × (rest : List Handler) × IsHandledBy handlers
            refusing h rest)
        ⊎ (All Refuses handlers × (handle_all pid info handlers ≡ (false, done_by handlers)))
  handle_all-IsHandledBy [] = inr (tt, unfold handle_all done_by in refl)
  handle_all-IsHandledBy (h ∷ handlers) = elim (Bool-cases (handle_signal pid info h).0) [
    | inl yes_it_does ↦ inl (
      [],
      h,
      handlers,
      record {
        splits = refl;
        refuse = tt;
        handles = yes_it_does;
        result = handle_all_here h handlers yes_it_does ∙ unfold done_by in refl;
      },
    )
    | inr it_does_not ↦ elim (handle_all-IsHandledBy handlers) [
      | inl (refusing, g, rest, found) ↦ inl (
        h ∷ refusing,
        g,
        rest,
        record {
          splits = ap (◌∷◌ h) found.splits;
          refuse = (it_does_not, found.refuse);
          handles = found.handles;
          result =
              handle_all_later h handlers it_does_not
              ∙ ap (λ r. (r.0, (handle_signal pid info h).1 ++ r.1)) found.result
              ∙ unfold done_by in
                ap (λ (events : List Event). (true, events))
                  (sym (
                    append_assoc (handle_signal pid info h).1 (done_by refusing)
                      (handle_signal pid info g).1));
        },
      )
      | inr (refuse, result) ↦ inr (
        (it_does_not, refuse),
        handle_all_later h handlers it_does_not
            ∙ ap (λ r. (r.0, (handle_signal pid info h).1 ++ r.1)) result
            ∙ unfold done_by in refl,
      )
    ]
  ]
