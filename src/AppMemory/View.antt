-- ===== src/AppMemory/View.antt =====
-- The list of application memory as a map from pointers to sizes.
use native_crash2java.Base.{
  ℕ, ◌≡◌, refl, inl, inr, List, [], ◌∷◌, ◌++◌, Option, none, some, true, false, ◌==◌, if◌then◌else◌,
  arith, ap, ap₂, sym, ◌∙◌, Bool-cases, ==_iff, ℕ_discrete,
}
use native_crash2java.AppMemory.{
  AppMemory, is_registered, register_app_memory, unregister_app_memory,
}

-- The calls of a program, in their order.
pub data Call : Type 0 where
  register : ℕ → ℕ → Call
  unregister : ℕ → Call

unfoldable pub run : List Call → List AppMemory → List AppMemory
run [] memory = memory
run (register ptr size ∷ calls) memory = run calls (register_app_memory ptr size memory)
run (unregister ptr ∷ calls) memory = run calls (unregister_app_memory ptr memory)

-- The size under a pointer.
unfoldable pub size_of : ℕ → List AppMemory → Option ℕ
size_of ptr [] = none
size_of ptr (m ∷ memory) =
    let rest = size_of ptr memory in if m.ptr == ptr then some m.size else rest

abbrev pub or_else : Option ℕ → ℕ → Option ℕ
or_else none size = some size
or_else (some old) size = some old

-- The map after the calls: the first registration counts, until the pointer is unregistered.
unfoldable pub view : List Call → (ℕ → Option ℕ) → ℕ → Option ℕ
view [] sizes = sizes
view (register ptr size ∷ calls) sizes =
    view calls (λ p. if p == ptr then or_else (sizes ptr) size else sizes p)
view (unregister ptr ∷ calls) sizes = view calls (λ p. if p == ptr then none else sizes p)

-- No pointer is in the list twice.
unfoldable pub IsUnique : List AppMemory → Type 0
IsUnique [] = Unit
IsUnique (m ∷ memory) = (is_registered m.ptr memory ≡ false) × IsUnique memory

size_of-unregistered :
    (ptr : ℕ) (memory : List AppMemory)
    → is_registered ptr memory ≡ false
    → size_of ptr memory ≡ none
unfolding is_registered size_of
size_of-unregistered ptr [] h = refl
size_of-unregistered ptr (m ∷ memory) h = ground (arith, size_of-unregistered ptr memory)

size_of-registered :
    (ptr : ℕ) (memory : List AppMemory)
    → is_registered ptr memory ≡ true
    → (n : ℕ) × (size_of ptr memory ≡ some n)
unfolding is_registered size_of
size_of-registered ptr [] h = absurd (let e : false ≡ true = h in cc)
size_of-registered ptr (m ∷ memory) h = elim (Bool-cases (m.ptr == ptr)) [
  | inl same ↦ (m.size, ground arith)
  | inr other ↦
      let (n, e) =
        size_of-registered ptr memory
          (let t : is_registered ptr memory ≡ true = ground arith in t) in
      (n, ground arith)
]

size_of-push :
    (p ptr size : ℕ) (memory : List AppMemory)
    → is_registered ptr memory ≡ false
    → size_of p (memory ++ record { ptr = ptr; size = size } ∷ [])
      ≡ (if p == ptr then some size else size_of p memory)
unfolding is_registered size_of
size_of-push p ptr size [] h = ground arith
size_of-push p ptr size (m ∷ memory) h = ground (arith, size_of-push p ptr size memory)

size_of-unregister :
    (p ptr : ℕ) (memory : List AppMemory)
    → IsUnique memory
    → size_of p (unregister_app_memory ptr memory) ≡ (if p == ptr then none else size_of p memory)
unfolding size_of unregister_app_memory IsUnique
size_of-unregister p ptr [] u = ground arith
size_of-unregister p ptr (m ∷ memory) u =
    let rest : size_of p (unregister_app_memory ptr memory)
        ≡ (if p == ptr then none else size_of p memory) =
      size_of-unregister p ptr memory u.1 in
    elim (ℕ_discrete m.ptr p) [
      | yes same ↦
          let gone : size_of p memory ≡ none =
            ap (λ q. size_of q memory) (sym same) ∙ size_of-unregistered m.ptr memory u.0 in
          ground arith
      | no other ↦ ground arith
    ]

is_registered-push :
    (p ptr size : ℕ) (memory : List AppMemory)
    → is_registered p (memory ++ record { ptr = ptr; size = size } ∷ [])
      ≡ (if p == ptr then true else is_registered p memory)
unfolding is_registered
is_registered-push p ptr size [] = ground arith
is_registered-push p ptr size (m ∷ memory) = ground (arith, is_registered-push p ptr size memory)

is_registered-unregister :
    (p ptr : ℕ) (memory : List AppMemory)
    → is_registered p memory ≡ false
    → is_registered p (unregister_app_memory ptr memory) ≡ false
unfolding is_registered unregister_app_memory
is_registered-unregister p ptr [] h = h
is_registered-unregister p ptr (m ∷ memory) h =
    let rest : is_registered p memory ≡ false
        → is_registered p (unregister_app_memory ptr memory) ≡ false =
      is_registered-unregister p ptr memory in
    ground arith

push-IsUnique :
    (ptr size : ℕ) (memory : List AppMemory)
    → is_registered ptr memory ≡ false
    → IsUnique memory
    → IsUnique (memory ++ record { ptr = ptr; size = size } ∷ [])
unfolding is_registered IsUnique
push-IsUnique ptr size [] h u = (refl, tt)
push-IsUnique ptr size (m ∷ memory) h u =
    let pushed : is_registered m.ptr (memory ++ record { ptr = ptr; size = size } ∷ [])
        ≡ (if m.ptr == ptr then true else is_registered m.ptr memory) =
      is_registered-push m.ptr ptr size memory in
    let before : is_registered m.ptr memory ≡ false = u.0 in
    (
      ground arith,
      push-IsUnique ptr size memory (let t : is_registered ptr memory ≡ false = ground arith in t)
          u.1,
    )

unregister-IsUnique :
    (ptr : ℕ) (memory : List AppMemory)
    → IsUnique memory
    → IsUnique (unregister_app_memory ptr memory)
unfolding unregister_app_memory IsUnique
unregister-IsUnique ptr [] u = u
unregister-IsUnique ptr (m ∷ memory) u = elim (Bool-cases (m.ptr == ptr)) [
  | inl same ↦ simp same u.1
  | inr other ↦
      simp other (is_registered-unregister m.ptr ptr memory u.0, unregister-IsUnique ptr memory u.1)
]

register-IsUnique :
    (ptr size : ℕ) (memory : List AppMemory)
    → IsUnique memory
    → IsUnique (register_app_memory ptr size memory)
unfolding register_app_memory
register-IsUnique ptr size memory u = elim (Bool-cases (is_registered ptr memory)) [
  | inl old ↦ simp old u
  | inr new ↦ simp new (push-IsUnique ptr size memory new u)
]

size_of-register :
    (p ptr size : ℕ) (memory : List AppMemory)
    → size_of p (register_app_memory ptr size memory)
      ≡ (if p == ptr then or_else (size_of ptr memory) size else size_of p memory)
unfolding register_app_memory
size_of-register p ptr size memory = elim (Bool-cases (is_registered ptr memory)) [
  | inl old ↦
      let (n, e) = size_of-registered ptr memory old in
      elim (ℕ_discrete p ptr) [
        | yes same ↦ simp (old, e, (==_iff p ptr).1 same) (ap (λ q. size_of q memory) same ∙ e)
        | no other ↦ simp old (ground arith)
      ]
  | inr new ↦
      let e : size_of ptr memory ≡ none = size_of-unregistered ptr memory new in
      simp (new, e) (size_of-push p ptr size memory new)
]

run-follows :
    (calls : List Call) (memory : List AppMemory) (sizes : ℕ → Option ℕ)
    → IsUnique memory
    → ((q : ℕ) → size_of q memory ≡ sizes q)
    → IsUnique (run calls memory) × ((q : ℕ) → size_of q (run calls memory) ≡ view calls sizes q)
unfolding run view
run-follows [] memory sizes u same = (u, same)
run-follows (register ptr size ∷ calls) memory sizes u same =
    run-follows calls (register_app_memory ptr size memory)
      (λ p. if p == ptr then or_else (sizes ptr) size else sizes p)
      (register-IsUnique ptr size memory u)
      (λ p.
        size_of-register p ptr size memory
        ∙ ap₂ (λ mine other. if p == ptr then or_else mine size else other) (same ptr) (same p))
run-follows (unregister ptr ∷ calls) memory sizes u same =
    run-follows calls (unregister_app_memory ptr memory) (λ p. if p == ptr then none else sizes p)
      (unregister-IsUnique ptr memory u)
      (λ p.
        size_of-unregister p ptr memory u ∙ ap (λ other. if p == ptr then none else other) (same p))

-- Whatever memory a program registers and unregisters, in any order: no pointer is in the list twice,
-- and the list is the map of sizes in which the first registration of a pointer counts until the
-- pointer is unregistered.
pub run-view :
    (calls : List Call)
    → IsUnique (run calls [])
      × ((ptr : ℕ) → size_of ptr (run calls []) ≡ view calls (λ p. none) ptr)
run-view calls =
    run-follows calls [] (λ p. none) (unfold IsUnique in tt) (λ q. unfold size_of in refl)
