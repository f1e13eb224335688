-- ===== src/Dictionary/Invariant.antt =====
-- No key comes into the array twice.
use native_crash2java.Base.{
  ℕ, zero, suc, ◌-◌, ◌<◌, ◌≡◌, refl, ◌≢◌, inl, inr, false, ◌==◌, List, [], ◌∷◌, none, some, length,
  get_elem?, set, replicate, arith, All, ap, ◌∙◌, sym, subst, subst⁻¹, Bool-cases, take-of_le,
}
use native_crash2java.Dictionary.{
  Entry, is_active, entry_index, free_index, copied, put, remove_key, set_key_value,
}
use native_crash2java.Dictionary.Entries.{
  lookup, IsFitting, matches-cases, lookup-later, index-here, index-later, suc-suc_equal,
  get_value_for_key-lookup,
}
use native_crash2java.Dictionary.Lookup.{
  IsUpdate, found-IsUpdate, free-IsUpdate, free-here, free-later, put-found, put-free, put-full,
  missing-none, active-cons, equal-eq,
}
use native_crash2java.Dictionary.Kept.{All-set, put-set}
use native_crash2java.Dictionary.Removal.{
  IsUnique, IsRemoved, removed, remove_key-set, remove_key-IsRemoved,
}

module _ (key_size value_size : ℕ) (key value : List ℕ) (fits : length key < key_size)
    (nonempty : key ≢ []) where
  found-IsUnique :
      (es : List Entry) (e' : Entry)
      → All (IsFitting key_size) es
      → IsUnique es
      → (entry_index key_size value_size key es == length es) ≡ false
      → get_elem? es (entry_index key_size value_size key es) ≡ some e'
      → IsUnique (set es (entry_index key_size value_size key es) (record e' { value = value }))
  unfolding IsUnique
  found-IsUnique [] e' f u h got = tt
  found-IsUnique (e ∷ es) e' f u h got = elim (matches-cases key_size value_size key e fits f.0) [
    | inl (same, s) ↦
        let got' : get_elem? (e ∷ es) 0 ≡ some e' =
          ap (get_elem? (e ∷ es)) (sym (index-here key_size value_size key e es s)) ∙ got in
        let it : e ≡ e' = cc in
        rw (index-here key_size value_size key e es s)
          (subst (λ x. x.key ≢ [] → lookup x.key es ≡ none) it u.0, u.1)
    | inr (other, s) ↦
        let later : (entry_index key_size value_size key es == length es) ≡ false =
          sym (suc-suc_equal (entry_index key_size value_size key es) (length es))
          ∙ ap (λ i. i == suc (length es)) (sym (index-later key_size value_size key e es s))
          ∙ h in
        let got' : get_elem? es (entry_index key_size value_size key es) ≡ some e' =
          ap (get_elem? (e ∷ es)) (sym (index-later key_size value_size key e es s)) ∙ got in
        let (e'', got'', update) = found-IsUpdate key_size value_size key value fits es f.1 later in
        let it : e'' ≡ e' = same_entry e'' e' (sym got'' ∙ got') in
        let update' : IsUpdate key value es
            (set es (entry_index key_size value_size key es) (record e' { value = value })) =
          subst
            (λ x.
              IsUpdate key value es
                (set es (entry_index key_size value_size key es) (record x { value = value })))
            it update in
        rw (index-later key_size value_size key e es s) (
          (λ k. update'.1 e.key k (λ x. other (sym x)) ∙ u.0 k),
          found-IsUnique es e' f.1 u.1 later got',
        )
  ]
    where
      same_entry : (a b : Entry) → some a ≡ some b → a ≡ b
      same_entry a b e = cc

  free-IsUnique :
      (es : List Entry) (new : Entry)
      → All (IsFitting key_size) es
      → IsUnique es
      → entry_index key_size value_size key es ≡ length es
      → lookup key es ≡ none
      → (free_index es == length es) ≡ false
      → new.key ≡ key
      → new.value ≡ value
      → IsUnique (set es (free_index es) new)
  unfolding IsUnique
  free-IsUnique [] new f u h absent free now written = tt
  free-IsUnique (e ∷ es) new f u h absent free now written =
      elim (matches-cases key_size value_size key e fits f.0) [
        | inl (same, s) ↦
            let at_front : 0 ≡ suc (length es) =
              sym (index-here key_size value_size key e es s) ∙ h in
            absurd (omega arith)
        | inr (other, s) ↦
            let absent' : lookup key es ≡ none =
              sym (lookup-later key_size value_size key e es other) ∙ absent in
            elim (Bool-cases (is_active e.key)) [
              | inr idle ↦
                  rw (free-here e es idle)
                    ((λ k. subst⁻¹ (λ x. lookup x es ≡ none) now absent'), u.1)
              | inl active ↦
                  let missing : suc (entry_index key_size value_size key es) ≡ suc (length es) =
                    sym (index-later key_size value_size key e es s) ∙ h in
                  let missing' : entry_index key_size value_size key es ≡ length es = omega arith in
                  let later : (free_index es == length es) ≡ false =
                    sym (suc-suc_equal (free_index es) (length es))
                    ∙ ap (λ i. i == suc (length es)) (sym (free-later e es active))
                    ∙ free in
                  let update : IsUpdate key value es (set es (free_index es) new) =
                    free-IsUpdate key_size value_size key value fits es new f.1 missing' later now
                      written in
                  rw (free-later e es active) (
                    (λ k. update.1 e.key k (λ x. other (sym x)) ∙ u.0 k),
                    free-IsUnique es new f.1 u.1 missing' absent' later now written,
                  )
            ]
      ]

module _ (key_size value_size : ℕ) (key value : List ℕ) (fits : length key < key_size)
    (nonempty : key ≢ []) where
  put-IsUnique :
      (es : List Entry)
      → All (IsFitting key_size) es
      → IsUnique es
      → IsUnique (put key_size value_size key value es).1
  put-IsUnique es f u = elim (Bool-cases (entry_index key_size value_size key es == length es)) [
    | inr found ↦
        let (e, got, update) = found-IsUpdate key_size value_size key value fits es f found in
        subst⁻¹ IsUnique (put-found key_size value_size key value es e found got) (
          found-IsUnique key_size value_size key (copied key_size value_size value_size value) fits
            nonempty es e f u found got)
    | inl missing ↦ elim (Bool-cases (free_index es == length es)) [
      | inl full ↦
          subst⁻¹ (λ r. IsUnique r.1) (put-full key_size value_size key value es missing full) u
      | inr free ↦
          let whole : copied key_size value_size key_size key ≡ key =
            take-of_le (key_size - 1) key (omega arith) in
          let absent : lookup key es ≡ none =
            sym (get_value_for_key-lookup key_size value_size key es fits f)
            ∙ missing-none key_size value_size key value es missing in
          subst⁻¹ IsUnique (put-free key_size value_size key value es missing free) (
            free-IsUnique key_size value_size key (copied key_size value_size value_size value) fits
              nonempty es
              (record {
                key = copied key_size value_size key_size key;
                value = copied key_size value_size value_size value;
              })
              f u (equal-eq (entry_index key_size value_size key es) (length es) missing) absent
              free whole refl)
    ]
  ]

  put-IsFitting :
      (es : List Entry)
      → All (IsFitting key_size) es
      → All (IsFitting key_size) (put key_size value_size key value es).1
  put-IsFitting es f = elim (put-set key_size value_size key value es fits f) [
    | inl same ↦ subst⁻¹ (All (IsFitting key_size)) same f
    | inr (i, e, same, short) ↦
        subst⁻¹ (All (IsFitting key_size)) same (All-set (IsFitting key_size) es i e f short)
  ]

-- The calls of a program, in their order.
pub data Call : Type 0 where
  set_value : List ℕ → List ℕ → Call
  remove : List ℕ → Call

abbrev pub key_of : Call → List ℕ
key_of (set_value key value) = key
key_of (remove key) = key

module _ (key_size value_size : ℕ) where
  unfoldable pub run : List Call → List Entry → List Entry
  run [] es = es
  run (set_value key value ∷ calls) es =
      run calls (set_key_value key_size value_size (some key) (some value) es).1
  run (remove key ∷ calls) es = run calls (remove_key key_size value_size (some key) es).1

  -- The key of a call is not empty and fits.
  abbrev pub IsProper : Call → Type 0
  IsProper call = (key_of call ≢ []) × (length (key_of call) < key_size)

  set_key_value-put :
      (key value : List ℕ) (es : List Entry)
      → key ≢ []
      → set_key_value key_size value_size (some key) (some value) es
        ≡ put key_size value_size key value es
  unfolding set_key_value
  set_key_value-put key value es h = rw (active-cons key h) refl

  run-keeps :
      (calls : List Call) (es : List Entry)
      → All IsProper calls
      → All (IsFitting key_size) es × IsUnique es
      → All (IsFitting key_size) (run calls es) × IsUnique (run calls es)
  unfolding run
  run-keeps [] es proper kept = kept
  run-keeps (set_value key value ∷ calls) es proper (f, u) =
      run-keeps calls (set_key_value key_size value_size (some key) (some value) es).1 proper.1 (
        subst⁻¹ (λ r. All (IsFitting key_size) r.1 × IsUnique r.1)
          (set_key_value-put key value es proper.0.0)
          (
            put-IsFitting key_size value_size key value proper.0.1 proper.0.0 es f,
            put-IsUnique key_size value_size key value proper.0.1 proper.0.0 es f u,
          ))
  run-keeps (remove key ∷ calls) es proper (f, u) =
      let gone : IsRemoved key es (remove_key key_size value_size (some key) es).1 =
        remove_key-IsRemoved key_size value_size key proper.0.1 proper.0.0 es f u in
      run-keeps calls (remove_key key_size value_size (some key) es).1 proper.1 (
        subst⁻¹ (All (IsFitting key_size))
            (remove_key-set key_size value_size key proper.0.1 proper.0.0 es)
            (All-set (IsFitting key_size) es (entry_index key_size value_size key es) removed f (
              let t : 0 < key_size = (let l : length key < key_size = proper.0.1 in omega arith) in
              t)),
        gone.unique,
      )

  empty-kept :
      (n : ℕ)
      → 0 < key_size
      → All (IsFitting key_size) (replicate n removed) × IsUnique (replicate n removed)
  unfolding IsUnique
  empty-kept zero h = (tt, tt)
  empty-kept (suc n) h = let (f, u) = empty-kept n h in ((h, f), ((λ k. absurd (k refl)), u))

  -- Whatever keys a program sets and removes in an array that was empty, in any order, where they are
  -- not empty and fit their arrays: the keys in the array fit, and none of them is in it twice.
  pub run-IsUnique :
      (n : ℕ) (calls : List Call)
      → 0 < key_size
      → All IsProper calls
      → All (IsFitting key_size) (run calls (replicate n removed))
        × IsUnique (run calls (replicate n removed))
  run-IsUnique n calls h proper = run-keeps calls (replicate n removed) proper (empty-kept n h)
