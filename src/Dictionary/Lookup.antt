-- ===== src/Dictionary/Lookup.antt =====
-- What `SetKeyValue` does to the map that the entries stand for.
use mathlib.Core.List.{List-discrete}
use native_crash2java.Base.{
  ℕ, suc, ◌-◌, ◌<◌, ◌≡◌, refl, ◌≢◌, ◌⊎◌, inl, inr, true, false, ◌==◌, List, [], ◌∷◌, none, some,
  length, get_elem?, set, take, arith, All, ap, ◌∙◌, sym, Bool-cases, take-of_le, ℕ_discrete,
}
use native_crash2java.Dictionary.{
  Entry, is_active, free_index, entry_index, copied, get_value_for_key, put, set_key_value,
}
use native_crash2java.Dictionary.Entries.{
  lookup, IsFitting, matches-cases, lookup-here, lookup-later, index-here, index-later,
  suc-suc_equal, get_value_for_key-lookup,
}

-- `after` is the map `before` with this value for the key.
abbrev pub IsUpdate : List ℕ → List ℕ → List Entry → List Entry → Type 0
IsUpdate key value before after =
    (lookup key after ≡ some value)
    × ((k : List ℕ) → k ≢ [] → k ≢ key → lookup k after ≡ lookup k before)

pub idle-nil : (k : List ℕ) → is_active k ≡ false → k ≡ []
unfolding is_active
idle-nil [] h = refl
idle-nil (c ∷ k) h = ground arith

pub free-here : (e : Entry) (es : List Entry) → is_active e.key ≡ false → free_index (e ∷ es) ≡ 0
unfolding free_index
free-here e es idle = ground arith

pub free-later :
    (e : Entry) (es : List Entry)
    → is_active e.key ≡ true
    → free_index (e ∷ es) ≡ suc (free_index es)
unfolding free_index
free-later e es active = ground arith

module _ (key_size value_size : ℕ) (key value : List ℕ) (fits : length key < key_size) where
  -- An entry in front, which does not belong to the key.
  IsUpdate-later :
      (e : Entry) (before after : List Entry)
      → key ≢ e.key
      → IsUpdate key value before after
      → IsUpdate key value (e ∷ before) (e ∷ after)
  IsUpdate-later e before after other (mine, others) = (
    lookup-later key_size value_size key e after other ∙ mine,
    λ k nonempty different. elim (List-discrete ℕ_discrete k e.key) [
      | yes same ↦
          lookup-here key_size value_size k e after same
          ∙ sym (lookup-here key_size value_size k e before same)
      | no apart ↦
          lookup-later key_size value_size k e after apart
          ∙ others k nonempty different
          ∙ sym (lookup-later key_size value_size k e before apart)
    ],
  )

  -- The entry in front changes: it belonged to the key or to none, and belongs to the key now.
  IsUpdate-here :
      (e new : Entry) (es : List Entry)
      → (e.key ≡ key) ⊎ (e.key ≡ [])
      → new.key ≡ key
      → new.value ≡ value
      → IsUpdate key value (e ∷ es) (new ∷ es)
  IsUpdate-here e new es old now written = (
    lookup-here key_size value_size key new es (sym now) ∙ ap some written,
    λ k nonempty different.
        lookup-later key_size value_size k new es (λ same. different (same ∙ now))
        ∙ sym (
            lookup-later key_size value_size k e es
              (λ same. elim old [ inl x ↦ different (same ∙ x) | inr x ↦ nonempty (same ∙ x) ])),
  )

  -- The key is there.
  pub found-IsUpdate :
      (es : List Entry)
      → All (IsFitting key_size) es
      → (entry_index key_size value_size key es == length es) ≡ false
      → (e : Entry) × (get_elem? es (entry_index key_size value_size key es) ≡ some e)
        × IsUpdate key value es
            (set es (entry_index key_size value_size key es) (record e { value = value }))
  found-IsUpdate [] f h =
      absurd (unfold entry_index in (let e : (0 == 0) ≡ false = h in ground arith))
  found-IsUpdate (e ∷ es) f h = elim (matches-cases key_size value_size key e fits f.0) [
    | inl (same, s) ↦
        rw (index-here key_size value_size key e es s) (
          e,
          refl,
          IsUpdate-here e (record e { value = value }) es (inl (sym same)) (sym same) refl,
        )
    | inr (other, s) ↦
        let later : (entry_index key_size value_size key es == length es) ≡ false =
          sym (suc-suc_equal (entry_index key_size value_size key es) (length es))
          ∙ ap (λ i. i == suc (length es)) (sym (index-later key_size value_size key e es s))
          ∙ h in
        let (e', got, update) = found-IsUpdate es f.1 later in
        rw (index-later key_size value_size key e es s)
          (e', got, IsUpdate-later e es _ other update)
  ]

  -- The key is not there, and an entry is free.
  pub free-IsUpdate :
      (es : List Entry) (new : Entry)
      → All (IsFitting key_size) es
      → entry_index key_size value_size key es ≡ length es
      → (free_index es == length es) ≡ false
      → new.key ≡ key
      → new.value ≡ value
      → IsUpdate key value es (set es (free_index es) new)
  free-IsUpdate [] new f h free now written =
      absurd (unfold free_index in (let e : (0 == 0) ≡ false = free in ground arith))
  free-IsUpdate (e ∷ es) new f h free now written = elim (Bool-cases (is_active e.key)) [
    | inr idle ↦
        rw (free-here e es idle) (IsUpdate-here e new es (inr (idle-nil e.key idle)) now written)
    | inl active ↦ elim (matches-cases key_size value_size key e fits f.0) [
      | inl (same, s) ↦
          let at_front : 0 ≡ suc (length es) =
            sym (index-here key_size value_size key e es s) ∙ h in
          absurd (omega arith)
      | inr (other, s) ↦
          let missing : suc (entry_index key_size value_size key es) ≡ suc (length es) =
            sym (index-later key_size value_size key e es s) ∙ h in
          let later : (free_index es == length es) ≡ false =
            sym (suc-suc_equal (free_index es) (length es))
            ∙ ap (λ i. i == suc (length es)) (sym (free-later e es active))
            ∙ free in
          rw (free-later e es active) (
            IsUpdate-later e es (set es (free_index es) new) other
              (free-IsUpdate es new f.1 (omega arith) later now written))
    ]
  ]

pub equal-eq : (m n : ℕ) → (m == n) ≡ true → m ≡ n
equal-eq m n h = ground arith

pub active-cons : (k : List ℕ) → k ≢ [] → is_active k ≡ true
unfolding is_active
active-cons [] h = absurd (h refl)
active-cons (c ∷ k) h = refl

module _ (key_size value_size : ℕ) (key value : List ℕ) (entries : List Entry) where
  pub put-found :
      (e : Entry)
      → (entry_index key_size value_size key entries == length entries) ≡ false
      → get_elem? entries (entry_index key_size value_size key entries) ≡ some e
      → (put key_size value_size key value entries).1
        ≡ set entries
            (entry_index key_size value_size key entries)
            (record e { value = copied key_size value_size value_size value })
  unfolding put
  put-found e h got = rw (h, got) refl

  pub put-free :
      (entry_index key_size value_size key entries == length entries) ≡ true
      → (free_index entries == length entries) ≡ false
      → (put key_size value_size key value entries).1
        ≡ set entries (free_index entries) (record {
          key = copied key_size value_size key_size key;
          value = copied key_size value_size value_size value;
        })
  unfolding put
  put-free h free = rw (h, free) refl

  pub put-full :
      (entry_index key_size value_size key entries == length entries) ≡ true
      → (free_index entries == length entries) ≡ true
      → put key_size value_size key value entries ≡ (length entries, entries)
  unfolding put
  put-full h full = rw (h, full) refl

  pub missing-none :
      (entry_index key_size value_size key entries == length entries) ≡ true
      → get_value_for_key key_size value_size key entries ≡ none
  unfolding get_value_for_key
  missing-none h = rw h refl

-- The same with the index of a free entry, as the code finds it.
pub set_key_value-cases :
    (key_size value_size : ℕ) (key value : List ℕ) (entries : List Entry)
    → length key < key_size
    → key ≢ []
    → All (IsFitting key_size) entries
    → IsUpdate key
        (copied key_size value_size value_size value)
        entries
        (set_key_value key_size value_size (some key) (some value) entries).1
      ⊎ ((lookup key entries ≡ none)
          × (free_index entries ≡ length entries)
          × (set_key_value key_size value_size (some key) (some value) entries
              ≡ (length entries, entries)))
unfolding set_key_value
set_key_value-cases key_size value_size key value entries fits nonempty f =
    rw (active-cons key nonempty)
      (elim (Bool-cases (entry_index key_size value_size key entries == length entries)) [
        | inr found ↦
            let (e, got, update) =
              found-IsUpdate key_size value_size key text fits entries f found in
            inl (rw (put-found key_size value_size key value entries e found got) update)
        | inl missing ↦ elim (Bool-cases (free_index entries == length entries)) [
          | inl full ↦ inr (
            sym (get_value_for_key-lookup key_size value_size key entries fits f)
                ∙ missing-none key_size value_size key value entries missing,
            equal-eq (free_index entries) (length entries) full,
            put-full key_size value_size key value entries missing full,
          )
          | inr free ↦
              let whole : copied key_size value_size key_size key ≡ key =
                take-of_le (key_size - 1) key (omega arith) in
              let at_end : entry_index key_size value_size key entries ≡ length entries =
                equal-eq (entry_index key_size value_size key entries) (length entries) missing in
              inl (
                rw (put-free key_size value_size key value entries missing free) (
                  free-IsUpdate key_size value_size key text fits entries
                    (record { key = copied key_size value_size key_size key; value = text }) f
                    at_end free whole refl))
        ]
      ])
  where
    text : List ℕ
    text = copied key_size value_size value_size value

free_index-full : (es : List Entry) → free_index es ≡ length es → All (λ e. e.key ≢ []) es
free_index-full [] h = tt
free_index-full (e ∷ es) h = elim (Bool-cases (is_active e.key)) [
  | inr idle ↦ absurd (let no : 0 ≡ suc (length es) = sym (free-here e es idle) ∙ h in omega arith)
  | inl active ↦
      let later : suc (free_index es) ≡ suc (length es) = sym (free-later e es active) ∙ h in
      (active-nonempty e.key active, free_index-full es (omega arith))
]
  where
    active-nonempty : (k : List ℕ) → is_active k ≡ true → k ≢ []
    active-nonempty [] a = unfold is_active in (λ x. let no : false ≡ true = a in cc)
    active-nonempty (c ∷ k) a = λ x. cc

-- `SetKeyValue` with a key that is not empty and fits its array: the value, cut off at the size of its
-- array, belongs to the key from then on and no other key is touched, or the key is not there, each entry
-- has a key already, and nothing has changed.
pub set_key_value-IsUpdate :
    (key_size value_size : ℕ) (key value : List ℕ) (entries : List Entry)
    → length key < key_size
    → key ≢ []
    → All (IsFitting key_size) entries
    → IsUpdate key
        (take (value_size - 1) value)
        entries
        (set_key_value key_size value_size (some key) (some value) entries).1
      ⊎ ((lookup key entries ≡ none)
          × All (λ e. e.key ≢ []) entries
          × (set_key_value key_size value_size (some key) (some value) entries
              ≡ (length entries, entries)))
set_key_value-IsUpdate key_size value_size key value entries fits nonempty f =
    elim (set_key_value-cases key_size value_size key value entries fits nonempty f) [
      | inl update ↦ inl update
      | inr (missing, full, same) ↦ inr (missing, free_index-full entries full, same)
    ]
