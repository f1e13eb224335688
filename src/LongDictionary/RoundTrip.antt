-- ===== src/LongDictionary/RoundTrip.antt =====
-- A long value that is read back.
use native_crash2java.Base.{
  ℕ, suc, ◌-◌, ◌*◌, ◌≤◌, ◌<◌, ◌≡◌, refl, ◌≢◌, inl, inr, Bool, true, false, not, ◌&&◌, leb, List, [],
  ◌∷◌, ◌++◌, none, some, length, take, drop, arith, All, ap, ◌∙◌, sym, subst, Bool-cases,
  take-of_le,
}
use native_crash2java.Dictionary.{
  Entry, strncmp_equal, entry_index, get_value_for_key, remove_key, remove_at_index, set_key_value,
}
use native_crash2java.Base.Codes.{codes}
use native_crash2java.Dictionary.Entries.{
  strncmp_equal_refl, lookup, IsFitting, matches-cases, index-later, lookup-here, lookup-later,
}
use native_crash2java.Dictionary.Lookup.{IsUpdate, active-cons}
use native_crash2java.LongDictionary.{
  suffixes, set_segments, remove_segments, long_remove_key, long_put, long_set_key_value,
  or_segments, long_get_value_for_key,
}
use native_crash2java.LongDictionary.Segments.{
  HasRoom, set_key_value-HasRoom, set_key_value-updates,
}
use native_crash2java.LongDictionary.Stored.{
  IsNoneOf, AreDifferent, IsStored, get-lookup, set_segments-IsStored,
}

none_of : List ℕ → List (List ℕ) → Bool
none_of s [] = true
none_of s (t ∷ ss) = not (strncmp_equal 9 s t) && none_of s ss

different : List (List ℕ) → Bool
unfolding none_of
different [] = true
different (s ∷ ss) = none_of s ss && different ss

none_of-IsNoneOf : (s : List ℕ) (ss : List (List ℕ)) → none_of s ss ≡ true → IsNoneOf s ss
unfolding none_of
none_of-IsNoneOf s [] h = tt
none_of-IsNoneOf s (t ∷ ss) h =
    let other : strncmp_equal 9 s t ≡ false = ground arith in
    let rest : none_of s ss ≡ true = ground arith in
    (
      (λ e.
          let same : strncmp_equal 9 s t ≡ true =
            subst (λ x. strncmp_equal 9 s x ≡ true) e (strncmp_equal_refl 9 s) in
          let no : true ≡ false = sym same ∙ other in cc),
      none_of-IsNoneOf s ss rest,
    )

different-AreDifferent : (ss : List (List ℕ)) → different ss ≡ true → AreDifferent ss
unfolding different AreDifferent
different-AreDifferent [] h = tt
different-AreDifferent (s ∷ ss) h =
    let here : none_of s ss ≡ true = ground arith in
    let rest : different ss ≡ true = ground arith in
    (none_of-IsNoneOf s ss here, different-AreDifferent ss rest)

suffixes-AreDifferent : AreDifferent suffixes
suffixes-AreDifferent =
    different-AreDifferent suffixes (unfold different none_of strncmp_equal in refl)

absent-index :
    (key_size value_size : ℕ) (key : List ℕ) (es : List Entry)
    → length key < key_size
    → All (IsFitting key_size) es
    → lookup key es ≡ none
    → entry_index key_size value_size key es ≡ length es
absent-index key_size value_size key [] short f e = unfold entry_index in refl
absent-index key_size value_size key (x ∷ es) short f e =
    elim (matches-cases key_size value_size key x short f.0) [
      | inl (same, s) ↦ absurd (
          let no : some x.value ≡ none = sym (lookup-here key_size value_size key x es same) ∙ e in
          cc)
      | inr (other, s) ↦
          index-later key_size value_size key x es s
          ∙ ap suc (
              absent-index key_size value_size key es short f.1
                (sym (lookup-later key_size value_size key x es other) ∙ e))
    ]

remove_key-absent :
    (key_size value_size : ℕ) (key : List ℕ) (es : List Entry)
    → length key < key_size
    → All (IsFitting key_size) es
    → lookup key es ≡ none
    → remove_key key_size value_size (some key) es ≡ (false, es)
unfolding remove_key remove_at_index
remove_key-absent key_size value_size key es short f e =
    let past : leb (length es) (length es) ≡ true = ground arith in
    rw (absent-index key_size value_size key es short f e, past) refl

apart_key : (key s : List ℕ) → s ≢ [] → key ≢ (key ++ s)
apart_key [] s h e = h (sym e)
apart_key (c ∷ key) s h e = apart_key key s h (ap (drop 1) e)

module _ (key_size value_size : ℕ) (key value : List ℕ) (es : List Entry) (nonempty : key ≢ [])
    (wide : 2 ≤ value_size) (short : length key < key_size) (fresh : lookup key es ≡ none)
    (absent : All (λ s. (lookup (key ++ s) es ≡ none) × (length (key ++ s) < key_size)) suffixes)
    (room : HasRoom key_size 10 es) (bounded : length value ≤ 10 * (value_size - 1)) where
  remove-fresh : (long_remove_key key_size value_size (some key) es).1 ≡ es
  unfolding long_remove_key remove_segments
  remove-fresh =
      rw
        (
          remove_key-absent key_size value_size key es short room.fitting fresh,
          remove_key-absent key_size value_size (key ++ codes "__1") es absent.0.1 room.fitting
              absent.0.0,
        )
        refl

  key-apart : (ss : List (List ℕ)) → All (λ s. s ≢ []) ss → All (λ s. key ≢ (key ++ s)) ss
  key-apart [] h = tt
  key-apart (s ∷ ss) h = (apart_key key s h.0, key-apart ss h.1)

  put-whole :
      leb (length value) (value_size - 1) ≡ true
      → long_put key_size value_size key value es
        ≡ (set_key_value key_size value_size (some key) (some value) es).1
  unfolding long_put
  put-whole whole = rw whole refl

  put-long :
      leb (length value) (value_size - 1) ≡ false
      → long_put key_size value_size key value es
        ≡ set_segments key_size value_size key suffixes value es
  unfolding long_put
  put-long long = rw long refl

  abbrev read : List Entry → List ℕ
  read es' = or_segments key_size value_size key es' (get_value_for_key key_size value_size key es')

  read-put : read (long_put key_size value_size key value es) ≡ value
  read-put = elim (Bool-cases (leb (length value) (value_size - 1))) [
    | inl whole ↦
        let es' : List Entry = (set_key_value key_size value_size (some key) (some value) es).1 in
        let (mine, same) : IsUpdate key (take (value_size - 1) value) es es' =
          set_key_value-updates key_size value_size key value es short 9 nonempty room in
        let room' : HasRoom key_size 9 es' =
          set_key_value-HasRoom key_size value_size key value es short 9 nonempty room in
        let uncut : take (value_size - 1) value ≡ value =
          take-of_le (value_size - 1) value (ground arith) in
        ap read (put-whole whole)
        ∙ ap (or_segments key_size value_size key es') (
            get-lookup key_size value_size key nonempty wide key es' (some value) short
              room'.fitting (mine ∙ ap some uncut))
    | inr long ↦
        let es' : List Entry = set_segments key_size value_size key suffixes value es in
        let stored : IsStored key_size value_size key nonempty wide suffixes value es es' =
          set_segments-IsStored key_size value_size key nonempty wide suffixes value es
            suffixes-AreDifferent absent room bounded in
        ap read (put-long long)
        ∙ ap (or_segments key_size value_size key es') (
            get-lookup key_size value_size key nonempty wide key es' none short stored.fitting
              (stored.others key nonempty (key-apart suffixes no_suffix-empty) ∙ fresh))
        ∙ stored.reads
  ]
    where
      no_suffix-empty : All (λ s. s ≢ []) suffixes
      no_suffix-empty = (
        (λ e. cc),
        (
          (λ e. cc),
          (
            (λ e. cc),
            (
              (λ e. cc),
              ((λ e. cc), ((λ e. cc), ((λ e. cc), ((λ e. cc), ((λ e. cc), ((λ e. cc), tt)))))),
            ),
          ),
        ),
      )

  -- A value that is set for a key is got back, in segments or not, where neither the key nor a segment
  -- of it was there before, the key with each suffix fits its array, ten entries are free and the value
  -- needs ten segments at most.
  pub long_get_value_for_key-set :
      long_get_value_for_key key_size value_size
        (some key)
        (long_set_key_value key_size value_size (some key) (some value) es)
      ≡ value
  unfolding long_get_value_for_key long_set_key_value
  long_get_value_for_key-set =
      rw (active-cons key nonempty)
        (ap (λ b. read (long_put key_size value_size key value b)) remove-fresh ∙ read-put)
