-- ===== src/LongDictionary/Stored.antt =====
-- The loop of `SetKeyValue` over the segments of a long value.
use native_crash2java.Base.{
  ℕ, ◌-◌, ◌*◌, ◌≤◌, ◌<◌, ◌≡◌, refl, ◌≢◌, List, [], ◌∷◌, ◌++◌, Option, none, some, length, take,
  drop, arith, All, ap, ◌∙◌, sym, length-take, length-drop, take-append-drop, take-of_le,
}
use native_crash2java.Dictionary.{Entry, get_value_for_key, set_key_value}
use native_crash2java.Dictionary.Entries.{lookup, IsFitting, get_value_for_key-lookup}
use native_crash2java.Dictionary.Lookup.{IsUpdate}
use native_crash2java.LongDictionary.{set_segments, append_segment, get_segments}
use native_crash2java.LongDictionary.Segments.{
  HasRoom, set_key_value-HasRoom, set_key_value-updates,
}

-- None of these texts is the text.
abbrev pub IsNoneOf : List ℕ → List (List ℕ) → Type 0
IsNoneOf s ss = All (λ t. s ≢ t) ss

-- Pairwise different.
unfoldable pub AreDifferent : List (List ℕ) → Type 0
AreDifferent [] = Unit
AreDifferent (s ∷ ss) = IsNoneOf s ss × AreDifferent ss

append-cancel : (key s t : List ℕ) → (key ++ s) ≡ (key ++ t) → s ≡ t
append-cancel [] s t e = e
append-cancel (c ∷ key) s t e = append-cancel key s t (ap (drop 1) e)

append-nonempty : (key s : List ℕ) → key ≢ [] → (key ++ s) ≢ []
append-nonempty [] s h e = h refl
append-nonempty (c ∷ key) s h e = cc

module _ (key_size value_size : ℕ) (key : List ℕ) (nonempty : key ≢ [])
    (wide : 2 ≤ value_size) where
  -- The segments with these suffixes are not there, and would fit.
  abbrev AreAbsent : List Entry → List (List ℕ) → Type 0
  AreAbsent es ss = All (λ s. (lookup (key ++ s) es ≡ none) × (length (key ++ s) < key_size)) ss

  absent-kept :
      (ss : List (List ℕ)) (es es' : List Entry) (s : List ℕ)
      → IsNoneOf s ss
      → ((k : List ℕ) → k ≢ [] → k ≢ (key ++ s) → lookup k es' ≡ lookup k es)
      → AreAbsent es ss
      → AreAbsent es' ss
  absent-kept [] es es' s different same h = tt
  absent-kept (t ∷ ss) es es' s different same h = (
    (
      same (key ++ t) (append-nonempty key t nonempty)
            (λ e. different.0 (sym (append-cancel key t s e)))
          ∙ h.0.0,
      h.0.1,
    ),
    absent-kept ss es es' s different.1 same h.1,
  )

  -- What the loop of `SetKeyValue` has done: the value is there in segments, and nothing else has changed.
  pub record IsStored (ss : List (List ℕ)) (value : List ℕ) (es es' : List Entry) : Type 0 where
    pub fitting : All (IsFitting key_size) es'
    pub reads : get_segments key_size value_size key ss es' ≡ value
    pub others : (k : List ℕ) → k ≢ [] → All (λ s. k ≢ (key ++ s)) ss → lookup k es' ≡ lookup k es

  pub get-lookup :
      (k : List ℕ) (es : List Entry) (o : Option (List ℕ))
      → length k < key_size
      → All (IsFitting key_size) es
      → lookup k es ≡ o
      → get_value_for_key key_size value_size k es ≡ o
  get-lookup k es o short f e = get_value_for_key-lookup key_size value_size k es short f ∙ e

  pub set_segments-IsStored :
      (ss : List (List ℕ)) (value : List ℕ) (es : List Entry)
      → AreDifferent ss
      → AreAbsent es ss
      → HasRoom key_size (length ss) es
      → length value ≤ length ss * (value_size - 1)
      → IsStored ss value es (set_segments key_size value_size key ss value es)
  unfolding set_segments get_segments AreDifferent
  set_segments-IsStored [] [] es different absent room short = record {
    fitting = room.fitting;
    reads = refl;
    others = λ k h n. refl;
  }
  set_segments-IsStored [] (c ∷ value) es different absent room short = absurd (omega arith)
  set_segments-IsStored (s ∷ ss) [] es different absent room short = record {
    fitting = room.fitting;
    reads =
        ap (λ o. append_segment key_size value_size o (get_segments key_size value_size key ss es))
          (get-lookup (key ++ s) es none absent.0.1 room.fitting absent.0.0);
    others = λ k h n. refl;
  }
  set_segments-IsStored (s ∷ ss) (c ∷ value) es different absent room short =
      let segment : List ℕ = take (value_size - 1) (c ∷ value) in
      let behind : List ℕ = drop (value_size - 1) (c ∷ value) in
      let es1 : List Entry =
        (set_key_value key_size value_size (some (key ++ s)) (some segment) es).1 in
      let (mine, same) : IsUpdate (key ++ s) (take (value_size - 1) segment) es es1 =
        set_key_value-updates key_size value_size (key ++ s) segment es absent.0.1 (length ss)
          (append-nonempty key s nonempty) room in
      let room1 : HasRoom key_size (length ss) es1 =
        set_key_value-HasRoom key_size value_size (key ++ s) segment es absent.0.1 (length ss)
          (append-nonempty key s nonempty) room in
      let whole : take (value_size - 1) segment ≡ segment =
        take-of_le (value_size - 1) segment
          (let l = length-take (value_size - 1) (c ∷ value) in omega arith) in
      let fewer : length behind ≤ length ss * (value_size - 1) =
        (let l = length-drop (value_size - 1) (c ∷ value) in omega arith) in
      let later : IsStored ss behind es1 (set_segments key_size value_size key ss behind es1) =
        set_segments-IsStored ss behind es1 different.1
          (absent-kept ss es es1 s different.0 same absent.1) room1 fewer in
      let es' : List Entry = set_segments key_size value_size key ss behind es1 in
      let there : lookup (key ++ s) es' ≡ some segment =
        later.others (key ++ s) (append-nonempty key s nonempty) (apart s ss different.0)
        ∙ mine
        ∙ ap some whole in
      record {
        fitting = later.fitting;
        reads =
            ap
              (λ o.
                append_segment key_size value_size o (get_segments key_size value_size key ss es'))
              (get-lookup (key ++ s) es' (some segment) absent.0.1 later.fitting there)
            ∙ ap (λ b. segment ++ b) later.reads
            ∙ take-append-drop (value_size - 1) (c ∷ value);
        others = λ k h n. later.others k h n.1 ∙ same k h n.0;
      }
    where
      apart :
          (s : List ℕ) (ss : List (List ℕ)) → IsNoneOf s ss → All (λ t. (key ++ s) ≢ (key ++ t)) ss
      apart s [] h = tt
      apart s (t ∷ ss) h = (λ e. h.0 (append-cancel key s t e), apart s ss h.1)
