-- ===== src/Dictionary/Removal.antt =====
-- What `RemoveKey` does to the map, where no key is in the array twice.
use mathlib.Core.List.{List-discrete}
use native_crash2java.Base.{
  ℕ, zero, suc, ◌≤◌, ◌<◌, ◌≡◌, refl, ◌≢◌, inl, inr, leb, List, [], ◌∷◌, none, some, length, set,
  arith, All, ap, ◌∙◌, sym, subst, Bool-cases, ℕ_discrete,
}
use native_crash2java.Dictionary.{Entry, entry_index, remove_at_index, remove_key}
use native_crash2java.Dictionary.Entries.{
  lookup, IsFitting, matches-cases, lookup-here, lookup-later, index-here, index-later,
}

-- No key is in the array twice.
unfoldable pub IsUnique : List Entry → Type 0
IsUnique [] = Unit
IsUnique (e ∷ es) = (e.key ≢ [] → lookup e.key es ≡ none) × IsUnique es

-- `after` is the map `before` without the key.
pub record IsRemoved (key : List ℕ) (before after : List Entry) : Type 0 where
  pub gone : lookup key after ≡ none
  pub others : (k : List ℕ) → k ≢ [] → k ≢ key → lookup k after ≡ lookup k before
  pub unique : IsUnique after

abbrev pub removed : Entry
removed = record { key = []; value = [] }

set-past : (es : List Entry) (i : ℕ) (e : Entry) → length es ≤ i → set es i e ≡ es
set-past [] i e h = refl
set-past (x ∷ es) zero e h = absurd (omega arith)
set-past (x ∷ es) (suc i) e h = ap (◌∷◌ x) (set-past es i e (omega arith))

module _ (key_size value_size : ℕ) (key : List ℕ) (fits : length key < key_size)
    (nonempty : key ≢ []) where
  pub remove_key-set :
      (es : List Entry)
      → (remove_key key_size value_size (some key) es).1
        ≡ set es (entry_index key_size value_size key es) removed
  unfolding remove_key remove_at_index
  remove_key-set es = elim (Bool-cases (leb (length es) (entry_index key_size value_size key es))) [
    | inl past ↦
        rw past (sym (set-past es (entry_index key_size value_size key es) removed (ground arith)))
    | inr inside ↦ rw inside refl
  ]

  set-IsRemoved :
      (es : List Entry)
      → All (IsFitting key_size) es
      → IsUnique es
      → IsRemoved key es (set es (entry_index key_size value_size key es) removed)
  unfolding IsUnique
  set-IsRemoved [] f u = record {
    gone = unfold lookup in refl;
    others = λ k h n. refl;
    unique = tt;
  }
  set-IsRemoved (e ∷ es) f u = elim (matches-cases key_size value_size key e fits f.0) [
    | inl (same, s) ↦ rw (index-here key_size value_size key e es s) (record {
      gone =
          lookup-later key_size value_size key removed es nonempty
          ∙ subst (λ k. lookup k es ≡ none) (sym same)
              (u.0 (λ none_there. nonempty (same ∙ none_there)));
      others = λ k h n.
          lookup-later key_size value_size k removed es h
          ∙ sym (lookup-later key_size value_size k e es (λ x. n (x ∙ sym same)));
      unique = ((λ h. absurd (h refl)), u.1);
    })
    | inr (other, s) ↦
        let rest : IsRemoved key es (set es (entry_index key_size value_size key es) removed) =
          set-IsRemoved es f.1 u.1 in
        let after : List Entry = set es (entry_index key_size value_size key es) removed in
        rw (index-later key_size value_size key e es s) (record {
          gone = lookup-later key_size value_size key e after other ∙ rest.gone;
          others = λ k h n. elim (List-discrete ℕ_discrete k e.key) [
            | yes same ↦
                lookup-here key_size value_size k e after same
                ∙ sym (lookup-here key_size value_size k e es same)
            | no apart ↦
                lookup-later key_size value_size k e after apart
                ∙ rest.others k h n
                ∙ sym (lookup-later key_size value_size k e es apart)
          ];
          unique = ((λ h. rest.others e.key h (λ x. other (sym x)) ∙ u.0 h), rest.unique);
        })
  ]

  -- Where no key is in the array twice, `RemoveKey` with a key that is not empty and fits its array
  -- takes the key out of the map, leaves the other keys, and no key is in the array twice then.
  pub remove_key-IsRemoved :
      (es : List Entry)
      → All (IsFitting key_size) es
      → IsUnique es
      → IsRemoved key es (remove_key key_size value_size (some key) es).1
  remove_key-IsRemoved es f u =
      subst (IsRemoved key es) (sym (remove_key-set es)) (set-IsRemoved es f u)
