-- ===== src/Dictionary/Runs.antt =====
-- Tests and examples of the dictionary.
use native_crash2java.Base.{
  ◌≢◌, take, ◌≡◌, ◌∙◌, refl, ◌⊎◌, true, List, [], ◌∷◌, none, some, arith, length, All, replicate,
}
use native_crash2java.Base.Codes.{codes}
use native_crash2java.Dictionary.{
  Entry, is_active, strncmp_equal, get_count, free_index, entry_index, get_value_for_key,
  remove_at_index, remove_key, put, set_key_value, next_from, iterator_next, set_value_at_index,
}
use native_crash2java.Dictionary.Entries.{IsFitting, lookup, lookup-later}
use native_crash2java.Dictionary.Removal.{removed, IsUnique, IsRemoved, remove_key-IsRemoved}
use native_crash2java.Dictionary.Invariant.{Call, set_value, remove, run, run-IsUnique}
use native_crash2java.Dictionary.Iteration.{active_entries, iterate, iterate-active_entries}
use native_crash2java.Dictionary.Lookup.{IsUpdate, set_key_value-IsUpdate}

abbrev idle : Entry
idle = record { key = []; value = [] }

abbrev entries : List Entry
entries =
    record { key = codes "a"; value = codes "1" }
    ∷ idle
    ∷ record { key = codes "bc"; value = codes "2" }
    ∷ []

-- A value is cut off, a free entry is taken, and a removed key is gone.
dictionary_runs :
    (get_value_for_key 4 3 (codes "bc") entries ≡ some (codes "2"))
    × (set_key_value 4 3 (some (codes "bc")) (some (codes "xyz")) entries ≡ (
      2,
      record { key = codes "a"; value = codes "1" }
          ∷ idle
          ∷ record { key = codes "bc"; value = codes "xy" }
          ∷ [],
    ))
    × ((set_key_value 4 3 (some (codes "d")) (some (codes "3")) entries).0 ≡ 1)
    × (remove_key 4 3 (some (codes "a")) entries
        ≡ (true, idle ∷ idle ∷ record { key = codes "bc"; value = codes "2" } ∷ []))
    × (get_count entries ≡ 2)
unfolding get_value_for_key set_key_value put remove_key remove_at_index entry_index free_index
    strncmp_equal is_active get_count
dictionary_runs = (refl, refl, refl, refl, refl)

-- A key that does not fit its array is stored cut off, and not found again.
long_key :
    get_value_for_key 3 3
      (codes "abc")
      (set_key_value 3 3 (some (codes "abc")) (some (codes "1")) (idle ∷ [])).1
    ≡ none
unfolding get_value_for_key set_key_value put entry_index free_index strncmp_equal is_active
long_key = refl

set_key_value-IsUpdate_example :
    IsUpdate
      (codes "d")
      (take 2 (codes "xyz"))
      entries
      (set_key_value 4 3 (some (codes "d")) (some (codes "xyz")) entries).1
    ⊎ ((lookup (codes "d") entries ≡ none)
        × All (λ e. e.key ≢ []) entries
        × (set_key_value 4 3 (some (codes "d")) (some (codes "xyz")) entries
            ≡ (length entries, entries)))
set_key_value-IsUpdate_example =
    set_key_value-IsUpdate 4 3 (codes "d") (codes "xyz") entries (omega arith) (λ e. cc)
      (ground arith)

-- The iterator leaves out a free entry, and a value can be set by its index.
iterator_runs :
    ((iterator_next entries 1).1 ≡ 3)
    × ((iterator_next entries 3).0 ≡ none)
    × (set_value_at_index 4 3 2
          (codes "xyz")
          (idle ∷ idle ∷ record { key = codes "k"; value = [] } ∷ [])
        ≡ idle ∷ idle ∷ record { key = codes "k"; value = codes "xy" } ∷ [])
unfolding iterator_next next_from is_active set_value_at_index
iterator_runs = (refl, refl, refl)

iterate-active_entries_example :
    (iterate 4 entries 0 ≡ active_entries entries)
    × (length (iterate 4 entries 0) ≡ get_count entries)
iterate-active_entries_example = iterate-active_entries entries

entries-IsUnique : IsUnique entries
unfolding IsUnique
entries-IsUnique = (
  (λ h.
      lookup-later 4 3 (codes "a") idle (record { key = codes "bc"; value = codes "2" } ∷ [])
        (λ e. cc)
      ∙ lookup-later 4 3 (codes "a") (record { key = codes "bc"; value = codes "2" }) [] (λ e. cc)
      ∙ unfold lookup in refl),
  ((λ h. absurd (h refl)), ((λ h. unfold lookup in refl), tt)),
)

remove_key-IsRemoved_example :
    IsRemoved (codes "a") entries (remove_key 4 3 (some (codes "a")) entries).1
remove_key-IsRemoved_example =
    remove_key-IsRemoved 4 3 (codes "a") (omega arith) (λ e. cc) entries (ground arith)
      entries-IsUnique

abbrev calls : List Call
calls =
    set_value (codes "a") (codes "1")
    ∷ set_value (codes "b") (codes "2")
    ∷ remove (codes "a")
    ∷ set_value (codes "b") (codes "3")
    ∷ []

run-IsUnique_example :
    All (IsFitting 4) (run 4 3 calls (replicate 2 removed))
    × IsUnique (run 4 3 calls (replicate 2 removed))
run-IsUnique_example = run-IsUnique 4 3 2 calls (omega arith) (
  ((λ e. cc), omega arith),
  (((λ e. cc), omega arith), (((λ e. cc), omega arith), (((λ e. cc), omega arith), tt))),
)
