-- ===== src/LongDictionary/Runs.antt =====
-- Tests and examples of the dictionary of long strings.
use native_crash2java.Base.{
  ℕ, zero, suc, ◌∙◌, ◌≡◌, refl, ◌≢◌, false, List, [], none, some, arith, replicate,
}
use native_crash2java.Base.Codes.{codes}
use native_crash2java.Dictionary.{
  Entry, is_active, strncmp_equal, free_index, entry_index, get_value_for_key, remove_at_index,
  remove_key, put, set_key_value,
}
use native_crash2java.Dictionary.Entries.{lookup, lookup-later}
use native_crash2java.LongDictionary.{
  set_segments, remove_segments, long_remove_key, long_put, long_set_key_value, get_segments,
  long_get_value_for_key,
}
use native_crash2java.LongDictionary.Segments.{HasRoom, idle_count}
use native_crash2java.LongDictionary.RoundTrip.{long_get_value_for_key-set}

abbrev empty : List Entry
empty = replicate 10 (record { key = []; value = [] })

-- A value of five characters in arrays of three bytes, replaced by a short one.
long_dictionary_runs :
    (long_get_value_for_key 8 3
        (some (codes "k"))
        (long_set_key_value 8 3 (some (codes "k")) (some (codes "abcde")) empty)
      ≡ codes "abcde")
    × (get_value_for_key 8 3
          (codes "k__3")
          (long_set_key_value 8 3 (some (codes "k")) (some (codes "abcde")) empty)
        ≡ some (codes "e"))
    × (long_set_key_value 8 3
          (some (codes "k"))
          none
          (long_set_key_value 8 3 (some (codes "k")) (some (codes "abcde")) empty)
        ≡ empty)
    × ((long_remove_key 8 3 (some (codes "k")) empty).0 ≡ false)
unfolding long_get_value_for_key long_set_key_value long_remove_key long_put set_segments
    remove_segments get_segments get_value_for_key set_key_value put remove_key remove_at_index
    entry_index free_index strncmp_equal is_active
long_dictionary_runs = (refl, refl, refl, refl)

empty-HasRoom : HasRoom 8 10 empty
unfolding idle_count is_active
empty-HasRoom = record { fitting = ground arith; room = omega arith }

nothing_there :
    (n : ℕ) (key : List ℕ)
    → key ≢ []
    → lookup key (replicate n (record { key = []; value = [] })) ≡ none
nothing_there zero key h = unfold lookup in refl
nothing_there (suc n) key h =
    lookup-later 8 3 key (record { key = []; value = [] })
      (replicate n (record { key = []; value = [] })) h
    ∙ nothing_there n key h

long_get_value_for_key-set_example :
    long_get_value_for_key 8 3
      (some (codes "k"))
      (long_set_key_value 8 3 (some (codes "k")) (some (codes "abcde")) empty)
    ≡ codes "abcde"
long_get_value_for_key-set_example =
    long_get_value_for_key-set 8 3 (codes "k") (codes "abcde") empty (λ e. cc) (omega arith)
      (omega arith) (nothing_there 10 (codes "k") (λ e. cc))
      (
        (nothing_there 10 (codes "k__1") (λ e. cc), omega arith),
        (
          (nothing_there 10 (codes "k__2") (λ e. cc), omega arith),
          (
            (nothing_there 10 (codes "k__3") (λ e. cc), omega arith),
            (
              (nothing_there 10 (codes "k__4") (λ e. cc), omega arith),
              (
                (nothing_there 10 (codes "k__5") (λ e. cc), omega arith),
                (
                  (nothing_there 10 (codes "k__6") (λ e. cc), omega arith),
                  (
                    (nothing_there 10 (codes "k__7") (λ e. cc), omega arith),
                    (
                      (nothing_there 10 (codes "k__8") (λ e. cc), omega arith),
                      (
                        (nothing_there 10 (codes "k__9") (λ e. cc), omega arith),
                        ((nothing_there 10 (codes "k__10") (λ e. cc), omega arith), tt),
                      ),
                    ),
                  ),
                ),
              ),
            ),
          ),
        ),
      )
      empty-HasRoom (omega arith)
