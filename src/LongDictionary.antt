-- ===== src/LongDictionary.antt =====
-- common/long_string_dictionary.cc: `LongStringDictionary`, which keeps a long value in segments, each
-- under the key with a suffix. The buffer of a key with its suffix is the text in it: the source
-- asserts that it is long enough.
pub mod Segments
pub mod Stored
pub mod RoundTrip
mod Runs
use native_crash2java.Base.{
  ℕ, zero, suc, ◌-◌, Bool, true, false, leb, List, [], ◌∷◌, ◌++◌, Option, none, some, if◌then◌else◌,
  length, take, drop,
}
use native_crash2java.Base.Codes.{codes}
use native_crash2java.Dictionary.{Entry, is_active, get_value_for_key, remove_key, set_key_value}

-- `kSuffixes`
abbrev pub suffixes : List (List ℕ)
suffixes =
    codes "__1"
    ∷ codes "__2"
    ∷ codes "__3"
    ∷ codes "__4"
    ∷ codes "__5"
    ∷ codes "__6"
    ∷ codes "__7"
    ∷ codes "__8"
    ∷ codes "__9"
    ∷ codes "__10"
    ∷ []

module _ (key_size value_size : ℕ) where
  -- The loop of `SetKeyValue` over the suffixes, with the rest of the value.
  unfoldable pub set_segments : List ℕ → List (List ℕ) → List ℕ → List Entry → List Entry
  set_segments key [] value entries = entries
  set_segments key (s ∷ ss) [] entries = entries
  set_segments key (s ∷ ss) (c ∷ value) entries =
      set_segments key ss (drop (value_size - 1) (c ∷ value))
        (set_key_value key_size value_size (some (key ++ s))
          (some (take (value_size - 1) (c ∷ value))) entries).1

  -- The loop of `RemoveKey`, up to the first segment that is not there: whether there was one.
  unfoldable pub remove_segments : List ℕ → List (List ℕ) → List Entry → Bool × List Entry
  remove_segments key [] entries = (false, entries)
  remove_segments key (s ∷ ss) entries =
      let (removed, entries') = remove_key key_size value_size (some (key ++ s)) entries in
      let (more, entries'') = remove_segments key ss entries' in
      if removed then (true, entries'') else (false, entries')

  abbrev pub remove_whole : List ℕ → Bool × List Entry → Bool × List Entry
  remove_whole key (true, entries) = (true, entries)
  remove_whole key (false, entries) = remove_segments key suffixes entries

  -- `RemoveKey`
  unfoldable pub long_remove_key : Option (List ℕ) → List Entry → Bool × List Entry
  long_remove_key none entries = (false, entries)
  long_remove_key (some key) entries =
      remove_whole key (remove_key key_size value_size (some key) entries)

  -- `SetKeyValue` behind the removal of the key.
  unfoldable pub long_put : List ℕ → List ℕ → List Entry → List Entry
  unfolding set_segments
  long_put key value entries =
      if leb (length value) (value_size - 1)
      then (set_key_value key_size value_size (some key) (some value) entries).1
      else set_segments key suffixes value entries

  -- `SetKeyValue`
  unfoldable pub long_set_key_value : Option (List ℕ) → Option (List ℕ) → List Entry → List Entry
  unfolding long_remove_key long_put
  long_set_key_value none value entries = entries
  long_set_key_value (some key) none entries = (long_remove_key (some key) entries).1
  long_set_key_value (some key) (some value) entries =
      let removed : List Entry = (long_remove_key (some key) entries).1 in
      if is_active key then long_put key value removed else removed

  abbrev pub append_segment : Option (List ℕ) → List ℕ → List ℕ
  append_segment none later = []
  append_segment (some segment) later = segment ++ later

  -- The loop of `GetValueForKey`: nothing is found where the first segment is not there.
  unfoldable pub get_segments : List ℕ → List (List ℕ) → List Entry → List ℕ
  get_segments key [] entries = []
  get_segments key (s ∷ ss) entries =
      append_segment (get_value_for_key key_size value_size (key ++ s) entries)
        (get_segments key ss entries)

  abbrev pub or_segments : List ℕ → List Entry → Option (List ℕ) → List ℕ
  or_segments key entries none = get_segments key suffixes entries
  or_segments key entries (some value) = value

  -- `GetValueForKey`
  unfoldable pub long_get_value_for_key : Option (List ℕ) → List Entry → List ℕ
  unfolding get_segments
  long_get_value_for_key none entries = []
  long_get_value_for_key (some key) entries =
      if is_active key
      then or_segments key entries (get_value_for_key key_size value_size key entries)
      else []
