-- ===== src/Dictionary.antt =====
-- common/simple_string_dictionary.h: `NonAllocatingMap`, an array of pairs of strings of a fixed size.
-- A `char` array is the C string that it holds, and an argument is the text that it points to.
pub mod Entries
pub mod Lookup
pub mod Kept
pub mod Removal
pub mod Invariant
pub mod Iteration
mod Runs
use native_crash2java.Base.{
  ℕ, zero, suc, ◌+◌, ◌-◌, Bool, true, false, ◌&&◌, not, leb, ◌==◌, List, [], ◌∷◌, Option, none,
  some, if◌then◌else◌, length, take, drop, get_elem?, set,
}

-- `Entry`
pub record Entry : Type 0 where
  pub key : List ℕ
  pub value : List ℕ

unfoldable pub is_active : List ℕ → Bool
is_active [] = false
is_active (c ∷ key) = true

-- `strncmp(a, b, n) == 0`
unfoldable pub strncmp_equal : ℕ → List ℕ → List ℕ → Bool
strncmp_equal zero a b = true
strncmp_equal (suc n) [] [] = true
strncmp_equal (suc n) [] (y ∷ b) = false
strncmp_equal (suc n) (x ∷ a) [] = false
strncmp_equal (suc n) (x ∷ a) (y ∷ b) = (x == y) && strncmp_equal n a b

-- `GetCount`
unfoldable pub get_count : List Entry → ℕ
get_count [] = 0
get_count (e ∷ entries) = if is_active e.key then suc (get_count entries) else get_count entries

-- The first entry that is not active, or the number of entries.
unfoldable pub free_index : List Entry → ℕ
unfolding is_active
free_index [] = 0
free_index (e ∷ entries) = if is_active e.key then suc (free_index entries) else 0

module _ (key_size value_size : ℕ) where
  -- `GetEntryIndexForKey`
  unfoldable pub entry_index : List ℕ → List Entry → ℕ
  unfolding strncmp_equal
  entry_index key [] = 0
  entry_index key (e ∷ entries) =
      if strncmp_equal key_size key e.key then 0 else suc (entry_index key entries)

  -- `strncpy` into an array of `size` bytes whose last one is set to NUL.
  abbrev pub copied : ℕ → List ℕ → List ℕ
  copied size text = take (size - 1) text

  abbrev pub value_of : Option Entry → Option (List ℕ)
  value_of none = none
  value_of (some e) = some e.value

  unfoldable pub get_value_for_key : List ℕ → List Entry → Option (List ℕ)
  get_value_for_key key entries =
      let index = entry_index key entries in
      if index == length entries then none else value_of (get_elem? entries index)

  -- `RemoveAtIndex`
  unfoldable pub remove_at_index : ℕ → List Entry → Bool × List Entry
  remove_at_index index entries =
      if leb (length entries) index
      then (false, entries)
      else (true, set entries index (record { key = []; value = [] }))

  unfoldable pub remove_key : Option (List ℕ) → List Entry → Bool × List Entry
  unfolding remove_at_index
  remove_key none entries = (false, entries)
  remove_key (some key) entries = remove_at_index (entry_index key entries) entries

  -- Writing the value of an entry that is there.
  abbrev pub write_value : List ℕ → ℕ → Option Entry → List Entry → List Entry
  write_value value index none entries = entries
  write_value value index (some e) entries =
      set entries index (record e { value = copied value_size value })

  -- `SetKeyValue` behind its tests: the key is there, or it goes to a free entry if there is one.
  unfoldable pub put : List ℕ → List ℕ → List Entry → ℕ × List Entry
  put key value entries =
      let found = entry_index key entries in
      let free = free_index entries in
      if not (found == length entries)
      then (found, write_value value found (get_elem? entries found) entries)
      else if free == length entries
      then (length entries, entries)
      else (
        free,
        set entries free (record { key = copied key_size key; value = copied value_size value }),
      )

  unfoldable pub set_key_value : Option (List ℕ) → Option (List ℕ) → List Entry → ℕ × List Entry
  unfolding remove_key put
  set_key_value key none entries = (length entries, (remove_key key entries).1)
  set_key_value none (some value) entries = (length entries, entries)
  set_key_value (some key) (some value) entries =
      if is_active key then put key value entries else (length entries, entries)

  -- `SetValueAtIndex`
  unfoldable pub set_value_at_index : ℕ → List ℕ → List Entry → List Entry
  set_value_at_index index value entries =
      if leb (length entries) index
      then entries
      else write_value value index (get_elem? entries index) entries

-- `Iterator::Next` from the entries on that begin at `current`: the entry, or `none` for NULL, and the
-- new `current_`.
unfoldable pub next_from : ℕ → List Entry → Option Entry × ℕ
unfolding is_active
next_from current [] = (none, current)
next_from current (e ∷ entries) =
    let rest = next_from (suc current) entries in
    if is_active e.key then (some e, suc current) else rest

unfoldable pub iterator_next : List Entry → ℕ → Option Entry × ℕ
unfolding next_from
iterator_next entries current = next_from current (drop current entries)
