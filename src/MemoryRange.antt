-- ===== src/MemoryRange.antt =====
-- common/memory_range.h: `MemoryRange`, a pointer and a length. `word` is the number of bits of a
-- `size_t`; a pointer is an address, and the null pointer is 0.
pub mod Bounds
mod Runs
use native_crash2java.Base.{
  ℕ, ◌+◌, ◌*◌, ◌^◌, ◌%◌, Bool, ◌&&◌, leb, ltb, Option, none, some, if◌then◌else◌, ◌==◌,
}

pub record MemoryRange : Type 0 where
  pub data_ : ℕ
  pub length_ : ℕ

-- The default constructor, and `Reset`.
abbrev pub empty_range : MemoryRange
empty_range = record { data_ = 0; length_ = 0 }

unfoldable pub set : ℕ → ℕ → MemoryRange
set address length = record { data_ = address; length_ = if address == 0 then 0 else length }

unfoldable pub is_empty : MemoryRange → Bool
is_empty r = r.length_ == 0

module _ (word : ℕ) where
  abbrev pub size_add : ℕ → ℕ → ℕ
  size_add a b = (a + b) % 2 ^ word

  unfoldable pub covers : MemoryRange → ℕ → ℕ → Bool
  covers r sub_offset sub_length =
      ltb sub_offset r.length_
      && leb sub_offset (size_add sub_offset sub_length)
      && leb (size_add sub_offset sub_length) r.length_

  -- The outer `none` is the null pointer.
  unfoldable pub get_data : MemoryRange → ℕ → ℕ → Option ℕ
  get_data r sub_offset sub_length =
      if covers r sub_offset sub_length then some (size_add r.data_ sub_offset) else none

  unfoldable pub get_array_element : MemoryRange → ℕ → ℕ → ℕ → Option ℕ
  unfolding get_data
  get_array_element r element_offset element_size element_index =
      get_data r (size_add element_offset (element_index * element_size)) element_size

  unfoldable pub subrange : MemoryRange → ℕ → ℕ → MemoryRange
  unfolding covers
  subrange r sub_offset sub_length =
      if covers r sub_offset sub_length
      then set (size_add r.data_ sub_offset) sub_length
      else empty_range
