-- ===== src/MemoryRange/Runs.antt =====
-- Tests and examples of `MemoryRange`.
use native_crash2java.Base.{ℕ, ◌≤◌, ◌<◌, ◌≡◌, refl, ◌↔◌, true, false, some, arith}
use native_crash2java.MemoryRange.{
  MemoryRange, empty_range, set, is_empty, covers, get_data, get_array_element,
}
use native_crash2java.MemoryRange.Bounds.{IsRange, covers-bounds, get_data-bounds}

abbrev stack : MemoryRange
stack = record { data_ = 4096; length_ = 100 }

stack-IsRange : IsRange 32 stack
stack-IsRange = record { fits = omega arith; nonnull = omega arith }

-- The last subrange wraps.
covers_runs :
    (covers 32 stack 90 10 ≡ true)
    × (covers 32 stack 90 11 ≡ false)
    × (covers 32 stack 100 0 ≡ false)
    × (covers 32 stack 90 4294967290 ≡ false)
unfolding covers
covers_runs = (refl, refl, refl, refl)

-- The offset of an element that lies far outside wraps to one within the range.
element_wraps_inside : get_array_element 32 stack 4 64 67108864 ≡ some 4100
unfolding get_array_element get_data covers
element_wraps_inside = refl

set_runs : (set 0 7 ≡ empty_range) × (is_empty (set 0 7) ≡ true)
unfolding set is_empty
set_runs = (refl, refl)

covers-bounds_example : (covers 32 stack 90 10 ≡ true) ↔ ((90 < 100) × (100 ≤ 100))
covers-bounds_example = covers-bounds 32 stack 90 10 stack-IsRange (omega arith)

get_data-bounds_example :
    (get_data 32 stack 90 10 ≡ some 4186) ↔ ((90 < 100) × (100 ≤ 100) × (◌≡◌ {A = ℕ} 4186 4186))
get_data-bounds_example = get_data-bounds 32 stack 90 10 stack-IsRange (omega arith) 4186
