-- ===== src/MemoryRange/Bounds.antt =====
-- What `Covers` and `Subrange` promise, where `size_t` wraps.
use native.Mathlib.Nat.{mod-eq_of_lt, add-mod_right}
use native_crash2java.Base.{
  ℕ, ◌+◌, ◌-◌, ◌*◌, ◌^◌, ◌%◌, ◌≤◌, ◌<◌, ◌≡◌, ◌↔◌, true, some, arith, ◌⊎◌, inl, inr, dec_lt,
  Bool-cases, ◌∙◌, ap, sym,
}
use native_crash2java.MemoryRange.{
  MemoryRange, empty_range, set, covers, get_data, get_array_element, subrange,
}

-- A sum of two words is the sum of the numbers, or wraps below both of them.
sum-cases :
    (n a b : ℕ)
    → a < n
    → b < n
    → ((a + b < n) × ((a + b) % n ≡ a + b)) ⊎ ((n ≤ a + b) × ((a + b) % n + n ≡ a + b))
sum-cases n a b ha hb = elim (dec_lt (a + b) n) [
  | yes h ↦ inl (h, mod-eq_of_lt h)
  | no h ↦
      let rest : ℕ = a + b - n in
      let small : rest < n = omega arith in
      let e : rest + n ≡ a + b = omega arith in
      let wrapped : (rest + n) % n ≡ rest = add-mod_right rest n ∙ mod-eq_of_lt small in
      let total : (a + b) % n ≡ rest = sym (ap (λ m. m % n) e) ∙ wrapped in
      inr (omega arith, omega (arith, total, e))
]

-- The memory of the range ends within the address space, and is not at the null pointer.
pub record IsRange (word : ℕ) (r : MemoryRange) : Type 0 where
  pub fits : r.data_ + r.length_ < 2 ^ word
  pub nonnull : 0 < r.data_

-- In spite of the wrap-around, `Covers` accepts a subrange exactly if it starts within the range and
-- ends there as a sum of numbers.
pub covers-bounds :
    (word : ℕ) (r : MemoryRange) (sub_offset sub_length : ℕ)
    → IsRange word r
    → sub_length < 2 ^ word
    → (covers word r sub_offset sub_length ≡ true)
      ↔ ((sub_offset < r.length_) × (sub_offset + sub_length ≤ r.length_))
unfolding covers
covers-bounds word r sub_offset sub_length h small = (
  (λ c.
      let inside : sub_offset < r.length_ = ground arith in
      elim (sum-cases (2 ^ word) sub_offset sub_length (omega (arith, h.fits)) small) [
        | inl (_, e) ↦ ground arith
        | inr (_, e) ↦ ground arith
      ]),
  (λ (inside, ends).
      let e : (sub_offset + sub_length) % 2 ^ word ≡ sub_offset + sub_length =
        mod-eq_of_lt (omega (arith, h.fits)) in
      ground arith),
)

module _ (word : ℕ) (r : MemoryRange) (sub_offset sub_length : ℕ) (h : IsRange word r)
    (small : sub_length < 2 ^ word) where
  start-fits : sub_offset < r.length_ → (r.data_ + sub_offset) % 2 ^ word ≡ r.data_ + sub_offset
  start-fits inside = mod-eq_of_lt (omega (arith, h.fits))

  -- `GetData` gives the address of a subrange exactly if the subrange lies in the range.
  pub get_data-bounds :
      (p : ℕ)
      → (get_data word r sub_offset sub_length ≡ some p) ↔ (
          (sub_offset < r.length_)
          × (sub_offset + sub_length ≤ r.length_)
          × (p ≡ r.data_ + sub_offset))
  unfolding get_data
  get_data-bounds p = (
    (λ e.
        let ok : covers word r sub_offset sub_length ≡ true = ground arith in
        let (inside, ends) = (covers-bounds word r sub_offset sub_length h small).0 ok in
        let start : (r.data_ + sub_offset) % 2 ^ word ≡ r.data_ + sub_offset = start-fits inside in
        ground arith),
    (λ (inside, ends, at_p).
        let ok : covers word r sub_offset sub_length ≡ true =
          (covers-bounds word r sub_offset sub_length h small).1 (inside, ends) in
        let start : (r.data_ + sub_offset) % 2 ^ word ≡ r.data_ + sub_offset = start-fits inside in
        ground arith),
  )

  -- A subrange is empty or a range of its own, which lies in the one that it is taken from.
  pub subrange-within :
      (subrange word r sub_offset sub_length ≡ empty_range)
      ⊎ ((subrange word r sub_offset sub_length
            ≡ record { data_ = r.data_ + sub_offset; length_ = sub_length })
          × (sub_offset + sub_length ≤ r.length_)
          × (r.data_ + sub_offset + sub_length < 2 ^ word))
  unfolding subrange set
  subrange-within = elim (Bool-cases (covers word r sub_offset sub_length)) [
    | inl ok ↦
        let (inside, ends) = (covers-bounds word r sub_offset sub_length h small).0 ok in
        let start : (r.data_ + sub_offset) % 2 ^ word ≡ r.data_ + sub_offset = start-fits inside in
        let nonnull : 0 < r.data_ = h.nonnull in inr (ground arith, ends, omega (arith, h.fits))
    | inr e ↦ inl (ground arith)
  ]

-- `GetArrayElement` gives the address of an element exactly if the element lies in the range, as long
-- as the offset of its end does not wrap.
pub get_array_element-bounds :
    (word : ℕ) (r : MemoryRange) (element_offset element_size element_index p : ℕ)
    → IsRange word r
    → element_offset + element_index * element_size + element_size < 2 ^ word
    → (get_array_element word r element_offset element_size element_index ≡ some p) ↔ (
        (element_offset + element_index * element_size < r.length_)
        × (element_offset + element_index * element_size + element_size ≤ r.length_)
        × (p ≡ r.data_ + (element_offset + element_index * element_size)))
unfolding get_array_element
get_array_element-bounds word r element_offset element_size element_index p h fits =
    let sum : ℕ = element_offset + element_index * element_size in
    let start : sum % 2 ^ word ≡ sum = mod-eq_of_lt (omega arith) in
    rw start (get_data-bounds word r sum element_size h (omega arith) p)
