-- ===== src/Dictionary/Entries.antt =====
-- The entries as an association list: what `GetValueForKey` finds, and where.
use mathlib.Core.List.{List-discrete}
use native_crash2java.Base.{
  ℕ, zero, suc, ◌<◌, ◌≡◌, refl, ◌≢◌, ◌⊎◌, inl, inr, true, false, ◌==◌, List, [], ◌∷◌, Option, none,
  some, length, arith, All, ap, ap₂, ◌∙◌, sym, Bool-cases, ℕ_discrete,
}
use native_crash2java.Dictionary.{Entry, strncmp_equal, entry_index, get_value_for_key}

pub strncmp_equal_refl : (n : ℕ) (a : List ℕ) → strncmp_equal n a a ≡ true
unfolding strncmp_equal
strncmp_equal_refl zero a = refl
strncmp_equal_refl (suc n) [] = refl
strncmp_equal_refl (suc n) (x ∷ a) = ground (arith, strncmp_equal_refl n a)

-- Texts that are shorter than the limit are equal if `strncmp` finds no difference.
pub strncmp_equal-eq :
    (n : ℕ) (a b : List ℕ) → length a < n → length b < n → strncmp_equal n a b ≡ true → a ≡ b
unfolding strncmp_equal
strncmp_equal-eq zero a b h k e = absurd (omega arith)
strncmp_equal-eq (suc n) [] [] h k e = refl
strncmp_equal-eq (suc n) [] (y ∷ b) h k e = ground arith
strncmp_equal-eq (suc n) (x ∷ a) [] h k e = ground arith
strncmp_equal-eq (suc n) (x ∷ a) (y ∷ b) h k e =
    let same : x ≡ y = ground arith in
    let rest : strncmp_equal n a b ≡ true = ground arith in
    ap₂ ◌∷◌ same (strncmp_equal-eq n a b (omega arith) (omega arith) rest)

-- The value that belongs to a key in a list of pairs: the first one counts.
unfoldable pub lookup : List ℕ → List Entry → Option (List ℕ)
lookup key [] = none
lookup key (e ∷ entries) = elim (List-discrete ℕ_discrete key e.key) [
  | yes same ↦ some e.value
  | no other ↦ lookup key entries
]

pub zero-suc_equal : (n : ℕ) → (0 == suc n) ≡ false
zero-suc_equal n = ground arith

pub suc-suc_equal : (m n : ℕ) → (suc m == suc n) ≡ (m == n)
suc-suc_equal m n = elim (ℕ_discrete m n) [ yes e ↦ ground arith | no ne ↦ ground arith ]

-- The keys fit their arrays.
abbrev pub IsFitting : ℕ → Entry → Type 0
IsFitting key_size e = length e.key < key_size

module _ (key_size value_size : ℕ) where
  -- The result of the search for a key at the first entry.
  pub matches-cases :
      (key : List ℕ) (e : Entry)
      → length key < key_size
      → length e.key < key_size
      → ((key ≡ e.key) × (strncmp_equal key_size key e.key ≡ true))
        ⊎ ((key ≢ e.key) × (strncmp_equal key_size key e.key ≡ false))
  matches-cases key e h k = elim (Bool-cases (strncmp_equal key_size key e.key)) [
    | inl same ↦ inl (strncmp_equal-eq key_size key e.key h k same, same)
    | inr other ↦ inr (
      (λ same.
          let r : strncmp_equal key_size key key ≡ true = strncmp_equal_refl key_size key in
          let r' : strncmp_equal key_size key e.key ≡ true =
            ap (strncmp_equal key_size key) (sym same) ∙ r in
          ground arith),
      other,
    )
  ]

  pub lookup-here :
      (key : List ℕ) (e : Entry) (es : List Entry)
      → key ≡ e.key
      → lookup key (e ∷ es) ≡ some e.value
  unfolding lookup
  lookup-here key e es same =
      elim (List-discrete ℕ_discrete key e.key)
        as (λ d. (elim d [ yes x ↦ some e.value | no y ↦ lookup key es ]) ≡ some e.value) [
          | yes x ↦ refl
          | no other ↦ absurd (other same)
        ]

  pub lookup-later :
      (key : List ℕ) (e : Entry) (es : List Entry)
      → key ≢ e.key
      → lookup key (e ∷ es) ≡ lookup key es
  unfolding lookup
  lookup-later key e es other =
      elim (List-discrete ℕ_discrete key e.key)
        as (λ d. (elim d [ yes x ↦ some e.value | no y ↦ lookup key es ]) ≡ lookup key es) [
          | yes same ↦ absurd (other same)
          | no x ↦ refl
        ]

  pub index-here :
      (key : List ℕ) (e : Entry) (es : List Entry)
      → strncmp_equal key_size key e.key ≡ true
      → entry_index key_size value_size key (e ∷ es) ≡ 0
  unfolding entry_index
  index-here key e es same = ground arith

  pub index-later :
      (key : List ℕ) (e : Entry) (es : List Entry)
      → strncmp_equal key_size key e.key ≡ false
      → entry_index key_size value_size key (e ∷ es) ≡ suc (entry_index key_size value_size key es)
  unfolding entry_index
  index-later key e es other = ground arith

  -- `GetValueForKey` finds the value that belongs to the key.
  pub get_value_for_key-lookup :
      (key : List ℕ) (entries : List Entry)
      → length key < key_size
      → All (IsFitting key_size) entries
      → get_value_for_key key_size value_size key entries ≡ lookup key entries
  unfolding get_value_for_key
  get_value_for_key-lookup key [] h f = unfold lookup entry_index in refl
  get_value_for_key-lookup key (e ∷ es) h f = elim (matches-cases key e h f.0) [
    | inl (same, s) ↦
        rw (index-here key e es s, lookup-here key e es same, zero-suc_equal (length es)) refl
    | inr (other, s) ↦
        rw
          (
            index-later key e es s,
            lookup-later key e es other,
            suc-suc_equal (entry_index key_size value_size key es) (length es),
          )
          (get_value_for_key-lookup key es h f.1)
  ]
