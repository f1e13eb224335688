-- ===== src/LongDictionary/Segments.antt =====
-- What `SetKeyValue` of the dictionary of fixed size keeps: the keys fit, and at most one entry less is
-- free.
use native_crash2java.Base.{
  ℕ, zero, suc, ◌≤◌, ◌<◌, ◌≢◌, inl, inr, List, [], ◌∷◌, some, if◌then◌else◌, length, set, arith,
  All, subst⁻¹, Bool-cases,
}
use native_crash2java.Dictionary.{Entry, is_active, free_index, copied, set_key_value}
use native_crash2java.Dictionary.Entries.{IsFitting}
use native_crash2java.Dictionary.Lookup.{IsUpdate, active-cons, set_key_value-cases}
use native_crash2java.Dictionary.Kept.{All-set, put-set}

-- The entries that are free.
unfoldable pub idle_count : List Entry → ℕ
unfolding is_active
idle_count [] = 0
idle_count (e ∷ es) = let rest = idle_count es in if is_active e.key then rest else suc rest

idle_count-free : (es : List Entry) → 0 < idle_count es → free_index es < length es
unfolding idle_count free_index
idle_count-free [] h = absurd (omega arith)
idle_count-free (e ∷ es) h =
    let later : 0 < idle_count es → free_index es < length es = idle_count-free es in
    elim (Bool-cases (is_active e.key)) [
      | inl active ↦
          let some_later : 0 < idle_count es = simp active at h in
          let l : free_index es < length es = later some_later in simp active (omega arith)
      | inr idle ↦ simp idle (omega arith)
    ]

idle_count-set :
    (es : List Entry) (i : ℕ) (e : Entry) → idle_count es ≤ suc (idle_count (set es i e))
unfolding idle_count
idle_count-set [] i e = omega arith
idle_count-set (x ∷ es) zero e = ground arith
idle_count-set (x ∷ es) (suc i) e =
    let l : idle_count es ≤ suc (idle_count (set es i e)) = idle_count-set es i e in ground arith

-- The keys fit, and there is room for this many more.
pub record HasRoom (key_size n : ℕ) (es : List Entry) : Type 0 where
  pub fitting : All (IsFitting key_size) es
  pub room : n ≤ idle_count es

module _ (key_size value_size : ℕ) (key value : List ℕ) (es : List Entry)
    (fits : length key < key_size) where
  pub set_key_value-HasRoom :
      (n : ℕ)
      → key ≢ []
      → HasRoom key_size (suc n) es
      → HasRoom key_size n (set_key_value key_size value_size (some key) (some value) es).1
  unfolding set_key_value
  set_key_value-HasRoom n nonempty h =
      rw (active-cons key nonempty)
        (elim (put-set key_size value_size key value es fits h.fitting) [
          | inl same ↦ subst⁻¹ (HasRoom key_size n) same (record {
            fitting = h.fitting;
            room = (let r : suc n ≤ idle_count es = h.room in omega arith);
          })
          | inr (i, e, same, short) ↦ subst⁻¹ (HasRoom key_size n) same (record {
            fitting = All-set (IsFitting key_size) es i e h.fitting short;
            room =
                (let r : suc n ≤ idle_count es = h.room in
                  let l : idle_count es ≤ suc (idle_count (set es i e)) = idle_count-set es i e in
                  omega arith);
          })
        ])

  -- Where there is room, the value belongs to the key.
  pub set_key_value-updates :
      (n : ℕ)
      → key ≢ []
      → HasRoom key_size (suc n) es
      → IsUpdate key
          (copied key_size value_size value_size value)
          es
          (set_key_value key_size value_size (some key) (some value) es).1
  set_key_value-updates n nonempty h =
      elim (set_key_value-cases key_size value_size key value es fits nonempty h.fitting) [
        | inl update ↦ update
        | inr (gone, full, same) ↦ absurd (
            let r : suc n ≤ idle_count es = h.room in
            let l : free_index es < length es = idle_count-free es (omega arith) in omega arith)
      ]
