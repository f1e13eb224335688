-- ===== src/Dictionary/Kept.antt =====
-- What `SetKeyValue` writes: at most one entry, whose key fits.
use native_crash2java.Base.{
  ℕ, zero, suc, ◌-◌, ◌<◌, ◌≡◌, ◌⊎◌, inl, inr, ◌==◌, List, [], ◌∷◌, some, length, take, get_elem?,
  set, arith, All, ap, sym, subst⁻¹, Bool-cases, length-take,
}
use native_crash2java.Dictionary.{Entry, free_index, entry_index, copied, put}
use native_crash2java.Dictionary.Entries.{IsFitting}
use native_crash2java.Dictionary.Lookup.{put-found, put-free, put-full, found-IsUpdate}

pub All-set :
    (P : Entry → Type 0) (es : List Entry) (i : ℕ) (e : Entry) → All P es → P e → All P (set es i e)
All-set P [] i e h p = tt
All-set P (x ∷ es) zero e h p = (p, h.1)
All-set P (x ∷ es) (suc i) e h p = (h.0, All-set P es i e h.1 p)

pub All-get :
    (P : Entry → Type 0) (es : List Entry) (i : ℕ) (e : Entry)
    → All P es
    → get_elem? es i ≡ some e
    → P e
All-get P [] i e h got = cc
All-get P (x ∷ es) zero e h got = let same : x ≡ e = cc in subst⁻¹ P (sym same) h.0
All-get P (x ∷ es) (suc i) e h got = All-get P es i e h.1 got

module _ (key_size value_size : ℕ) (key value : List ℕ) (es : List Entry)
    (fits : length key < key_size) where
  pub put-set :
      All (IsFitting key_size) es
      → ((put key_size value_size key value es).1 ≡ es)
        ⊎ ((i : ℕ) × (e : Entry) × ((put key_size value_size key value es).1 ≡ set es i e)
            × (length e.key < key_size))
  put-set f = elim (Bool-cases (entry_index key_size value_size key es == length es)) [
    | inr found ↦
        let (e, got, update) = found-IsUpdate key_size value_size key value fits es f found in
        inr (
          entry_index key_size value_size key es,
          record e { value = copied key_size value_size value_size value },
          put-found key_size value_size key value es e found got,
          All-get (IsFitting key_size) es (entry_index key_size value_size key es) e f got,
        )
    | inl missing ↦ elim (Bool-cases (free_index es == length es)) [
      | inl full ↦ inl (ap (λ r. r.1) (put-full key_size value_size key value es missing full))
      | inr free ↦ inr (
        free_index es,
        record {
          key = copied key_size value_size key_size key;
          value = copied key_size value_size value_size value;
        },
        put-free key_size value_size key value es missing free,
        (let t : length (take (key_size - 1) key) < key_size =
              (let a = length-take (key_size - 1) key in omega arith) in
            t),
      )
    ]
  ]
