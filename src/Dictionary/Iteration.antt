-- ===== src/Dictionary/Iteration.antt =====
-- A loop over the iterator.
use native_crash2java.Base.{
  ℕ, zero, suc, ◌+◌, ◌-◌, ◌<◌, ◌≡◌, refl, ◌⊎◌, inl, inr, if◌then◌else◌, List, [], ◌∷◌, Option, none,
  some, length, drop, arith, ap, ◌∙◌, sym, Bool-cases, length-drop,
}
use native_crash2java.Dictionary.{Entry, is_active, get_count, next_from, iterator_next}

-- The entries that are active, in their order.
unfoldable pub active_entries : List Entry → List Entry
unfolding is_active
active_entries [] = []
active_entries (e ∷ es) = let rest = active_entries es in if is_active e.key then e ∷ rest else rest

abbrev on_next : (ℕ → List Entry) → Option Entry × ℕ → List Entry
on_next later (none, current) = []
on_next later (some e, current) = e ∷ later current

-- What a loop that calls `Next` until it returns NULL gets, in so many rounds.
unfoldable pub iterate : ℕ → List Entry → ℕ → List Entry
iterate zero entries current = []
iterate (suc rounds) entries current =
    on_next (iterate rounds entries) (iterator_next entries current)

next_from-cases :
    (current : ℕ) (es : List Entry)
    → (((next_from current es).0 ≡ none) × (active_entries es ≡ []))
      ⊎ ((e : Entry) × (j : ℕ) × (next_from current es ≡ (some e, current + suc j))
          × (active_entries es ≡ e ∷ active_entries (drop (suc j) es))
          × (j < length es))
unfolding next_from active_entries
next_from-cases current [] = inl (refl, refl)
next_from-cases current (x ∷ es) = elim (Bool-cases (is_active x.key)) [
  | inl active ↦ inr (
    x,
    0,
    simp active (ap (λ n. (some x, n)) (let t : suc current ≡ current + 1 = omega arith in t)),
    simp active refl,
    omega arith,
  )
  | inr idle ↦ elim (next_from-cases (suc current) es) [
    | inl (over, nothing) ↦ inl (simp idle over, simp idle nothing)
    | inr (e, j, next, rest, inside) ↦ inr (
      e,
      suc j,
      simp idle (
          next
          ∙ ap (λ n. (some e, n))
              (let t : suc current + suc j ≡ current + suc (suc j) = omega arith in t)),
      simp idle rest,
      omega arith,
    )
  ]
]

drop-drop : (m n : ℕ) (es : List Entry) → drop n (drop m es) ≡ drop (m + n) es
drop-drop zero n es = ap (λ k. drop k es) (let t : n ≡ 0 + n = omega arith in t)
drop-drop (suc m) zero [] = ap (λ k. drop k []) (let t : suc m ≡ suc m + 0 = omega arith in t)
drop-drop (suc m) (suc n) [] =
    ap (λ k. drop k []) (let t : suc (m + suc n) ≡ suc m + suc n = omega arith in t)
drop-drop (suc m) n (e ∷ es) =
    drop-drop m n es
    ∙ ap (λ k. drop k (e ∷ es)) (let t : suc (m + n) ≡ suc m + n = omega arith in t)

none-end : (later : ℕ → List Entry) (r : Option Entry × ℕ) → r.0 ≡ none → on_next later r ≡ []
none-end later (none, current) e = refl
none-end later (some x, current) e = cc

iterate-drop :
    (rounds : ℕ) (es : List Entry) (current : ℕ)
    → length es - current < rounds
    → iterate rounds es current ≡ active_entries (drop current es)
unfolding iterate iterator_next
iterate-drop zero es current h = absurd (omega arith)
iterate-drop (suc rounds) es current h = elim (next_from-cases current (drop current es)) [
  | inl (over, nothing) ↦
      none-end (iterate rounds es) (next_from current (drop current es)) over ∙ sym nothing
  | inr (e, j, next, rest, inside) ↦
      let l : length (drop current es) ≡ length es - current = length-drop current es in
      ap (on_next (iterate rounds es)) next
      ∙ ap (◌∷◌ e) (
          iterate-drop rounds es (current + suc j) (omega arith)
          ∙ ap active_entries (sym (drop-drop current (suc j) es)))
      ∙ sym rest
]

get_count-active : (es : List Entry) → length (active_entries es) ≡ get_count es
unfolding active_entries get_count
get_count-active [] = refl
get_count-active (e ∷ es) =
    let rest : length (active_entries es) ≡ get_count es = get_count-active es in ground arith

-- A loop that calls `Next` of a new iterator until it returns NULL gets each active entry once, in the
-- order of the array, in at most one round more than the array has entries; `GetCount` is their number.
pub iterate-active_entries :
    (es : List Entry)
    → (iterate (suc (length es)) es 0 ≡ active_entries es)
      × (length (iterate (suc (length es)) es 0) ≡ get_count es)
iterate-active_entries es =
    let all_of_them : iterate (suc (length es)) es 0 ≡ active_entries es =
      iterate-drop (suc (length es)) es 0 (omega arith) in
    (all_of_them, ap length all_of_them ∙ get_count-active es)
