-- ===== src/Base/Lists.antt =====
-- Lists measured and indexed by native numbers, under the library's names.
use Prim.Native.Nat.{ℕ, zero, suc, ◌+◌, ◌-◌, ◌≤◌, min}
use mathlib.Core.Path.{◌≡◌, refl, ap}
use mathlib.Core.List.{List, [], ◌∷◌, ◌++◌}
use mathlib.Core.Option.{Option, none, some}
use native.Mathlib.Omega.{arith}
use native_crash2java.Base.Tests.{ltb, if◌then◌else◌}

module _ {ℓ} {A : Type ℓ} where
  abbrev pub length : List A → ℕ
  length [] = 0
  length (x ∷ xs) = suc (length xs)

  abbrev pub get_elem? : List A → ℕ → Option A
  get_elem? [] i = none
  get_elem? (x ∷ xs) zero = some x
  get_elem? (x ∷ xs) (suc i) = get_elem? xs i

  abbrev pub set : List A → ℕ → A → List A
  set [] i v = []
  set (x ∷ xs) zero v = v ∷ xs
  set (x ∷ xs) (suc i) v = x ∷ set xs i v

  abbrev pub take : ℕ → List A → List A
  take zero xs = []
  take (suc n) [] = []
  take (suc n) (x ∷ xs) = x ∷ take n xs

  abbrev pub drop : ℕ → List A → List A
  drop zero xs = xs
  drop (suc n) [] = []
  drop (suc n) (x ∷ xs) = drop n xs

  abbrev pub replicate : ℕ → A → List A
  replicate zero a = []
  replicate (suc n) a = a ∷ replicate n a

  -- A predicate of every element; it computes to a tuple.
  abbrev pub All {κ} : (A → Type κ) → List A → Type κ
  All P [] = Unit {κ}
  All P (x ∷ xs) = P x × All P xs

module _ {ℓ} {A : Type ℓ} where
  pub length-append : (xs ys : List A) → length (xs ++ ys) ≡ length xs + length ys
  length-append [] ys = omega arith
  length-append (x ∷ xs) ys = omega (arith, length-append xs ys)

  pub length-set : (xs : List A) (i : ℕ) (v : A) → length (set xs i v) ≡ length xs
  length-set [] i v = refl
  length-set (x ∷ xs) zero v = refl
  length-set (x ∷ xs) (suc i) v = ap suc (length-set xs i v)

  pub length-take : (n : ℕ) (xs : List A) → length (take n xs) ≡ min n (length xs)
  length-take zero xs = omega arith
  length-take (suc n) [] = omega arith
  length-take (suc n) (x ∷ xs) = omega (arith, length-take n xs)

  pub length-drop : (n : ℕ) (xs : List A) → length (drop n xs) ≡ length xs - n
  length-drop zero xs = omega arith
  length-drop (suc n) [] = omega arith
  length-drop (suc n) (x ∷ xs) = omega (arith, length-drop n xs)

  pub length-replicate : (n : ℕ) (a : A) → length (replicate n a) ≡ n
  length-replicate zero a = refl
  length-replicate (suc n) a = ap suc (length-replicate n a)

  pub take-append-drop : (n : ℕ) (xs : List A) → take n xs ++ drop n xs ≡ xs
  take-append-drop zero xs = refl
  take-append-drop (suc n) [] = refl
  take-append-drop (suc n) (x ∷ xs) = ap (◌∷◌ x) (take-append-drop n xs)

  pub take-of_le : (n : ℕ) (xs : List A) → length xs ≤ n → take n xs ≡ xs
  take-of_le zero [] h = refl
  take-of_le zero (x ∷ xs) h = absurd (omega arith)
  take-of_le (suc n) [] h = refl
  take-of_le (suc n) (x ∷ xs) h = ap (◌∷◌ x) (take-of_le n xs (omega arith))

  pub set-append :
      (pre : List A) (x v : A) (post : List A)
      → set (pre ++ x ∷ post) (length pre) v ≡ pre ++ v ∷ post
  set-append [] x v post = refl
  set-append (p ∷ pre) x v post = ap (◌∷◌ p) (set-append pre x v post)

  pub All-append {κ} : (P : A → Type κ) (xs ys : List A) → All P xs → All P ys → All P (xs ++ ys)
  All-append P [] ys hx hy = hy
  All-append P (x ∷ xs) ys hx hy = (hx.0, All-append P xs ys hx.1 hy)

  pub All-take {κ} : (P : A → Type κ) (n : ℕ) (xs : List A) → All P xs → All P (take n xs)
  All-take P zero xs h = tt
  All-take P (suc n) [] h = tt
  All-take P (suc n) (x ∷ xs) h = (h.0, All-take P n xs h.1)

  pub take-append : (pre post : List A) → take (length pre) (pre ++ post) ≡ pre
  take-append [] post = refl
  take-append (x ∷ pre) post = ap (◌∷◌ x) (take-append pre post)

  pub drop-append :
      (pre post : List A) (n j : ℕ) → n ≡ length pre + j → drop n (pre ++ post) ≡ drop j post
  drop-append [] post n j e = let same : n ≡ j = omega arith in rw same refl
  drop-append (x ∷ pre) post zero j e = absurd (omega arith)
  drop-append (x ∷ pre) post (suc n) j e = drop-append pre post n j (omega arith)

  pub take-append_more :
      (pre post : List A) (n j : ℕ) → n ≡ length pre + j → take n (pre ++ post) ≡ pre ++ take j post
  take-append_more [] post n j e = let same : n ≡ j = omega arith in rw same refl
  take-append_more (x ∷ pre) post zero j e = absurd (omega arith)
  take-append_more (x ∷ pre) post (suc n) j e =
      ap (◌∷◌ x) (take-append_more pre post n j (omega arith))

  pub take-take-append : (k : ℕ) (xs ys : List A) → take k (take k xs ++ ys) ≡ take k (xs ++ ys)
  take-take-append zero xs ys = refl
  take-take-append (suc k) [] ys = refl
  take-take-append (suc k) (x ∷ xs) ys = ap (◌∷◌ x) (take-take-append k xs ys)

  -- A write into a buffer of C; `none` is a write past its end.
  unfoldable pub store : List A → ℕ → A → Option (List A)
  store buf i v = if ltb i (length buf) then some (set buf i v) else none

  pub store-append :
      (pre : List A) (x v : A) (post : List A)
      → store (pre ++ x ∷ post) (length pre) v ≡ some (pre ++ v ∷ post)
  unfolding store
  store-append pre x v post = ground (arith, length-append pre (x ∷ post), set-append pre x v post)
