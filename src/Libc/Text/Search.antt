-- ===== src/Libc/Text/Search.antt =====
-- linux_libc_support.cc: `my_strlen`, `my_strchr`, `my_strrchr` and `my_memchr` against what a C
-- string holds.
use mathlib.Core.Option
use native_crash2java.Base.{
  ℕ, zero, suc, ◌+◌, ◌≤◌, ◌<◌, ◌≡◌, refl, ◌≢◌, ◌⊎◌, inl, inr, List, [], ◌∷◌, ◌++◌, Option, none,
  some, arith, length, ◌==◌, if◌then◌else◌, take, drop, get_elem?, All, ap, ◌∙◌, Option-cases,
  ℕ_discrete,
}
use native_crash2java.Libc.Text.{
  IsText, c_string, my_strlen, strlen_loop, my_strchr, strchr_loop, my_strrchr, strrchr_loop,
  my_memchr, memchr_loop,
}

strlen_loop-c_string :
    (len : ℕ) (m : List ℕ) → strlen_loop len m ≡ Option.map (λ s. len + length s) (c_string m)
unfolding strlen_loop c_string
strlen_loop-c_string len [] = refl
strlen_loop-c_string len (c ∷ m) = ground (arith, strlen_loop-c_string (len + 1) m)

-- `my_strlen` returns the length of the C string at its argument, and reads past the end of the
-- object exactly when no NUL ends the string there.
pub my_strlen-c_string : (m : List ℕ) → my_strlen m ≡ Option.map length (c_string m)
unfolding my_strlen
my_strlen-c_string m = ground (arith, strlen_loop-c_string 0 m)

-- A C string and its terminator at the front of an object.
pub c_string-append : (s rest : List ℕ) → All IsText s → c_string (s ++ 0 ∷ rest) ≡ some s
unfolding c_string
c_string-append [] rest h = refl
c_string-append (c ∷ s) rest h = ground (arith, c_string-append s rest h.1)

-- The first index of `needle` in `s`, from `at` on.
index_from : ℕ → List ℕ → ℕ → Option ℕ
index_from at [] needle = none
index_from at (c ∷ s) needle = if c == needle then some at else index_from (at + 1) s needle

-- The last index.
last_index_from : Option ℕ → ℕ → List ℕ → ℕ → Option ℕ
last_index_from ret at [] needle = ret
last_index_from ret at (c ∷ s) needle =
    last_index_from (if c == needle then some at else ret) (at + 1) s needle

-- A C string is empty, or it is its first character and the C string behind it.
pub c_string_cases :
    (x : ℕ) (a s : List ℕ)
    → c_string (x ∷ a) ≡ some s
    → ((x ≡ 0) × (s ≡ [])) ⊎ ((x ≢ 0) × ((t : List ℕ) × (c_string a ≡ some t) × (s ≡ x ∷ t)))
unfolding c_string
c_string_cases x a s e = elim (ℕ_discrete x 0) [
  | yes z ↦ inl (z, ground arith)
  | no nz ↦ inr (
    nz,
    elim (Option-cases (c_string a)) [
      | inl q ↦ absurd (ground arith)
      | inr (t, q) ↦ (t, q, ground arith)
    ],
  )
]

-- An object that holds a C string is that string, its terminator and the rest.
pub c_string-split : (m s : List ℕ) → c_string m ≡ some s → (rest : List ℕ) × (m ≡ s ++ 0 ∷ rest)
c_string-split [] s e = unfold c_string in cc
c_string-split (c ∷ m) s e = elim (c_string_cases c m s e) [
  | inl (z, p) ↦ (m, cc)
  | inr (nz, (t, q, p)) ↦ let (rest, h) = c_string-split m t q in (rest, cc)
]

pub IsText-c_string : (m s : List ℕ) → All (λ c. c < 256) m → c_string m ≡ some s → All IsText s
IsText-c_string [] s h e = unfold c_string in cc
IsText-c_string (c ∷ m) s h e = elim (c_string_cases c m s e) [
  | inl (z, q) ↦ rw q tt
  | inr (nz, (t, r, q)) ↦ rw q ((omega arith, h.0), IsText-c_string m t h.1 r)
]

-- A text in front of a C string.
pub c_string-prepend :
    (d r s : List ℕ) → All IsText d → c_string r ≡ some s → c_string (d ++ r) ≡ some (d ++ s)
unfolding c_string
c_string-prepend [] r s h e = e
c_string-prepend (c ∷ d) r s h e = ground (arith, c_string-prepend d r s h.1 e)

strchr_loop-index :
    (at needle : ℕ) (m s : List ℕ)
    → needle ≢ 0
    → c_string m ≡ some s
    → strchr_loop at m needle ≡ some (index_from at s needle)
unfolding strchr_loop index_from
strchr_loop-index at needle [] s h e = unfold c_string in cc
strchr_loop-index at needle (c ∷ m) s h e = elim (c_string_cases c m s e) [
  | inl (z, p) ↦ ground arith
  | inr (nz, (t, q, p)) ↦ ground (arith, strchr_loop-index (at + 1) needle m t h q)
]

strrchr_loop-last :
    (ret : Option ℕ) (at needle : ℕ) (m s : List ℕ)
    → c_string m ≡ some s
    → strrchr_loop ret at m needle ≡ some (last_index_from ret at s needle)
unfolding strrchr_loop last_index_from
strrchr_loop-last ret at needle [] s e = unfold c_string in cc
strrchr_loop-last ret at needle (c ∷ m) s e = elim (c_string_cases c m s e) [
  | inl (z, p) ↦ ground arith
  | inr (nz, (t, q, p)) ↦
      ground (arith, strrchr_loop-last (if c == needle then some at else ret) (at + 1) needle m t q)
]

memchr_loop-index :
    (at needle len : ℕ) (m : List ℕ)
    → len ≤ length m
    → memchr_loop at m needle len ≡ some (index_from at (take len m) needle)
unfolding memchr_loop index_from
memchr_loop-index at needle zero [] h = refl
memchr_loop-index at needle zero (c ∷ m) h = refl
memchr_loop-index at needle (suc len) [] h = absurd (omega arith)
memchr_loop-index at needle (suc len) (c ∷ m) h =
    ground (arith, memchr_loop-index (at + 1) needle len m)

-- Where an index holds the first or the last occurrence of `needle` in `s`, if there is one.
abbrev pub IsFirst : ℕ → List ℕ → Option ℕ → Type 0
IsFirst needle s none = All (λ c. c ≢ needle) s
IsFirst needle s (some i) = (get_elem? s i ≡ some needle) × All (λ c. c ≢ needle) (take i s)

abbrev pub IsLast : ℕ → List ℕ → Option ℕ → Type 0
IsLast needle s none = All (λ c. c ≢ needle) s
IsLast needle s (some i) = (get_elem? s i ≡ some needle) × All (λ c. c ≢ needle) (drop (suc i) s)

-- A predicate of an index that counts from `at` on.
abbrev Shifted : (Option ℕ → Type 0) → ℕ → Option ℕ → Type 0
Shifted P at none = P none
Shifted P at (some j) = (i : ℕ) × (j ≡ at + i) × P (some i)

IsFirst-later :
    (at needle c : ℕ) (s : List ℕ) (r : Option ℕ)
    → c ≢ needle
    → Shifted (IsFirst needle s) (at + 1) r
    → Shifted (IsFirst needle (c ∷ s)) at r
IsFirst-later at needle c s none miss h = (miss, h)
IsFirst-later at needle c s (some j) miss (i, e, (hit, before)) =
    (suc i, omega arith, (hit, (miss, before)))

index_from-IsFirst :
    (at needle : ℕ) (s : List ℕ) → Shifted (IsFirst needle s) at (index_from at s needle)
index_from-IsFirst at needle [] = unfold index_from in tt
index_from-IsFirst at needle (c ∷ s) = elim (ℕ_discrete c needle) [
  | yes hit ↦ rw (index_from_hit at needle c s hit) (0, omega arith, (ap some hit, tt))
  | no miss ↦
      rw (index_from_miss at needle c s miss)
        (IsFirst-later at needle c s _ miss (index_from-IsFirst (at + 1) needle s))
]
  where
    index_from_hit :
        (at needle c : ℕ) (s : List ℕ) → c ≡ needle → index_from at (c ∷ s) needle ≡ some at
    index_from_hit at needle c s h = unfold index_from in ground arith

    index_from_miss :
        (at needle c : ℕ) (s : List ℕ)
        → c ≢ needle
        → index_from at (c ∷ s) needle ≡ index_from (at + 1) s needle
    index_from_miss at needle c s h = unfold index_from in ground arith

Shifted-zero : (P : Option ℕ → Type 0) (r : Option ℕ) → Shifted P 0 r → P r
Shifted-zero P none h = h
Shifted-zero P (some j) (i, e, p) = let same : j ≡ i = omega arith in rw same p

last_index_from-IsLast :
    (ret : Option ℕ) (at needle : ℕ) (s : List ℕ)
    → ((All (λ c. c ≢ needle) s) × (last_index_from ret at s needle ≡ ret))
      ⊎ ((i : ℕ) × (last_index_from ret at s needle ≡ some (at + i)) × IsLast needle s (some i))
unfolding last_index_from
last_index_from-IsLast ret at needle [] = inl (tt, refl)
last_index_from-IsLast ret at needle (c ∷ s) = elim (ℕ_discrete c needle) [
  | yes hit ↦ elim (last_index_from-IsLast (some at) (at + 1) needle s) [
    | inl (clear, e) ↦ inr (0, ground arith, (ap some hit, clear))
    | inr (i, e, found) ↦ inr (suc i, ground arith, found)
  ]
  | no miss ↦ elim (last_index_from-IsLast ret (at + 1) needle s) [
    | inl (clear, e) ↦ inl ((miss, clear), ground arith)
    | inr (i, e, found) ↦ inr (suc i, ground arith, found)
  ]
]

-- `my_strchr` returns the first occurrence of a character other than NUL in the string, and the
-- null pointer if there is none.
pub my_strchr-IsFirst :
    (m s : List ℕ) (needle : ℕ)
    → needle ≢ 0
    → c_string m ≡ some s
    → (r : Option ℕ) × (my_strchr m needle ≡ some r) × IsFirst needle s r
my_strchr-IsFirst m s needle h e = (
  index_from 0 s needle,
  unfold my_strchr in strchr_loop-index 0 needle m s h e,
  Shifted-zero (IsFirst needle s) _ (index_from-IsFirst 0 needle s),
)

-- `my_strrchr` returns the last one.
pub my_strrchr-IsLast :
    (m s : List ℕ) (needle : ℕ)
    → c_string m ≡ some s
    → (r : Option ℕ) × (my_strrchr m needle ≡ some r) × IsLast needle s r
my_strrchr-IsLast m s needle e = elim (last_index_from-IsLast none 0 needle s) [
  | inl (clear, p) ↦
      (none, unfold my_strrchr in strrchr_loop-last none 0 needle m s e ∙ ap some p, clear)
  | inr (i, p, found) ↦ (
    some i,
    unfold my_strrchr in
        strrchr_loop-last none 0 needle m s e ∙ ap some (p ∙ ap some (omega arith)),
    found,
  )
]

-- `my_memchr` returns the first occurrence of a byte among the first `len` bytes.
pub my_memchr-IsFirst :
    (m : List ℕ) (needle len : ℕ)
    → len ≤ length m
    → (r : Option ℕ) × (my_memchr m needle len ≡ some r) × IsFirst needle (take len m) r
my_memchr-IsFirst m needle len h = (
  index_from 0 (take len m) needle,
  unfold my_memchr in memchr_loop-index 0 needle len m h,
  Shifted-zero (IsFirst needle (take len m)) _ (index_from-IsFirst 0 needle (take len m)),
)
