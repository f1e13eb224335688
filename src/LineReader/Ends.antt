-- ===== src/LineReader/Ends.antt =====
-- Where lines end, in the buffer and in the whole file; the first line of a file.
use native_crash2java.Base.{
  ℕ_discrete, ==_iff, length-drop, subst, dec_lt, ℕ, zero, suc, ◌+◌, ◌≤◌, ◌<◌, ◌≡◌, refl, ◌⊎◌, inl,
  inr, true, false, ◌||◌, List, [], ◌∷◌, ◌++◌, Option, none, some, ◌==◌, ltb, if◌then◌else◌, take,
  drop, set, length, arith, ap, sym, ◌∙◌, Bool-cases, Option-cases,
}
use native_crash2java.LineReader.{max_line_len, plus_one, line_end}

plus_one-none : (o : Option ℕ) → plus_one o ≡ none → o ≡ none
plus_one-none none e = refl
plus_one-none (some i) e = cc

pub line_end-append : (xs ys : List ℕ) (i : ℕ) → line_end xs ≡ some i → line_end (xs ++ ys) ≡ some i
unfolding line_end
line_end-append [] ys i e = cc
line_end-append (c ∷ xs) ys i e = elim (Bool-cases (c == b'\n' || c == 0)) [
  | inl ends ↦ simp ends (simp ends at e)
  | inr goes_on ↦
      let e' : plus_one (line_end xs) ≡ some i = simp goes_on at e in
      elim (Option-cases (line_end xs)) [
        | inl none_there ↦
            absurd (let n : plus_one (line_end xs) ≡ none = ap plus_one none_there in cc)
        | inr (j, at_j) ↦ simp (goes_on, line_end-append xs ys j at_j) (ap plus_one (sym at_j) ∙ e')
      ]
]

pub line_end-lt : (xs : List ℕ) (i : ℕ) → line_end xs ≡ some i → i < length xs
unfolding line_end
line_end-lt [] i e = cc
line_end-lt (c ∷ xs) i e = elim (Bool-cases (c == b'\n' || c == 0)) [
  | inl ends ↦ let e' : some 0 ≡ some i = simp ends at e in let z : 0 ≡ i = cc in omega arith
  | inr goes_on ↦
      let e' : plus_one (line_end xs) ≡ some i = simp goes_on at e in
      elim (Option-cases (line_end xs)) [
        | inl none_there ↦
            absurd (let n : plus_one (line_end xs) ≡ none = ap plus_one none_there in cc)
        | inr (j, at_j) ↦
            let less : j < length xs = line_end-lt xs j at_j in
            let s : some (suc j) ≡ some i = ap plus_one (sym at_j) ∙ e' in
            let same : suc j ≡ i = cc in omega arith
      ]
]

-- Where no line ends in the first part, none ends before it does.
pub line_end-later :
    (xs ys : List ℕ)
    → line_end xs ≡ none
    → (line_end (xs ++ ys) ≡ none) ⊎ ((i : ℕ) × (line_end (xs ++ ys) ≡ some i) × (length xs ≤ i))
unfolding line_end
line_end-later [] ys e = elim (Option-cases (line_end ys)) [
  | inl n ↦ inl n
  | inr (i, at_i) ↦ inr (i, at_i, omega arith)
]
line_end-later (c ∷ xs) ys e = elim (Bool-cases (c == b'\n' || c == 0)) [
  | inl ends ↦ absurd (let e' : some 0 ≡ none = simp ends at e in cc)
  | inr goes_on ↦
      let e' : line_end xs ≡ none = plus_one-none (line_end xs) (simp goes_on at e) in
      elim (line_end-later xs ys e') [
        | inl n ↦ inl (simp (goes_on, n) refl)
        | inr (i, at_i, less) ↦ inr (suc i, simp (goes_on, at_i) refl, omega arith)
      ]
]

pub take-within : (i : ℕ) (xs ys : List ℕ) → i ≤ length xs → take i (xs ++ ys) ≡ take i xs
take-within zero xs ys h = refl
take-within (suc i) [] ys h = absurd (omega arith)
take-within (suc i) (x ∷ xs) ys h = ap (◌∷◌ x) (take-within i xs ys (omega arith))

pub drop-within : (i : ℕ) (xs ys : List ℕ) → i ≤ length xs → drop i (xs ++ ys) ≡ drop i xs ++ ys
drop-within zero xs ys h = refl
drop-within (suc i) [] ys h = absurd (omega arith)
drop-within (suc i) (x ∷ xs) ys h = drop-within i xs ys (omega arith)

pub take-set : (i : ℕ) (xs : List ℕ) (v : ℕ) → take i (set xs i v) ≡ take i xs
take-set zero xs v = refl
take-set (suc i) [] v = refl
take-set (suc i) (x ∷ xs) v = ap (◌∷◌ x) (take-set i xs v)

pub drop-set : (n i : ℕ) (xs : List ℕ) (v : ℕ) → i < n → drop n (set xs i v) ≡ drop n xs
drop-set zero i xs v h = absurd (omega arith)
drop-set (suc n) i [] v h = refl
drop-set (suc n) zero (x ∷ xs) v h = refl
drop-set (suc n) (suc i) (x ∷ xs) v h = drop-set n i xs v (omega arith)

pub drop-all : (n : ℕ) (xs : List ℕ) → length xs ≤ n → drop n xs ≡ []
drop-all zero [] h = refl
drop-all zero (x ∷ xs) h = absurd (omega arith)
drop-all (suc n) [] h = refl
drop-all (suc n) (x ∷ xs) h = drop-all n xs (omega arith)

pub empty-buf : (xs : List ℕ) → (length xs == 0) ≡ true → xs ≡ []
empty-buf [] h = refl
empty-buf (x ∷ xs) h = absurd (ground arith)

-- One place further on.
abbrev next_place : Option ℕ → Option ℕ
next_place none = none
next_place (some i) = some (suc i)

-- The place of the first newline or NUL.
unfoldable pub first_end : List ℕ → Option ℕ
first_end [] = none
first_end (c ∷ bytes) = elim (ℕ_discrete c b'\n') [
  | yes newline ↦ some 0
  | no other ↦ elim (ℕ_discrete c 0) [ yes nul ↦ some 0 | no text ↦ next_place (first_end bytes) ]
]

-- The first line is what stands before the first newline or NUL, or the whole if it has none, provided
-- that it has fewer than 512 bytes. Nothing is behind a line that neither ends.
abbrev cut_at : List ℕ → Option ℕ → Option (List ℕ × List ℕ)
cut_at bytes (some i) = if ltb i 512 then some (take i bytes, drop (i + 1) bytes) else none
cut_at [] none = none
cut_at (c ∷ bytes) none = if ltb (suc (length bytes)) 512 then some (c ∷ bytes, []) else none

-- The first line of these bytes and what is behind it; `none` if there is no line or it is too long.
unfoldable pub first_line : List ℕ → Option (List ℕ × List ℕ)
unfolding first_end
first_line bytes = cut_at bytes (first_end bytes)

next_place-plus_one : (o : Option ℕ) → plus_one o ≡ next_place o
next_place-plus_one none = refl
next_place-plus_one (some i) = refl

-- The loop over the buffer finds that place.
line_end-first_end : (bytes : List ℕ) → line_end bytes ≡ first_end bytes
unfolding line_end first_end
line_end-first_end [] = refl
line_end-first_end (c ∷ bytes) =
    elim (ℕ_discrete c b'\n')
      as (λ d. (if c == b'\n' || c == 0 then some 0 else plus_one (line_end bytes)) ≡ elim d [
        | yes newline ↦ some 0
        | no other ↦ elim (ℕ_discrete c 0) [
          | yes nul ↦ some 0
          | no text ↦ next_place (first_end bytes)
        ]
      ]) [
        | yes newline ↦ simp ((==_iff c b'\n').1 newline) refl
        | no other ↦
            elim (ℕ_discrete c 0)
              as (λ d.
                (if c == b'\n' || c == 0 then some 0 else plus_one (line_end bytes))
                ≡ elim d [ yes nul ↦ some 0 | no text ↦ next_place (first_end bytes) ]) [
                  | yes nul ↦
                      let ends : (c == b'\n' || c == 0) ≡ true = ground arith in simp ends refl
                  | no text ↦
                      let goes_on : (c == b'\n' || c == 0) ≡ false = ground arith in
                      simp goes_on (
                        next_place-plus_one (line_end bytes)
                        ∙ ap next_place (line_end-first_end bytes))
                ]
      ]

first_line-cut : (bytes : List ℕ) → first_line bytes ≡ cut_at bytes (line_end bytes)
unfolding first_line
first_line-cut bytes = ap (cut_at bytes) (sym (line_end-first_end bytes))

module _ (bytes : List ℕ) where
  pub first_line-short :
      (i : ℕ)
      → line_end bytes ≡ some i
      → i < max_line_len
      → first_line bytes ≡ some (take i bytes, drop (i + 1) bytes)
  first_line-short i e h =
      let t : ltb i 512 ≡ true = ground arith in
      first_line-cut bytes ∙ ap (cut_at bytes) e ∙ (rw t refl)

  pub first_line-long :
      (i : ℕ) → line_end bytes ≡ some i → max_line_len ≤ i → first_line bytes ≡ none
  first_line-long i e h =
      let t : ltb i 512 ≡ false = ground arith in
      first_line-cut bytes ∙ ap (cut_at bytes) e ∙ (rw t refl)

pub last_line-short :
    (bytes : List ℕ)
    → line_end bytes ≡ none
    → 0 < length bytes
    → length bytes < max_line_len
    → first_line bytes ≡ some (bytes, [])
last_line-short [] e h k = absurd (omega arith)
last_line-short (c ∷ bytes) e h k =
    let t : ltb (suc (length bytes)) 512 ≡ true = ground arith in
    first_line-cut (c ∷ bytes) ∙ ap (cut_at (c ∷ bytes)) e ∙ (rw t refl)

pub last_line-long :
    (bytes : List ℕ) → line_end bytes ≡ none → max_line_len ≤ length bytes → first_line bytes ≡ none
last_line-long [] e h = unfold first_line first_end in refl
last_line-long (c ∷ bytes) e h =
    let t : ltb (suc (length bytes)) 512 ≡ false = ground arith in
    first_line-cut (c ∷ bytes) ∙ ap (cut_at (c ∷ bytes)) e ∙ (rw t refl)

first_line-empty : (bytes : List ℕ) → length bytes ≡ 0 → first_line bytes ≡ none
unfolding first_line
first_line-empty [] h = refl
first_line-empty (c ∷ bytes) h = absurd (omega arith)

pair-behind :
    (a b c d : List ℕ) → ◌≡◌ {A = Option (List ℕ × List ℕ)} (some (a, b)) (some (c, d)) → b ≡ d
pair-behind a b c d e = cc

-- What is behind the first line is shorter than the whole.
pub first_line-shorter :
    (bytes line behind : List ℕ)
    → first_line bytes ≡ some (line, behind)
    → length behind < length bytes
first_line-shorter bytes line behind e = elim (Option-cases (line_end bytes)) [
  | inr (i, at_i) ↦
      let inside : i < length bytes = line_end-lt bytes i at_i in
      elim (dec_lt i max_line_len) [
        | yes short ↦
            let same : drop (i + 1) bytes ≡ behind =
              pair-behind (take i bytes) (drop (i + 1) bytes) line behind
                (sym (first_line-short bytes i at_i short) ∙ e) in
            subst (λ b. length b < length bytes) same
              (let l = length-drop (i + 1) bytes in omega arith)
        | no long ↦ absurd (
            let no_line : none ≡ some (line, behind) =
              sym (first_line-long bytes i at_i (omega arith)) ∙ e in
            cc)
      ]
  | inl gone ↦ elim (dec_lt (length bytes) max_line_len) [
    | yes short ↦ elim (dec_lt 0 (length bytes)) [
      | yes there ↦
          let same : [] ≡ behind =
            pair-behind bytes [] line behind (sym (last_line-short bytes gone there short) ∙ e) in
          subst (λ b. length b < length bytes) same there
      | no empty ↦ absurd (
          let no_line : none ≡ some (line, behind) =
            sym (first_line-empty bytes (omega arith)) ∙ e in
          cc)
    ]
    | no long ↦ absurd (
        let no_line : none ≡ some (line, behind) =
          sym (last_line-long bytes gone (omega arith)) ∙ e in
        cc)
  ]
]
