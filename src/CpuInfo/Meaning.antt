-- ===== src/CpuInfo/Meaning.antt =====
-- What the lines of /proc/cpuinfo say, without the loops of the reader: fields, and lines that are skipped.
use native_crash2java.Base.{
  ℕ, ◌≤◌, ◌≡◌, refl, ◌≢◌, ◌⊎◌, inl, inr, true, false, List, [], ◌∷◌, ◌++◌, Option, none, some, ◌==◌,
  arith, ap, ◌∙◌, subst, All, Bool-cases, Option-cases,
}
use native_crash2java.LineReader.Ends.{first_line}
use native_crash2java.CpuInfo.{is_space, split_at_colon, skip_spaces, keep, strip_spaces}
use native_crash2java.Libc.Text.{my_isspace, isspace_loop}

-- A space, a tab, a line feed, a vertical tab, a form feed, a carriage return, or a NUL.
abbrev pub IsBlank : ℕ → Type 0
IsBlank c = (c ≡ 32) ⊎ ((9 ≤ c) × (c ≤ 13)) ⊎ (c ≡ 0)

is_space-IsBlank : (c : ℕ) → is_space c ≡ true → IsBlank c
unfolding my_isspace isspace_loop
is_space-IsBlank c e = ground arith

is_space-solid : (c : ℕ) → is_space c ≡ false → ¬ IsBlank c
unfolding my_isspace isspace_loop
is_space-solid c e = ground arith

-- A text that ends in a byte that is not blank, and one that does not start with a blank.
abbrev pub EndsSolid : List ℕ → Type 0
EndsSolid [] = ⊥
EndsSolid (c ∷ []) = ¬ IsBlank c
EndsSolid (c ∷ d ∷ name) = EndsSolid (d ∷ name)

abbrev pub StartsSolid : List ℕ → Type 0
StartsSolid [] = Unit
StartsSolid (c ∷ value) = ¬ IsBlank c

-- The line is the name, blanks, its first colon, blanks, and the value.
pub record IsField (line name value : List ℕ) : Type 0 where
  pub gap : List ℕ
  pub lead : List ℕ
  pub splits : line ≡ name ++ (gap ++ (b':' ∷ (lead ++ value)))
  pub colon_free : All (λ c. c ≢ b':') (name ++ gap)
  pub gap_blank : All IsBlank gap
  pub lead_blank : All IsBlank lead
  pub solid_end : EndsSolid name
  pub solid_start : StartsSolid value

-- The line has no colon, or only blanks before its first one.
abbrev pub IsSkipped : List ℕ → Type 0
IsSkipped line =
    All (λ c. c ≢ b':') line
    ⊎ ((gap : List ℕ) × (rest : List ℕ) × (line ≡ gap ++ (b':' ∷ rest)) × All IsBlank gap)

-- The first field of a file: its name, its value and what is behind its line; none where the lines end, or
-- one is too long, before there is a field.
pub data FirstField : List ℕ → Option (List ℕ × List ℕ × List ℕ) → Type 0 where
  no_line : (file : List ℕ) → first_line file ≡ none → FirstField file none
  skipped :
      (file line behind : List ℕ) (found : Option (List ℕ × List ℕ × List ℕ))
      → first_line file ≡ some (line, behind)
      → IsSkipped line
      → FirstField behind found
      → FirstField file found
  here :
      (file line behind name value : List ℕ)
      → first_line file ≡ some (line, behind)
      → IsField line name value
      → FirstField file (some (name, value, behind))

-- The search for the colon.
pub split_at_colon-none : (line : List ℕ) → split_at_colon line ≡ none → All (λ c. c ≢ b':') line
unfolding split_at_colon
split_at_colon-none [] e = tt
split_at_colon-none (c ∷ line) e = elim (Bool-cases (c == b':')) [
  | inl colon ↦ absurd (let no : some ([], line) ≡ none = simp colon at e in cc)
  | inr other ↦ elim (Option-cases (split_at_colon line)) [
    | inl gone ↦ (ground arith, split_at_colon-none line gone)
    | inr (cut, there) ↦
        absurd (let no : some (c ∷ cut.0, cut.1) ≡ none = simp (other, there) at e in cc)
  ]
]

pairs :
    (a b c d : List ℕ)
    → ◌≡◌ {A = Option (List ℕ × List ℕ)} (some (a, b)) (some (c, d))
    → (a ≡ c) × (b ≡ d)
pairs a b c d e = (cc, cc)

abbrev pub IsCut : List ℕ → List ℕ → List ℕ → Type 0
IsCut line before behind = (line ≡ before ++ (b':' ∷ behind)) × All (λ c. c ≢ b':') before

pub split_at_colon-some :
    (line before behind : List ℕ)
    → split_at_colon line ≡ some (before, behind)
    → IsCut line before behind
unfolding split_at_colon
split_at_colon-some [] before behind e = absurd cc
split_at_colon-some (c ∷ line) before behind e = elim (Bool-cases (c == b':')) [
  | inl colon ↦
      let (front, back) : ([] ≡ before) × (line ≡ behind) =
        pairs [] line before behind (simp colon at e) in
      let is_colon : c ≡ b':' = ground arith in
      subst (λ b. IsCut (c ∷ line) b behind) front
        (ap (λ x. x ∷ line) is_colon ∙ ap (λ x. b':' ∷ x) back, tt)
  | inr other ↦ elim (Option-cases (split_at_colon line)) [
    | inl gone ↦ absurd (let no : none ≡ some (before, behind) = simp (other, gone) at e in cc)
    | inr (cut, there) ↦
        let (front, back) : ((c ∷ cut.0) ≡ before) × (cut.1 ≡ behind) =
          pairs (c ∷ cut.0) cut.1 before behind (simp (other, there) at e) in
        let (same, free) : IsCut line cut.0 cut.1 = split_at_colon-some line cut.0 cut.1 there in
        subst (λ b. IsCut (c ∷ line) b behind) front
          (ap (λ x. c ∷ x) (same ∙ ap (λ x. cut.0 ++ (b':' ∷ x)) back), (ground arith, free))
  ]
]

-- The loop over the blanks in front of the value.
pub skip_spaces-splits :
    (line : List ℕ)
    → (lead : List ℕ) × (line ≡ lead ++ skip_spaces line)
      × All IsBlank lead
      × StartsSolid (skip_spaces line)
unfolding skip_spaces
skip_spaces-splits [] = ([], refl, tt, tt)
skip_spaces-splits (c ∷ line) = elim (Bool-cases (is_space c)) [
  | inl blank ↦
      let (lead, same, blanks, solid) = skip_spaces-splits line in
      rw blank (c ∷ lead, ap (λ x. c ∷ x) same, (is_space-IsBlank c blank, blanks), solid)
  | inr solid ↦ rw solid ([], refl, tt, is_space-solid c solid)
]

-- The loop over the blanks behind the name.
pub strip_spaces-splits :
    (name : List ℕ)
    → (gap : List ℕ) × (name ≡ strip_spaces name ++ gap)
      × All IsBlank gap
      × ((strip_spaces name ≡ []) ⊎ EndsSolid (strip_spaces name))
unfolding strip_spaces
strip_spaces-splits [] = ([], refl, tt, inl refl)
strip_spaces-splits (c ∷ name) = kept (strip_spaces name) (strip_spaces-splits name)
  where
    kept :
        (rest : List ℕ)
        → ((gap : List ℕ) × (name ≡ rest ++ gap) × All IsBlank gap × ((rest ≡ []) ⊎ EndsSolid rest))
        → ((gap : List ℕ) × ((c ∷ name) ≡ keep c rest ++ gap)
            × All IsBlank gap
            × ((keep c rest ≡ []) ⊎ EndsSolid (keep c rest)))
    kept [] (gap, same, blanks, solid) = elim (Bool-cases (is_space c)) [
      | inl blank ↦
          rw blank (c ∷ gap, ap (λ x. c ∷ x) same, (is_space-IsBlank c blank, blanks), inl refl)
      | inr other ↦ rw other (gap, ap (λ x. c ∷ x) same, blanks, inr (is_space-solid c other))
    ]
    kept (d ∷ rest) (gap, same, blanks, inl empty) = absurd cc
    kept (d ∷ rest) (gap, same, blanks, inr solid) = (gap, ap (λ x. c ∷ x) same, blanks, inr solid)
