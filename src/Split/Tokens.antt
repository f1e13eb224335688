-- ===== src/Split/Tokens.antt =====
-- The tokens of `SplitChar` are the runs of characters between delimiters.
use mathlib.Core.Option
use native_crash2java.Base.{
  ℕ, zero, suc, ◌≤◌, ◌<◌, ◌≡◌, refl, ◌≢◌, List, [], ◌∷◌, ◌++◌, Option, none, some, arith, length,
  All, ap, ◌∙◌, inl, inr, ◌⊎◌, length-append, ℕ_discrete,
}
use native_crash2java.Split.{
  skip_delimiters, token, behind_token, strtok, strtok_at, split_loop, split_char,
}

-- A character that is no delimiter.
abbrev pub IsOther : ℕ → ℕ → Type 0
IsOther delim c = c ≢ delim

token-front :
    (delim : ℕ) (a rest : List ℕ) → All (IsOther delim) a → token delim (a ++ delim ∷ rest) ≡ a
unfolding token
token-front delim [] rest h = ground arith
token-front delim (c ∷ a) rest h = ground (arith, token-front delim a rest h.1)

behind_token-front :
    (delim : ℕ) (a rest : List ℕ)
    → All (IsOther delim) a
    → behind_token delim (a ++ delim ∷ rest) ≡ rest
unfolding behind_token
behind_token-front delim [] rest h = ground arith
behind_token-front delim (c ∷ a) rest h = ground (arith, behind_token-front delim a rest h.1)

token-whole : (delim : ℕ) (a : List ℕ) → All (IsOther delim) a → token delim a ≡ a
unfolding token
token-whole delim [] h = refl
token-whole delim (c ∷ a) h = ground (arith, token-whole delim a h.1)

behind_token-whole : (delim : ℕ) (a : List ℕ) → All (IsOther delim) a → behind_token delim a ≡ []
unfolding behind_token
behind_token-whole delim [] h = refl
behind_token-whole delim (c ∷ a) h = ground (arith, behind_token-whole delim a h.1)

strtok-front :
    (delim c : ℕ) (a rest : List ℕ)
    → All (IsOther delim) (c ∷ a)
    → strtok delim (c ∷ a ++ delim ∷ rest) ≡ some (c ∷ a, rest)
unfolding strtok
strtok-front delim c a rest h =
    ground (arith, token-front delim (c ∷ a) rest h, behind_token-front delim (c ∷ a) rest h)

strtok-whole :
    (delim c : ℕ) (a : List ℕ)
    → All (IsOther delim) (c ∷ a)
    → strtok delim (c ∷ a) ≡ some (c ∷ a, [])
unfolding strtok
strtok-whole delim c a h =
    ground (arith, token-whole delim (c ∷ a) h, behind_token-whole delim (c ∷ a) h)

strtok-nil : (delim : ℕ) → strtok delim [] ≡ none
unfolding strtok
strtok-nil delim = refl

-- A round of the loop, and its end.
split_round :
    (fuel delim : ℕ) (s t rest : List ℕ)
    → strtok delim s ≡ some (t, rest)
    → split_loop (suc fuel) delim s ≡ Option.map (◌∷◌ t) (split_loop fuel delim rest)
unfolding split_loop
split_round fuel delim s t rest e = rw (e, split_loop) refl

split_end :
    (fuel delim : ℕ) (s : List ℕ) → strtok delim s ≡ none → split_loop (suc fuel) delim s ≡ some []
unfolding split_loop
split_end fuel delim s e = rw (e, split_loop) refl

split_loop-two :
    (n delim x y : ℕ) (a b : List ℕ)
    → 2 ≤ n
    → All (IsOther delim) (x ∷ a)
    → All (IsOther delim) (y ∷ b)
    → split_loop (suc n) delim (x ∷ a ++ delim ∷ y ∷ b) ≡ some ((x ∷ a) ∷ (y ∷ b) ∷ [])
split_loop-two zero delim x y a b h ha hb = absurd (omega arith)
split_loop-two (suc zero) delim x y a b h ha hb = absurd (omega arith)
split_loop-two (suc (suc n)) delim x y a b h ha hb =
    split_round (suc (suc n)) delim _ (x ∷ a) (y ∷ b) (strtok-front delim x a (y ∷ b) ha)
    ∙ rw
        (
          split_round (suc n) delim (y ∷ b) (y ∷ b) [] (strtok-whole delim y b hb),
          split_end n delim [] (strtok-nil delim),
        )
        refl

-- A text that is two halves with the delimiter between them is split into the two halves, if
-- neither is empty or has a delimiter in it.
pub split_char-two :
    (delim : ℕ) (a b : List ℕ)
    → a ≢ []
    → b ≢ []
    → All (IsOther delim) a
    → All (IsOther delim) b
    → split_char (some (a ++ delim ∷ b)) delim ≡ some (a ∷ b ∷ [])
unfolding split_char
split_char-two delim [] b na nb ha hb = absurd (na refl)
split_char-two delim (x ∷ a) [] na nb ha hb = absurd (nb refl)
split_char-two delim (x ∷ a) (y ∷ b) na nb ha hb =
    split_loop-two (length (x ∷ a ++ delim ∷ y ∷ b)) delim x y a b
      (omega (arith, length-append (x ∷ a) (delim ∷ y ∷ b))) ha hb

-- Without a delimiter there is one token at most.
pub split_char-one :
    (delim x : ℕ) (a : List ℕ)
    → All (IsOther delim) (x ∷ a)
    → split_char (some (x ∷ a)) delim ≡ some ((x ∷ a) ∷ [])
unfolding split_char
split_char-one delim x a h =
    split_round (length (x ∷ a)) delim (x ∷ a) (x ∷ a) [] (strtok-whole delim x a h)
    ∙ rw (split_end (length a) delim [] (strtok-nil delim)) refl

length-skip_delimiters : (delim : ℕ) (s : List ℕ) → length (skip_delimiters delim s) ≤ length s
unfolding skip_delimiters
length-skip_delimiters delim [] = omega arith
length-skip_delimiters delim (c ∷ s) = ground (arith, length-skip_delimiters delim s)

length-behind_token : (delim : ℕ) (s : List ℕ) → length (behind_token delim s) ≤ length s
unfolding behind_token
length-behind_token delim [] = omega arith
length-behind_token delim (c ∷ s) = ground (arith, length-behind_token delim s)

-- What `strtok` leaves is shorter, and its token is a run of other characters.
record IsStep (delim : ℕ) (s t rest : List ℕ) : Type 0 where
  shorter : length rest < length s
  nonempty : t ≢ []
  other : All (IsOther delim) t

token-cons : (delim c : ℕ) (s : List ℕ) → c ≢ delim → token delim (c ∷ s) ≡ c ∷ token delim s
unfolding token
token-cons delim c s h = ground arith

token-stop : (delim c : ℕ) (s : List ℕ) → c ≡ delim → token delim (c ∷ s) ≡ []
unfolding token
token-stop delim c s h = ground arith

token-IsOther : (delim : ℕ) (s : List ℕ) → All (IsOther delim) (token delim s)
token-IsOther delim [] = unfold token in tt
token-IsOther delim (c ∷ s) = elim (ℕ_discrete c delim) [
  | yes e ↦ rw (token-stop delim c s e) tt
  | no ne ↦ rw (token-cons delim c s ne) (ne, token-IsOther delim s)
]

-- `strtok` skips to a character that is no delimiter, if there is one.
skip-head : (delim c : ℕ) (s r : List ℕ) → skip_delimiters delim s ≡ c ∷ r → c ≢ delim
unfolding skip_delimiters
skip-head delim c [] r e = cc
skip-head delim c (x ∷ s) r e = ground (arith, skip-head delim c s r)

behind-shorter : (delim c : ℕ) (s : List ℕ) → length (behind_token delim (c ∷ s)) < length (c ∷ s)
unfolding behind_token
behind-shorter delim c s = ground (arith, length-behind_token delim s)

strtok-IsStep :
    (delim : ℕ) (s : List ℕ)
    → (strtok delim s ≡ none)
      ⊎ ((t : List ℕ) × (rest : List ℕ) × (strtok delim s ≡ some (t, rest)) × IsStep delim s t rest)
unfolding strtok
strtok-IsStep delim s = from_skipped (skip_delimiters delim s) refl
  where
    from_skipped :
        (r : List ℕ)
        → skip_delimiters delim s ≡ r
        → (strtok_at delim (skip_delimiters delim s) ≡ none)
          ⊎ ((t : List ℕ) × (rest : List ℕ) × (strtok_at delim (skip_delimiters delim s)
                ≡ some (t, rest))
              × IsStep delim s t rest)
    from_skipped [] e = inl (rw e refl)
    from_skipped (c ∷ r) e = inr (
      token delim (c ∷ r),
      behind_token delim (c ∷ r),
      rw e refl,
      record {
        shorter =
            omega (arith, behind-shorter delim c r, ap length e, length-skip_delimiters delim s);
        nonempty = λ q. cc (token-cons delim c r (skip-head delim c s r e));
        other = token-IsOther delim (c ∷ r);
      },
    )

-- The tokens of a split: none is empty, and none has a delimiter in it.
abbrev pub IsToken : ℕ → List ℕ → Type 0
IsToken delim t = (t ≢ []) × All (IsOther delim) t

split_loop-tokens :
    (fuel delim : ℕ) (s : List ℕ)
    → length s < fuel
    → (ts : List (List ℕ)) × (split_loop fuel delim s ≡ some ts) × All (IsToken delim) ts
split_loop-tokens zero delim s h = absurd (omega arith)
split_loop-tokens (suc fuel) delim s h = elim (strtok-IsStep delim s) [
  | inl e ↦ ([], split_end fuel delim s e, tt)
  | inr (t, rest, e, st) ↦
      let (ts, run, all) = split_loop-tokens fuel delim rest (omega (arith, st.shorter)) in
      (t ∷ ts, split_round fuel delim s t rest e ∙ rw run refl, ((st.nonempty, st.other), all))
]

-- `SplitChar` ends on every input, and each of its tokens is a run of characters other than the
-- delimiter that is not empty.
pub split_char-tokens :
    (str : Option (List ℕ)) (delim : ℕ)
    → (ts : List (List ℕ)) × (split_char str delim ≡ some ts) × All (IsToken delim) ts
unfolding split_char
split_char-tokens none delim = ([], refl, tt)
split_char-tokens (some s) delim = split_loop-tokens (suc (length s)) delim s (omega arith)
