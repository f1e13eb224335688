-- ===== src/Split.antt =====
-- third_party/utils/char_split_utils.h: `SplitChar`, on the C library's `strtok`.
pub mod Tokens
mod Runs
use mathlib.Core.Option
use native_crash2java.Base.{
  ℕ, zero, suc, List, [], ◌∷◌, Option, none, some, ◌==◌, if◌then◌else◌, length,
}

-- `strtok` with a delimiter of one character, on the text that is left: it skips delimiters, and
-- what it finds then up to the next one is the token.
unfoldable pub skip_delimiters : ℕ → List ℕ → List ℕ
skip_delimiters delim [] = []
skip_delimiters delim (c ∷ s) = if c == delim then skip_delimiters delim s else c ∷ s

unfoldable pub token : ℕ → List ℕ → List ℕ
token delim [] = []
token delim (c ∷ s) = if c == delim then [] else c ∷ token delim s

-- The text behind the token and the delimiter that ends it.
unfoldable pub behind_token : ℕ → List ℕ → List ℕ
behind_token delim [] = []
behind_token delim (c ∷ s) = if c == delim then s else behind_token delim s

-- The token and what is left, or `none` for the null pointer.
strtok_at : ℕ → List ℕ → Option (List ℕ × List ℕ)
strtok_at delim [] = none
strtok_at delim (c ∷ s) = some (token delim (c ∷ s), behind_token delim (c ∷ s))

unfoldable pub strtok : ℕ → List ℕ → Option (List ℕ × List ℕ)
unfolding skip_delimiters token behind_token strtok_at
strtok delim s = strtok_at delim (skip_delimiters delim s)

-- The loop of `SplitChar`; `none` is the end of the fuel.
split_loop : ℕ → ℕ → List ℕ → Option (List (List ℕ))
split_loop zero delim s = none
split_loop (suc fuel) delim s = elim (strtok delim s) [
  | none ↦ some []
  | some (t, rest) ↦ Option.map (◌∷◌ t) (split_loop fuel delim rest)
]

-- Each round takes a character at least. A null pointer gives no token.
unfoldable pub split_char : Option (List ℕ) → ℕ → Option (List (List ℕ))
unfolding split_loop
split_char none delim = some []
split_char (some str) delim = split_loop (suc (length str)) delim str
