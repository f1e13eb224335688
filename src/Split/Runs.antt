-- ===== src/Split/Runs.antt =====
-- Tests and examples of `SplitChar`.
use native_crash2java.Base.{◌≡◌, refl, [], ◌∷◌, ◌++◌, none, some, arith}
use native_crash2java.Base.Codes.{codes}
use native_crash2java.Split.{split_char, strtok}
use native_crash2java.Split.Tokens.{split_char-two, split_char-one}

split_runs :
    (split_char none b'^' ≡ some [])
    × (split_char (some (codes "^^")) b'^' ≡ some [])
    × (split_char (some (codes "^a^^b")) b'^' ≡ some (codes "a" ∷ codes "b" ∷ []))
    × (split_char (some (codes "a^b^c")) b'^' ≡ some (codes "a" ∷ codes "b" ∷ codes "c" ∷ []))
unfolding split_char strtok
split_runs = (refl, refl, refl, refl)

split_char-two_example :
    split_char (some (codes "info" ++ b'^' ∷ codes "track")) b'^'
    ≡ some (codes "info" ∷ codes "track" ∷ [])
split_char-two_example =
    split_char-two b'^' (codes "info") (codes "track") (λ e. cc) (λ e. cc) (ground arith)
      (ground arith)

split_char-one_example : split_char (some (codes "info")) b'^' ≡ some (codes "info" ∷ [])
split_char-one_example = split_char-one b'^' b'i' (codes "nfo") (ground arith)
