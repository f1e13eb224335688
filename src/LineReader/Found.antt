-- ===== src/LineReader/Found.antt =====
-- The ways in which a round of `GetNextLine` finds a line, or that there is none.
use native_crash2java.Base.{
  ℕ, suc, ◌+◌, ◌-◌, ◌≤◌, ◌<◌, ◌≡◌, refl, inl, inr, true, List, [], ◌∷◌, ◌++◌, Option, none, some,
  take, drop, set, length, arith, ap, ap₂, sym, ◌∙◌, subst⁻¹, length-append, append-nil,
  take-append, length-take, length-drop, length-set,
}
use native_crash2java.LineReader.{max_line_len, LineReader, line_end, pop_line}
use native_crash2java.LineReader.Ends.{
  line_end-append, line_end-lt, line_end-later, take-within, drop-within, take-set, drop-set,
  drop-all, first_line, first_line-short, first_line-long, last_line-short, last_line-long,
}

-- What `read` promises: no error, 0 at the end of the file only, and no more than there is space for.
pub record IsReading (read : List ℕ → ℕ → Option ℕ) : Type 0 where
  pub at_end : (space : ℕ) → read [] space ≡ some 0
  pub before :
      (c : ℕ) (file : List ℕ) (space : ℕ)
      → 0 < space
      → (n : ℕ) × (read (c ∷ file) space ≡ some (suc n)) × (suc n ≤ space)

-- The buffer is not overrun, and the end of the file is believed only where it is.
pub record IsSound (r : LineReader) : Type 0 where
  pub bounded : length r.buf ≤ max_line_len
  pub ended : r.hit_eof ≡ true → r.rest ≡ []

abbrev pub text : LineReader → List ℕ
text r = r.buf ++ r.rest

-- The result is this line, and after `PopLine` the reader goes on behind it.
abbrev pub IsFirstLine : Option (List ℕ × List ℕ) → Option ℕ → LineReader → Type 0
IsFirstLine none len r = len ≡ none
IsFirstLine (some (line, behind)) len r =
    (len ≡ some (length line))
    × (take (length line) r.buf ≡ line)
    × IsSound (pop_line (length line) r)
    × (text (pop_line (length line) r) ≡ behind)

-- A line ends in the buffer.
pub found-IsFirstLine :
    (r : LineReader) (i : ℕ)
    → IsSound r
    → line_end r.buf ≡ some i
    → IsFirstLine (first_line (text r)) (some i) (record r { buf = set r.buf i 0 })
unfolding pop_line
found-IsFirstLine r i s e =
    let inside : i < length r.buf = line_end-lt r.buf i e in
    let bounded : length r.buf ≤ max_line_len = s.bounded in
    let short : length (take i (text r)) ≡ i =
      length-take i (text r)
      ∙ (let l : length (text r) ≡ length r.buf + length r.rest = length-append r.buf r.rest in
          omega arith) in
    subst⁻¹ (λ x. IsFirstLine x (some i) (record r { buf = set r.buf i 0 }))
      (first_line-short (text r) i (line_end-append r.buf r.rest i e) (omega arith))
      (
        ap some (sym short),
        ap (λ n. take n (set r.buf i 0)) short
            ∙ take-set i r.buf 0
            ∙ sym (take-within i r.buf r.rest (omega arith)),
        record {
          bounded =
              (let a : length (drop (length (take i (text r)) + 1) (set r.buf i 0))
                    ≡ length (set r.buf i 0) - (length (take i (text r)) + 1) =
                  length-drop (length (take i (text r)) + 1) (set r.buf i 0) in
                let b : length (set r.buf i 0) ≡ length r.buf = length-set r.buf i 0 in
                omega arith);
          ended = s.ended;
        },
        ap (λ n. drop (n + 1) (set r.buf i 0) ++ r.rest) short
            ∙ ap (λ b. b ++ r.rest) (drop-set (i + 1) i r.buf 0 (omega arith))
            ∙ sym (drop-within (i + 1) r.buf r.rest (omega arith)),
      )

-- The buffer is full, and no line ends in it.
pub full-IsFirstLine :
    (r : LineReader)
    → line_end r.buf ≡ none
    → length r.buf ≡ max_line_len
    → IsFirstLine (first_line (text r)) none r
full-IsFirstLine r e full =
    let l : length (text r) ≡ length r.buf + length r.rest = length-append r.buf r.rest in
    elim (line_end-later r.buf r.rest e) [
      | inl n ↦ subst⁻¹ (λ x. IsFirstLine x none r) (last_line-long (text r) n (omega arith)) refl
      | inr (i, at_i, less) ↦
          subst⁻¹ (λ x. IsFirstLine x none r) (first_line-long (text r) i at_i (omega arith)) refl
    ]

-- The file has ended, and its last line has no end.
pub last-IsFirstLine :
    (r : LineReader)
    → line_end r.buf ≡ none
    → 0 < length r.buf
    → length r.buf < max_line_len
    → r.rest ≡ []
    → IsFirstLine (first_line (text r)) (some (length r.buf)) (record r { buf = r.buf ++ 0 ∷ [] })
unfolding pop_line
last-IsFirstLine r e there short gone =
    let whole : text r ≡ r.buf = ap (λ b. r.buf ++ b) gone ∙ append-nil r.buf in
    let long : length (r.buf ++ 0 ∷ []) ≡ length r.buf + 1 = length-append r.buf (0 ∷ []) in
    let empty : drop (length r.buf + 1) (r.buf ++ 0 ∷ []) ≡ [] =
      drop-all (length r.buf + 1) (r.buf ++ 0 ∷ []) (omega arith) in
    subst⁻¹ (λ x. IsFirstLine x (some (length r.buf)) (record r { buf = r.buf ++ 0 ∷ [] }))
      (ap first_line whole ∙ last_line-short r.buf e there short)
      (
        refl,
        take-append r.buf (0 ∷ []),
        record {
          bounded = subst⁻¹ (λ b. length b ≤ max_line_len) empty (omega arith);
          ended = λ x. gone;
        },
        ap₂ ◌++◌ empty gone,
      )

pub empty-IsFirstLine : (r : LineReader) → text r ≡ [] → IsFirstLine (first_line (text r)) none r
unfolding first_line
empty-IsFirstLine r e = subst⁻¹ (λ x. IsFirstLine (first_line x) none r) e refl
