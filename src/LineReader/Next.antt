-- ===== src/LineReader/Next.antt =====
-- One line: `GetNextLine` and `PopLine`, however the kernel splits the file into reads.
use native_crash2java.Base.{
  ℕ, zero, suc, ◌+◌, ◌-◌, ◌≤◌, ◌<◌, ◌≡◌, refl, ◌⊎◌, inl, inr, Bool, true, false, ◌&&◌, List, [],
  ◌∷◌, ◌++◌, Option, none, some, ◌==◌, if◌then◌else◌, take, drop, set, length, arith, ap, ap₂, sym,
  ◌∙◌, subst, subst⁻¹, Bool-cases, Option-cases, length-append, append_assoc, take-append-drop,
  length-take, length-drop,
}
use native_crash2java.LineReader.{max_line_len, LineReader, line_end, refill, get_next_line}
use native_crash2java.LineReader.Ends.{empty-buf, first_line}
use native_crash2java.LineReader.Found.{
  IsReading, IsSound, text, IsFirstLine, found-IsFirstLine, full-IsFirstLine, last-IsFirstLine,
  empty-IsFirstLine,
}

-- The rounds that are enough.
abbrev rounds_for : LineReader → ℕ
rounds_for r = length r.rest + (if r.hit_eof then 1 else 2)

List-cases : (xs : List ℕ) → (xs ≡ []) ⊎ ((c : ℕ) × (cs : List ℕ) × (xs ≡ c ∷ cs))
List-cases [] = inl refl
List-cases (c ∷ cs) = inr (c, cs, refl)

-- A read keeps the text, and fewer rounds are left to do.
record IsRefilled (r r' : LineReader) : Type 0 where
  sound : IsSound r'
  same : text r' ≡ text r
  less : suc (rounds_for r') ≤ rounds_for r

refill-IsRefilled :
    (read : List ℕ → ℕ → Option ℕ) (r : LineReader)
    → IsReading read
    → IsSound r
    → length r.buf < max_line_len
    → r.hit_eof ≡ false
    → (n : ℕ) × (read r.rest (max_line_len - length r.buf) ≡ some n) × IsRefilled r (refill n r)
refill-IsRefilled read r reading s space more = elim (List-cases r.rest) [
  | inl gone ↦ (
    0,
    ap (λ b. read b (max_line_len - length r.buf)) gone
        ∙ reading.at_end (max_line_len - length r.buf),
    record {
      sound = record { bounded = s.bounded; ended = λ x. gone };
      same = refl;
      less =
          subst⁻¹ (λ b. suc (length r.rest + 1) ≤ length r.rest + (if b then 1 else 2)) more
            (omega arith);
    },
  )
  | inr (c, cs, there) ↦
      let (n, e, fits) = reading.before c cs (max_line_len - length r.buf) (omega arith) in
      let l : length (r.buf ++ take (suc n) r.rest) ≡ length r.buf + length (take (suc n) r.rest) =
        length-append r.buf (take (suc n) r.rest) in
      let t : length (take (suc n) r.rest) ≤ suc n =
        (let a = length-take (suc n) r.rest in omega arith) in
      let d : length (drop (suc n) r.rest) ≡ length r.rest - suc n = length-drop (suc n) r.rest in
      let long : length r.rest ≡ suc (length cs) = ap length there in
      (
        suc n,
        ap (λ b. read b (max_line_len - length r.buf)) there ∙ e,
        record {
          sound = record {
            bounded =
                (let b : length (r.buf ++ take (suc n) r.rest) ≤ max_line_len = omega arith in b);
            ended = λ x. absurd (let no : true ≡ false = sym x ∙ more in cc);
          };
          same =
              append_assoc r.buf (take (suc n) r.rest) (drop (suc n) r.rest)
              ∙ ap (λ b. r.buf ++ b) (take-append-drop (suc n) r.rest);
          less =
              subst⁻¹
                (λ b.
                  suc (length (drop (suc n) r.rest) + (if b then 1 else 2))
                  ≤ length r.rest + (if b then 1 else 2))
                more (omega arith);
        },
      )
]

one_le : (b : Bool) → 1 ≤ (if b then 1 else 2)
one_le true = omega arith
one_le false = omega arith

over-empty : (r : LineReader) → IsSound r → (length r.buf == 0 && r.hit_eof) ≡ true → text r ≡ []
over-empty r s over =
    let no_more : r.hit_eof ≡ true = ground arith in
    let empty : (length r.buf == 0) ≡ true = ground arith in
    ap₂ ◌++◌ (empty-buf r.buf empty) (s.ended no_more)

nonempty-long :
    (r : LineReader)
    → (length r.buf == 0 && r.hit_eof) ≡ false
    → r.hit_eof ≡ true
    → 0 < length r.buf
nonempty-long r more ended = ground arith

short-long :
    (r : LineReader)
    → IsSound r
    → (length r.buf == max_line_len) ≡ false
    → length r.buf < max_line_len
short-long r s space = let b : length r.buf ≤ max_line_len = s.bounded in ground arith

round-refill :
    (read : List ℕ → ℕ → Option ℕ) (rounds n : ℕ) (r : LineReader)
    → (length r.buf == 0 && false) ≡ false
    → line_end r.buf ≡ none
    → (length r.buf == max_line_len) ≡ false
    → read r.rest (max_line_len - length r.buf) ≡ some n
    → get_next_line read (suc rounds) (record r { hit_eof = false })
      ≡ get_next_line read rounds (refill n (record r { hit_eof = false }))
unfolding get_next_line
round-refill read rounds n r more no_end space e = simp (more, no_end, space, e) refl

round-goes_on :
    (read : List ℕ → ℕ → Option ℕ) (rounds n : ℕ) (r : LineReader)
    → r.hit_eof ≡ false
    → line_end r.buf ≡ none
    → (length r.buf == max_line_len) ≡ false
    → read r.rest (max_line_len - length r.buf) ≡ some n
    → get_next_line read (suc rounds) r ≡ get_next_line read rounds (refill n r)
round-goes_on read rounds n r goes_on no_end space e =
    subst⁻¹
      (λ b.
        get_next_line read (suc rounds) (record r { hit_eof = b })
        ≡ get_next_line read rounds (refill n (record r { hit_eof = b })))
      goes_on (round-refill read rounds n r (ground arith) no_end space e)

-- `GetNextLine` returns after as many rounds as there are bytes in the file and two more, with the
-- first line of what was not read yet and, behind `PopLine`, the reader in front of the next line; it
-- returns false where nothing is left or the line has 512 bytes or more. The reads that the kernel
-- splits the file into make no difference.
pub get_next_line-IsFirstLine :
    (read : List ℕ → ℕ → Option ℕ) (rounds : ℕ) (r : LineReader)
    → IsReading read
    → IsSound r
    → length r.rest + (if r.hit_eof then 1 else 2) ≤ rounds
    → (len : Option ℕ) × (r' : LineReader) × (get_next_line read rounds r ≡ some (len, r'))
      × IsFirstLine (first_line (text r)) len r'
unfolding get_next_line
get_next_line-IsFirstLine read zero r reading s enough =
    absurd (let b : 1 ≤ (if r.hit_eof then 1 else 2) = one_le r.hit_eof in omega arith)
get_next_line-IsFirstLine read (suc rounds) r reading s enough =
    elim (Bool-cases (length r.buf == 0 && r.hit_eof)) [
      | inl over ↦ (none, r, simp over refl, empty-IsFirstLine r (over-empty r s over))
      | inr more ↦ elim (Option-cases (line_end r.buf)) [
        | inr (i, at_i) ↦ (
          some i,
          record r { buf = set r.buf i 0 },
          simp (more, at_i) refl,
          found-IsFirstLine r i s at_i,
        )
        | inl no_end ↦ elim (Bool-cases (length r.buf == max_line_len)) [
          | inl full ↦ (
            none,
            r,
            simp (more, no_end, full) refl,
            full-IsFirstLine r no_end (let t : length r.buf ≡ max_line_len = ground arith in t),
          )
          | inr space ↦ elim (Bool-cases r.hit_eof) [
            | inl ended ↦ (
              some (length r.buf),
              record r { buf = r.buf ++ 0 ∷ [] },
              simp ((let t : (length r.buf == 0) ≡ false = ground arith in t), no_end, space, ended)
                  refl,
              last-IsFirstLine r no_end (nonempty-long r more ended) (short-long r s space)
                  (s.ended ended),
            )
            | inr goes_on ↦
                let (n, e, x) = refill-IsRefilled read r reading s (short-long r s space) goes_on in
                let (len, r', result, line) =
                  get_next_line-IsFirstLine read rounds (refill n r) reading x.sound (
                    let y : suc (rounds_for (refill n r)) ≤ rounds_for r = x.less in omega arith) in
                (
                  len,
                  r',
                  round-goes_on read rounds n r goes_on no_end space e ∙ result,
                  subst (λ b. IsFirstLine (first_line b) len r') x.same line,
                )
          ]
        ]
      ]
    ]
