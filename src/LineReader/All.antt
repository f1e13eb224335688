-- ===== src/LineReader/All.antt =====
-- All the lines of a file, as a loop of `GetNextLine` and `PopLine` reads them.
use native_crash2java.Base.{
  ℕ, zero, suc, ◌+◌, ◌≤◌, ◌≡◌, refl, inl, inr, true, false, List, [], ◌∷◌, Option, none, some,
  if◌then◌else◌, take, length, arith, ap, sym, ◌∙◌, subst, Option-cases, ◌>>=◌,
}
use native_crash2java.LineReader.{LineReader, line_reader, get_next_line, pop_line}
use native_crash2java.LineReader.Ends.{first_line}
use native_crash2java.LineReader.Found.{IsReading, IsSound, text, IsFirstLine}
use native_crash2java.LineReader.Next.{get_next_line-IsFirstLine}

abbrev on_cut : (List ℕ → List (List ℕ)) → Option (List ℕ × List ℕ) → List (List ℕ)
on_cut later none = []
on_cut later (some cut) = cut.0 ∷ later cut.1

-- The lines of these bytes, up to the first one that is too long; `n` lines at most.
unfoldable pub lines : ℕ → List ℕ → List (List ℕ)
lines zero bytes = []
lines (suc n) bytes = on_cut (lines n) (first_line bytes)

abbrev pub rounds_for : LineReader → ℕ
rounds_for r = length r.rest + 2

abbrev on_line :
    (LineReader → Option (List (List ℕ))) → Option (Option ℕ × LineReader) → Option (List (List ℕ))
on_line later none = none
on_line later (some (none, r)) = some []
on_line later (some (some len, r)) = later (pop_line len r) >>= λ ls. some (take len r.buf ∷ ls)

-- The loop; `none` is that the rounds of `GetNextLine` were not enough.
unfoldable pub read_lines : (List ℕ → ℕ → Option ℕ) → ℕ → LineReader → Option (List (List ℕ))
read_lines read zero r = some []
read_lines read (suc n) r = on_line (read_lines read n) (get_next_line read (rounds_for r) r)

enough : (r : LineReader) → length r.rest + (if r.hit_eof then 1 else 2) ≤ rounds_for r
enough r = ground arith

lines-none : (n : ℕ) (bytes : List ℕ) → first_line bytes ≡ none → lines (suc n) bytes ≡ []
unfolding lines
lines-none n bytes e = ap (on_cut (lines n)) e

lines-some :
    (n : ℕ) (bytes : List ℕ) (cut : List ℕ × List ℕ)
    → first_line bytes ≡ some cut
    → lines (suc n) bytes ≡ cut.0 ∷ lines n cut.1
unfolding lines
lines-some n bytes cut e = ap (on_cut (lines n)) e

module _ (read : List ℕ → ℕ → Option ℕ) (n : ℕ) (r r' : LineReader) where
  read_lines-none :
      get_next_line read (rounds_for r) r ≡ some (none, r') → read_lines read (suc n) r ≡ some []
  unfolding read_lines
  read_lines-none e = ap (on_line (read_lines read n)) e

  read_lines-some :
      (len : ℕ) (later : List (List ℕ))
      → get_next_line read (rounds_for r) r ≡ some (some len, r')
      → read_lines read n (pop_line len r') ≡ some later
      → read_lines read (suc n) r ≡ some (take len r'.buf ∷ later)
  unfolding read_lines
  read_lines-some len later e l =
      ap (on_line (read_lines read n)) e ∙ ap (λ o. o >>= λ ls. some (take len r'.buf ∷ ls)) l

read_lines-lines :
    (read : List ℕ → ℕ → Option ℕ) (n : ℕ) (r : LineReader)
    → IsReading read
    → IsSound r
    → read_lines read n r ≡ some (lines n (text r))
read_lines-lines read zero r reading s = unfold read_lines lines in refl
read_lines-lines read (suc n) r reading s =
    let (len, r', e, line) = get_next_line-IsFirstLine read (rounds_for r) r reading s (enough r) in
    elim (Option-cases (first_line (text r))) [
      | inl over ↦
          let at_end : len ≡ none = subst (λ x. IsFirstLine x len r') over line in
          read_lines-none read n r r' (e ∙ ap (λ o. some (o, r')) at_end)
          ∙ ap some (sym (lines-none n (text r) over))
      | inr (cut, there) ↦
          let (long, same, s', behind) : IsFirstLine (some cut) len r' =
            subst (λ x. IsFirstLine x len r') there line in
          let later : read_lines read n (pop_line (length cut.0) r') ≡ some (lines n cut.1) =
            read_lines-lines read n (pop_line (length cut.0) r') reading s'
            ∙ ap (λ b. some (lines n b)) behind in
          read_lines-some read n r r' (length cut.0) (lines n cut.1)
            (e ∙ ap (λ o. some (o, r')) long) later
          ∙ ap (λ l. some (l ∷ lines n cut.1)) same
          ∙ ap some (sym (lines-some n (text r) cut there))
    ]

-- Reading a file line by line gives its lines, each without the newline or the NUL that ends it, up to
-- the first line of 512 bytes or more, wherever the kernel splits the file into reads.
pub read_lines-file :
    (read : List ℕ → ℕ → Option ℕ) (n : ℕ) (file : List ℕ)
    → IsReading read
    → read_lines read n (line_reader file) ≡ some (lines n file)
read_lines-file read n file reading =
    read_lines-lines read n (line_reader file) reading
      (record { bounded = omega arith; ended = λ x. absurd (let no : false ≡ true = x in cc) })
