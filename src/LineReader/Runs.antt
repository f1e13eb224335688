-- ===== src/LineReader/Runs.antt =====
-- Tests and examples of the line reader.
use native_crash2java.Base.{
  ℕ, ◌≡◌, refl, true, false, List, [], ◌∷◌, Option, none, some, arith, replicate,
}
use native_crash2java.Base.Codes.{codes}
use native_crash2java.LineReader.{LineReader, line_reader, line_end, get_next_line, pop_line}
use native_crash2java.LineReader.Ends.{first_line}
use native_crash2java.LineReader.Found.{IsReading, IsFirstLine}
use native_crash2java.LineReader.Next.{get_next_line-IsFirstLine}
use native_crash2java.LineReader.All.{lines, read_lines, read_lines-file}

-- A kernel that gives one byte at a time, and one that gives three.
abbrev one_by_one : List ℕ → ℕ → Option ℕ
one_by_one [] space = some 0
one_by_one (c ∷ file) space = some 1

abbrev three_by_three : List ℕ → ℕ → Option ℕ
three_by_three (a ∷ b ∷ c ∷ file) space = some 3
three_by_three (a ∷ b ∷ []) space = some 2
three_by_three (a ∷ []) space = some 1
three_by_three [] space = some 0

abbrev file : List ℕ
file = codes "ab\n\ncde"

-- The last line needs no newline, an empty line counts, and a line that is too long ends it all.
line_reader_runs :
    (read_lines one_by_one 9 (line_reader file) ≡ some (codes "ab" ∷ [] ∷ codes "cde" ∷ []))
    × (read_lines three_by_three 9 (line_reader file) ≡ some (codes "ab" ∷ [] ∷ codes "cde" ∷ []))
    × (get_next_line one_by_one 9 (line_reader [])
        ≡ some (none, record { hit_eof = true; buf = []; rest = [] }))
unfolding read_lines get_next_line line_end pop_line
line_reader_runs = (refl, refl, refl)

long_line :
    get_next_line one_by_one 3
      (record { hit_eof = false; buf = replicate 512 b'a'; rest = codes "\n" })
    ≡ some (none, record { hit_eof = false; buf = replicate 512 b'a'; rest = codes "\n" })
unfolding get_next_line line_end
long_line = refl

one_by_one-IsReading : IsReading one_by_one
one_by_one-IsReading = record {
  at_end = λ space. refl;
  before = λ c file space h. (0, refl, omega arith);
}

get_next_line-IsFirstLine_example :
    (len : Option ℕ) × (r' : LineReader) × (get_next_line one_by_one 9 (line_reader file)
      ≡ some (len, r'))
    × IsFirstLine (first_line file) len r'
get_next_line-IsFirstLine_example =
    get_next_line-IsFirstLine one_by_one 9 (line_reader file) one_by_one-IsReading
      (record { bounded = omega arith; ended = λ x. absurd (let no : false ≡ true = x in cc) })
      (omega arith)

read_lines-file_example : read_lines one_by_one 9 (line_reader file) ≡ some (lines 9 file)
read_lines-file_example = read_lines-file one_by_one 9 file one_by_one-IsReading
