-- ===== src/LineReader.antt =====
-- client/linux/minidump_writer/line_reader.h: `LineReader`, which reads a file line by line into a
-- buffer of fixed size. `rest` are the bytes of the file that were not read yet, and the argument
-- `read` is `sys_read` by these bytes and the space that is left: the number of bytes, `none` for -1.
pub mod Ends
pub mod Found
pub mod Next
pub mod All
mod Runs
use native_crash2java.Base.{
  ℕ, zero, suc, ◌+◌, ◌-◌, Bool, true, false, ◌&&◌, ◌||◌, List, [], ◌∷◌, ◌++◌, Option, none, some,
  ◌==◌, if◌then◌else◌, take, drop, set, length,
}

-- `kMaxLineLen`
abbrev pub max_line_len : ℕ
max_line_len = 512

-- `buf` are the used bytes of `buf_`.
pub record LineReader : Type 0 where
  pub hit_eof : Bool
  pub buf : List ℕ
  pub rest : List ℕ

abbrev pub line_reader : List ℕ → LineReader
line_reader file = record { hit_eof = false; buf = []; rest = file }

abbrev pub plus_one : Option ℕ → Option ℕ
plus_one none = none
plus_one (some i) = some (suc i)

-- The loop over the buffer: the index of the first byte that ends a line.
unfoldable pub line_end : List ℕ → Option ℕ
line_end [] = none
line_end (c ∷ buf) =
    let later = line_end buf in if c == b'\n' || c == 0 then some 0 else plus_one later

-- The bytes that came are added to the buffer.
abbrev pub refill : ℕ → LineReader → LineReader
refill zero r = record r { hit_eof = true }
refill (suc n) r = record r { buf = r.buf ++ take (suc n) r.rest; rest = drop (suc n) r.rest }

-- `GetNextLine`, round by round: the length of the line, which stands at the front of the buffer, or
-- `none` for false. `none` in front is that the rounds were not enough.
unfoldable pub get_next_line :
    (List ℕ → ℕ → Option ℕ) → ℕ → LineReader → Option (Option ℕ × LineReader)
unfolding line_end
get_next_line read zero r = none
get_next_line read (suc rounds) r =
    if length r.buf == 0 && r.hit_eof then some (none, r) else elim (line_end r.buf) [
      | some i ↦ some (some i, record r { buf = set r.buf i 0 })
      | none ↦
          if length r.buf == max_line_len
          then some (none, r)
          else if r.hit_eof
          then some (some (length r.buf), record r { buf = r.buf ++ 0 ∷ [] })
          else elim (read r.rest (max_line_len - length r.buf)) [
            | none ↦ some (none, r)
            | some n ↦ get_next_line read rounds (refill n r)
          ]
    ]

-- `PopLine`
unfoldable pub pop_line : ℕ → LineReader → LineReader
pop_line len r = record r { buf = drop (len + 1) r.buf }
