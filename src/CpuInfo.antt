-- ===== src/CpuInfo.antt =====
-- client/linux/minidump_writer/proc_cpuinfo_reader.h: `ProcCpuInfoReader`, which reads the fields of
-- /proc/cpuinfo line by line. A pointer into the line is the text from there to its end.
pub mod Fields
pub mod Meaning
pub mod First
mod Runs
use native_crash2java.Base.{
  ℕ, zero, suc, ◌+◌, Bool, true, false, not, List, [], ◌∷◌, ◌++◌, Option, none, some, ◌==◌,
  if◌then◌else◌, take, drop, set, length,
}
use native_crash2java.Libc.Text.{my_isspace}
use native_crash2java.LineReader.{LineReader, line_reader, get_next_line, pop_line}

-- `ProcCpuInfoReader`: a `pop_count_` of -1 is `none`. `value` is the text at `value_`.
pub record CpuInfoReader : Type 0 where
  pub line_reader : LineReader
  pub pop_count : Option ℕ
  pub value : List ℕ

abbrev pub cpu_info_reader : List ℕ → CpuInfoReader
cpu_info_reader file = record { line_reader = line_reader file; pop_count = none; value = [] }

abbrev pub is_space : ℕ → Bool
is_space c = not (my_isspace c == 0)

-- The text before the first colon and the text behind it.
unfoldable pub split_at_colon : List ℕ → Option (List ℕ × List ℕ)
split_at_colon [] = none
split_at_colon (c ∷ line) =
    let rest = split_at_colon line in
    if c == b':'
    then some ([], line)
    else elim rest [ none ↦ none | some (before, behind) ↦ some (c ∷ before, behind) ]

-- The loop that skips spaces.
unfoldable pub skip_spaces : List ℕ → List ℕ
skip_spaces [] = []
skip_spaces (c ∷ line) = let rest = skip_spaces line in if is_space c then rest else c ∷ line

-- What the loop leaves that takes spaces off the end.
abbrev pub keep : ℕ → List ℕ → List ℕ
keep c [] = if is_space c then [] else c ∷ []
keep c (d ∷ name) = c ∷ d ∷ name

unfoldable pub strip_spaces : List ℕ → List ℕ
strip_spaces [] = []
strip_spaces (c ∷ name) = keep c (strip_spaces name)

-- What a line gives: nothing, a value whose name is empty, or a field.
pub data Parsed : Type 0 where
  no_colon : Parsed
  nameless : List ℕ → Parsed
  field : List ℕ → List ℕ → Parsed

abbrev pub named : List ℕ → List ℕ → Parsed
named [] value = nameless value
named (c ∷ name) value = field (c ∷ name) value

unfoldable pub parsed : Option (List ℕ × List ℕ) → Parsed
unfolding strip_spaces skip_spaces
parsed none = no_colon
parsed (some (before, behind)) = named (strip_spaces before) (skip_spaces behind)

-- The line is popped that was read last.
abbrev pub popped : Option ℕ → LineReader → LineReader
popped none r = r
popped (some len) r = pop_line len r

-- The field is handed out: the byte behind its name is set to NUL.
abbrev pub hand_out : ℕ → LineReader → List ℕ → List ℕ → Option (List ℕ) × CpuInfoReader
hand_out len l name value = (
  some name,
  record {
    line_reader = record l { buf = set l.buf (length name) 0 };
    pop_count = some len;
    value = value;
  },
)

abbrev pub on_parsed :
    (CpuInfoReader → Option (Option (List ℕ) × CpuInfoReader))
    → List ℕ
    → ℕ
    → LineReader
    → Parsed
    → Option (Option (List ℕ) × CpuInfoReader)
on_parsed again value len l no_colon =
    again (record { line_reader = l; pop_count = some len; value = value })
on_parsed again value len l (nameless v) =
    again (record { line_reader = l; pop_count = some len; value = v })
on_parsed again value len l (field name v) = some (hand_out len l name v)

unfoldable pub on_line :
    (CpuInfoReader → Option (Option (List ℕ) × CpuInfoReader))
    → List ℕ
    → Option (Option ℕ × LineReader)
    → Option (Option (List ℕ) × CpuInfoReader)
unfolding split_at_colon parsed
on_line again value none = none
on_line again value (some (none, l)) =
    some (none, record { line_reader = l; pop_count = none; value = value })
on_line again value (some (some len, l)) =
    on_parsed again value len l (parsed (split_at_colon (take len l.buf)))

-- `GetNextField`, line by line: the name of the field, or `none` for false. `none` in front is that the
-- rounds were not enough.
unfoldable pub get_next_field :
    (List ℕ → ℕ → Option ℕ) → ℕ → CpuInfoReader → Option (Option (List ℕ) × CpuInfoReader)
unfolding on_line
get_next_field read zero r = none
get_next_field read (suc rounds) r =
    let l : LineReader = popped r.pop_count r.line_reader in
    on_line (get_next_field read rounds) r.value (get_next_line read (length l.rest + 2) l)
