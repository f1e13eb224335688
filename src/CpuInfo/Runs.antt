-- ===== src/CpuInfo/Runs.antt =====
-- Tests and examples of the reader of /proc/cpuinfo.
use native_crash2java.Base.{ℕ, ◌≡◌, refl, true, false, List, [], ◌∷◌, Option, some, arith}
use native_crash2java.Base.Codes.{codes}
use native_crash2java.Libc.Text.{my_isspace}
use native_crash2java.LineReader.Found.{IsReading}
use native_crash2java.CpuInfo.{
  CpuInfoReader, cpu_info_reader, split_at_colon, skip_spaces, strip_spaces, no_colon, nameless,
  field, parsed, get_next_field,
}
use native_crash2java.CpuInfo.Fields.{parse, IsFirstField}
use native_crash2java.CpuInfo.Meaning.{FirstField}
use native_crash2java.CpuInfo.First.{get_next_field-FirstField}

abbrev one_by_one : List ℕ → ℕ → Option ℕ
one_by_one [] space = some 0
one_by_one (c ∷ file) space = some 1

abbrev file : List ℕ
file = codes "x\n: y\ncpu MHz\t : 800\n"

-- A name can contain spaces, and lines without a colon or without a name give no field.
parse_runs :
    (parse (codes "cpu MHz\t : 800") ≡ field (codes "cpu MHz") (codes "800"))
    × (parse (codes " : 1") ≡ nameless (codes "1"))
    × (parse (codes "flags") ≡ no_colon)
    × (parse (codes "bugs:") ≡ field (codes "bugs") [])
unfolding parsed split_at_colon skip_spaces strip_spaces my_isspace
parse_runs = (refl, refl, refl, refl)

one_by_one-IsReading : IsReading one_by_one
one_by_one-IsReading = record {
  at_end = λ space. refl;
  before = λ c text space h. (0, refl, omega arith);
}

get_next_field-FirstField_example :
    (found : Option (List ℕ × List ℕ × List ℕ)) × (name : Option (List ℕ)) × (r' : CpuInfoReader)
    × FirstField file found
    × (get_next_field one_by_one 30 (cpu_info_reader file) ≡ some (name, r'))
    × IsFirstField found name r'
get_next_field-FirstField_example =
    get_next_field-FirstField one_by_one 30 (cpu_info_reader file) one_by_one-IsReading
      (record { bounded = omega arith; ended = λ x. absurd (let no : false ≡ true = x in cc) })
      (omega arith)
