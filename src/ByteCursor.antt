-- ===== src/ByteCursor.antt =====
-- common/byte_cursor.h: `ByteCursor`. The cursor is the bytes that are left before the end of the
-- buffer; `width` is the number of bits of the type that is read.
pub mod Reads
mod Runs
use Prim.Native.Nat.{bit_xor}
use native_crash2java.Base.{
  ℕ, zero, suc, ◌+◌, ◌-◌, ◌*◌, ◌^◌, ◌%◌, Bool, true, false, ◌&&◌, ltb, leb, ◌==◌, List, [], ◌∷◌,
  ◌++◌, Option, none, some, if◌then◌else◌, length, take, drop,
}

pub record ByteCursor : Type 0 where
  pub left : List ℕ
  pub big_endian : Bool
  pub complete : Bool

unfoldable pub byte_cursor : List ℕ → Bool → ByteCursor
byte_cursor buffer big_endian = record { left = buffer; big_endian = big_endian; complete = true }

unfoldable pub available : ByteCursor → ℕ
available c = length c.left

-- `here_ = buffer_->end`, and the flag is cleared.
abbrev pub ran_off : ByteCursor → ByteCursor
ran_off c = record c { left = []; complete = false }

unfoldable pub check_available : ℕ → ByteCursor → Bool × ByteCursor
unfolding available
check_available size c = if leb size (available c) then (true, c) else (false, ran_off c)

abbrev pub advance : ℕ → ByteCursor → ByteCursor
advance size c = record c { left = drop size c.left }

unfoldable pub skip_bytes : ℕ → ByteCursor → ByteCursor
unfolding check_available
skip_bytes size c = let (ok, c') = check_available size c in if ok then advance size c' else c'

-- `Read(buffer, size)`: the bytes that are copied.
unfoldable pub read_bytes : ℕ → ByteCursor → Option (List ℕ) × ByteCursor
unfolding check_available
read_bytes size c =
    let (ok, c') = check_available size c in
    if ok then (some (take size c'.left), advance size c') else (none, c')

-- `v = (v << 8) + here_[i]` over the bytes in the order in which they are read.
unfoldable pub read_loop : ℕ → ℕ → List ℕ → ℕ
read_loop width v [] = v
read_loop width v (b ∷ bs) = read_loop width ((v * 256 + b) % 2 ^ width) bs

unfoldable pub reversed : List ℕ → List ℕ
reversed [] = []
reversed (b ∷ bs) = reversed bs ++ b ∷ []

-- `Read` of an unsigned number.
unfoldable pub read_unsigned : ℕ → ℕ → ByteCursor → ℕ × ByteCursor
unfolding check_available
read_unsigned width size c =
    let (ok, c') = check_available size c in
    if ok
    then (
      read_loop width 0 (if c'.big_endian then take size c'.left else reversed (take size c'.left)),
      advance size c',
    )
    else (3735928559 % 2 ^ width, c')

-- `CString(str)`: the text before the first NUL, and what is behind that.
unfoldable pub until_nul : List ℕ → Option (List ℕ × List ℕ)
until_nul [] = none
until_nul (b ∷ bs) =
    if b == 0
    then some ([], bs)
    else elim (until_nul bs) [ none ↦ none | some (text, rest) ↦ some (b ∷ text, rest) ]

unfoldable pub read_c_string : ByteCursor → List ℕ × ByteCursor
unfolding until_nul
read_c_string c = elim (until_nul c.left) [
  | none ↦ ([], ran_off c)
  | some (text, rest) ↦ (text, record c { left = rest })
]

-- `CString(str, limit)`
unfoldable pub read_c_string_within : ℕ → ByteCursor → List ℕ × ByteCursor
unfolding check_available until_nul
read_c_string_within limit c =
    let (ok, c') = check_available limit c in
    if ok
    then (
      elim (until_nul (take limit c'.left)) [
        | none ↦ take limit c'.left
        | some (text, rest) ↦ text
      ],
      advance limit c',
    )
    else ([], c')

-- `AtEnd`
abbrev pub at_end : ByteCursor → Bool
at_end c = available c == 0

-- `PointTo`: the bytes from the pointer on, `none` for NULL.
unfoldable pub point_to : ℕ → ByteCursor → Option (List ℕ) × ByteCursor
unfolding check_available
point_to size c =
    let (ok, c') = check_available size c in
    if ok then (some c'.left, advance size c') else (none, c')

-- `(v ^ sign_bit) - sign_bit` as a word of `width` bits.
abbrev pub sign_extended : ℕ → ℕ → ℕ → ℕ
sign_extended width size v =
    let sign_bit : ℕ = 2 ^ (size * 8 - 1) in
    (bit_xor v sign_bit + (2 ^ width - sign_bit)) % 2 ^ width

-- `Read` of a signed number, as the word of `width` bits that holds it.
unfoldable pub read_signed : ℕ → ℕ → ByteCursor → ℕ × ByteCursor
unfolding read_unsigned
read_signed width size c =
    let (v, c') = read_unsigned width size c in
    (if leb size (available c) && ltb (size * 8) width then sign_extended width size v else v, c')
