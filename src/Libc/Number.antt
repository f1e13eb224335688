-- ===== src/Libc/Number.antt =====
-- linux_libc_support.cc: the functions that read and print numbers.
pub mod Parse
pub mod Print
use mathlib.Core.WellFounded.{Acc}
use mathlib.Core.Logic.{dite}
use native_crash2java.Base.{
  ℕ, zero, suc, ◌+◌, ◌-◌, ◌*◌, ◌/◌, ◌%◌, ◌^◌, ◌<◌, Bool, ◌&&◌, ◌||◌, List, [], ◌∷◌, Option, none,
  some, ltb, leb, ◌==◌, if◌then◌else◌, arith, dec_lt, lt_wf, store, ◌>>=◌,
}

-- An `int` is kept as its 32-bit pattern; this is `<` on the integers that two patterns stand for.
abbrev pub int_lt : ℕ → ℕ → Bool
int_lt a b = ltb ((a + 2 ^ 31) % 2 ^ 32) ((b + 2 ^ 31) % 2 ^ 32)

abbrev pub is_digit : ℕ → Bool
is_digit c = leb b'0' c && leb c b'9'

-- The inner `none` is the result false, which leaves `*result` alone. The products and sums wrap
-- at 32 bits, as they do on the two's complement machines that the code is built for.
strtoui_loop : ℕ → List ℕ → Option (Option ℕ)
strtoui_loop r [] = none
strtoui_loop r (c ∷ s) =
    if c == 0
    then some (some r)
    else if ltb c b'0' || ltb b'9' c
    then some none
    else (let r' = (r * 10 % 2 ^ 32 + (c - b'0')) % 2 ^ 32 in
        let rest = strtoui_loop r' s in if int_lt r' r then some none else rest)

unfoldable pub my_strtoui : List ℕ → Option (Option ℕ)
unfolding strtoui_loop
my_strtoui [] = none
my_strtoui (c ∷ s) = if c == 0 then some none else strtoui_loop 0 (c ∷ s)

pub tenth_lt : (i : ℕ) → 0 < i → i / 10 < i
tenth_lt i h = omega arith

uint_len_loop : ℕ → (i : ℕ) → Acc ◌<◌ i → ℕ
uint_len_loop len i (Acc.intro _ smaller) =
    dite (dec_lt 0 i) (λ h. uint_len_loop (len + 1) (i / 10) (smaller _ (tenth_lt i h))) (λ _. len)

unfoldable pub my_uint_len : ℕ → ℕ
unfolding uint_len_loop lt_wf dec_lt
my_uint_len i = if i == 0 then 1 else uint_len_loop 0 i (lt_wf.apply i)

-- `none` is a write past the end of `output`.
unfoldable pub my_uitos : List ℕ → ℕ → ℕ → Option (List ℕ)
my_uitos output i zero = some output
my_uitos output i (suc index) = do
  output' ← store output index (b'0' + i % 10)
  my_uitos output' (i / 10) index

-- The branches of `my_read_hex_ptr` on one character.
unfoldable pub hex_digit : ℕ → Option ℕ
hex_digit c =
    if leb b'0' c && leb c b'9'
    then some (c - b'0')
    else if leb b'a' c && leb c b'f'
    then some (c - b'a' + 10)
    else if leb b'A' c && leb c b'F'
    then some (c - b'A' + 10)
    else none

-- A `uintptr_t` has `w` bits. The result is the value and the memory at the returned pointer.
hex_loop : ℕ → ℕ → List ℕ → Option (ℕ × List ℕ)
unfolding hex_digit
hex_loop w r [] = none
hex_loop w r (c ∷ s) = elim (hex_digit c) [
  | some d ↦ hex_loop w ((r * 16 % 2 ^ w + d) % 2 ^ w) s
  | none ↦ some (r, c ∷ s)
]

unfoldable pub my_read_hex_ptr : ℕ → List ℕ → Option (ℕ × List ℕ)
unfolding hex_loop
my_read_hex_ptr w s = hex_loop w 0 s

decimal_loop : ℕ → ℕ → List ℕ → Option (ℕ × List ℕ)
decimal_loop w r [] = none
decimal_loop w r (c ∷ s) =
    if is_digit c then decimal_loop w ((r * 10 % 2 ^ w + (c - b'0')) % 2 ^ w) s else some (r, c ∷ s)

unfoldable pub my_read_decimal_ptr : ℕ → List ℕ → Option (ℕ × List ℕ)
unfolding decimal_loop
my_read_decimal_ptr w s = decimal_loop w 0 s
