-- ===== src/Libc/Number/Parse.antt =====
-- linux_libc_support.cc: what `my_strtoui`, `my_read_decimal_ptr` and `my_read_hex_ptr` accept, and
-- the number that they return.
use native.Mathlib.Nat.{mod-eq_of_lt}
use native_crash2java.Base.{
  ℕ, ◌+◌, ◌-◌, ◌*◌, ◌%◌, ◌^◌, ◌≤◌, ◌<◌, ◌≡◌, refl, false, List, [], ◌∷◌, ◌++◌, none, some, arith,
  All, ap, ◌∙◌,
}
use native_crash2java.Libc.Number.{
  is_digit, my_strtoui, strtoui_loop, my_read_decimal_ptr, decimal_loop, my_read_hex_ptr, hex_loop,
  hex_digit,
}

abbrev pub IsDigit : ℕ → Type 0
IsDigit c = (b'0' ≤ c) × (c ≤ b'9')

-- The number that digits stand for, behind a number `r` that was read already.
unfoldable pub value_from : ℕ → List ℕ → ℕ
value_from r [] = r
value_from r (c ∷ s) = value_from (r * 10 + (c - b'0')) s

value_from-ge : (r : ℕ) (ds : List ℕ) → r ≤ value_from r ds
unfolding value_from
value_from-ge r [] = omega arith
value_from-ge r (c ∷ ds) = omega (arith, value_from-ge (r * 10 + (c - b'0')) ds)

strtoui_loop-value :
    (r : ℕ) (ds rest : List ℕ)
    → All IsDigit ds
    → value_from r ds < 2 ^ 31
    → strtoui_loop r (ds ++ 0 ∷ rest) ≡ some (some (value_from r ds))
unfolding strtoui_loop value_from
strtoui_loop-value r [] rest h fits = refl
strtoui_loop-value r (c ∷ ds) rest h fits = ground (
  arith,
  value_from-ge (r * 10 + (c - b'0')) ds,
  strtoui_loop-value (r * 10 + (c - b'0')) ds rest h.1,
)

-- `my_strtoui` returns the number that a string of decimal digits stands for, if an `int` can
-- hold it.
pub my_strtoui-value :
    (c : ℕ) (ds rest : List ℕ)
    → All IsDigit (c ∷ ds)
    → value_from 0 (c ∷ ds) < 2 ^ 31
    → my_strtoui (c ∷ ds ++ 0 ∷ rest) ≡ some (some (value_from 0 (c ∷ ds)))
unfolding my_strtoui
my_strtoui-value c ds rest h fits = ground (arith, strtoui_loop-value 0 (c ∷ ds) rest h fits)

no_wrap : (w n d : ℕ) → n + d < 2 ^ w → (n % 2 ^ w + d) % 2 ^ w ≡ n + d
no_wrap w n d h = let below : n < 2 ^ w = omega arith in rw (mod-eq_of_lt below) (mod-eq_of_lt h)

digit_round :
    (w r d : ℕ) (s : List ℕ)
    → IsDigit d
    → r * 10 + (d - b'0') < 2 ^ w
    → decimal_loop w r (d ∷ s) ≡ decimal_loop w (r * 10 + (d - b'0')) s
unfolding decimal_loop
digit_round w r d s h fits = ground (arith, no_wrap w (r * 10) (d - b'0') fits)

decimal_loop-value :
    (w r : ℕ) (ds : List ℕ) (c : ℕ) (rest : List ℕ)
    → All IsDigit ds
    → is_digit c ≡ false
    → value_from r ds < 2 ^ w
    → decimal_loop w r (ds ++ c ∷ rest) ≡ some (value_from r ds, c ∷ rest)
unfolding value_from
decimal_loop-value w r [] c rest h stop fits = unfold decimal_loop in rw stop
decimal_loop-value w r (d ∷ ds) c rest h stop fits =
    digit_round w r d (ds ++ c ∷ rest) h.0 (omega (arith, value_from-ge (r * 10 + (d - b'0')) ds))
    ∙ decimal_loop-value w (r * 10 + (d - b'0')) ds c rest h.1 stop fits

-- `my_read_decimal_ptr` returns the number that the digits at its argument stand for, if a
-- `uintptr_t` of `w` bits can hold it, and stops at the first character that is no digit.
pub my_read_decimal_ptr-value :
    (w : ℕ) (ds : List ℕ) (c : ℕ) (rest : List ℕ)
    → All IsDigit ds
    → is_digit c ≡ false
    → value_from 0 ds < 2 ^ w
    → my_read_decimal_ptr w (ds ++ c ∷ rest) ≡ some (value_from 0 ds, c ∷ rest)
unfolding my_read_decimal_ptr
my_read_decimal_ptr-value w ds c rest h stop fits = decimal_loop-value w 0 ds c rest h stop fits

-- The number that hexadecimal digits stand for; `digits` are their values.
unfoldable pub hex_value_from : ℕ → List ℕ → ℕ
hex_value_from r [] = r
hex_value_from r (d ∷ ds) = hex_value_from (r * 16 + d) ds

hex_value_from-ge : (r : ℕ) (ds : List ℕ) → r ≤ hex_value_from r ds
unfolding hex_value_from
hex_value_from-ge r [] = omega arith
hex_value_from-ge r (d ∷ ds) = omega (arith, hex_value_from-ge (r * 16 + d) ds)

-- The characters `cs` are the digits of the values `ds`.
abbrev pub AreHex : List ℕ → List ℕ → Type 0
AreHex [] [] = Unit {0}
AreHex [] (d ∷ ds) = ⊥
AreHex (c ∷ cs) [] = ⊥
AreHex (c ∷ cs) (d ∷ ds) = (hex_digit c ≡ some d) × AreHex cs ds

hex_round :
    (w r c d : ℕ) (s : List ℕ)
    → hex_digit c ≡ some d
    → r * 16 + d < 2 ^ w
    → hex_loop w r (c ∷ s) ≡ hex_loop w (r * 16 + d) s
unfolding hex_loop
hex_round w r c d s h fits = rw (h, hex_loop) (ap (λ n. hex_loop w n s) (no_wrap w (r * 16) d fits))

hex_loop-value :
    (w r : ℕ) (cs ds : List ℕ) (c : ℕ) (rest : List ℕ)
    → AreHex cs ds
    → hex_digit c ≡ none
    → hex_value_from r ds < 2 ^ w
    → hex_loop w r (cs ++ c ∷ rest) ≡ some (hex_value_from r ds, c ∷ rest)
unfolding hex_value_from hex_loop
hex_loop-value w r [] [] c rest h stop fits = rw (stop, hex_loop) refl
hex_loop-value w r [] (d ∷ ds) c rest h stop fits = absurd h
hex_loop-value w r (x ∷ cs) [] c rest h stop fits = absurd h
hex_loop-value w r (x ∷ cs) (d ∷ ds) c rest h stop fits =
    hex_round w r x d (cs ++ c ∷ rest) h.0 (omega (arith, hex_value_from-ge (r * 16 + d) ds))
    ∙ hex_loop-value w (r * 16 + d) cs ds c rest h.1 stop fits

-- `my_read_hex_ptr` returns the number that the hexadecimal digits at its argument stand for, if a
-- `uintptr_t` of `w` bits can hold it, and stops at the first character that is no such digit.
pub my_read_hex_ptr-value :
    (w : ℕ) (cs ds : List ℕ) (c : ℕ) (rest : List ℕ)
    → AreHex cs ds
    → hex_digit c ≡ none
    → hex_value_from 0 ds < 2 ^ w
    → my_read_hex_ptr w (cs ++ c ∷ rest) ≡ some (hex_value_from 0 ds, c ∷ rest)
unfolding my_read_hex_ptr
my_read_hex_ptr-value w cs ds c rest h stop fits = hex_loop-value w 0 cs ds c rest h stop fits
