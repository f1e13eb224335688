-- ===== src/CrashInfo/Hex.antt =====
-- The template `append(T value)`: the hexadecimal digits of a value, all `2 * sizeof(T)` of them.
use native.Mathlib.Nat.{pow-suc}
use native_crash2java.Base.{
  ℕ, zero, suc, ◌+◌, ◌*◌, ◌/◌, ◌%◌, ◌^◌, ◌<◌, ◌≡◌, refl, List, [], ◌∷◌, ◌++◌, none, some, arith,
  length, All, All-append, ap, ◌∙◌, append_assoc, length-replicate, replicate, store, length-append,
}
use native_crash2java.Libc.Text.{IsText}
use native_crash2java.Libc.Number.{hex_digit, my_read_hex_ptr}
use native_crash2java.Libc.Number.Parse.{AreHex, hex_value_from, my_read_hex_ptr-value}
use native_crash2java.Libc.Number.Print.{store_behind, snoc-cases}
use native_crash2java.CrashInfo.{CrashInfo, append_hex, hex_fill, hex_char}
use native_crash2java.CrashInfo.Appends.{Logs, append_text}

-- The last `k` hexadecimal digits of a value, and their values.
unfoldable pub hex_text : ℕ → ℕ → List ℕ
hex_text zero value = []
hex_text (suc k) value = hex_text k (value / 16) ++ hex_char (value % 16) ∷ []

nibbles : ℕ → ℕ → List ℕ
nibbles zero value = []
nibbles (suc k) value = nibbles k (value / 16) ++ value % 16 ∷ []

hex_fill-text :
    (k value : ℕ) (buf tail : List ℕ)
    → length buf ≡ k
    → hex_fill k value (buf ++ tail) ≡ some (hex_text k value ++ tail)
unfolding hex_fill hex_text
hex_fill-text zero value [] tail h = refl
hex_fill-text zero value (x ∷ buf) tail h = absurd (omega arith)
hex_fill-text (suc k) value buf tail h =
    let (pre, x, e, l) = snoc-cases k buf h in
    rw (e, append_assoc pre, append_assoc, store_behind pre x (hex_char (value % 16)) k tail l)
      (hex_fill-text k (value / 16) pre (hex_char (value % 16) ∷ tail) l)

length-hex_text : (k value : ℕ) → length (hex_text k value) ≡ k
unfolding hex_text
length-hex_text zero value = refl
length-hex_text (suc k) value = omega (
  arith,
  length-append (hex_text k (value / 16)) (hex_char (value % 16) ∷ []),
  length-hex_text k (value / 16),
)

hex_char-IsText : (n : ℕ) → n < 16 → IsText (hex_char n)
unfolding hex_char
hex_char-IsText n h = ground arith

pub hex_text-IsText : (k value : ℕ) → All IsText (hex_text k value)
unfolding hex_text
hex_text-IsText zero value = tt
hex_text-IsText (suc k) value =
    All-append IsText (hex_text k (value / 16)) _ (hex_text-IsText k (value / 16))
      (hex_char-IsText (value % 16) (omega arith), tt)

replicate-snoc : (k n : ℕ) → n ≡ k + 1 → replicate {A = ℕ} n 0 ≡ replicate k 0 ++ 0 ∷ []
replicate-snoc zero zero e = absurd (omega arith)
replicate-snoc zero (suc zero) e = refl
replicate-snoc zero (suc (suc n)) e = absurd (omega arith)
replicate-snoc (suc k) zero e = absurd (omega arith)
replicate-snoc (suc k) (suc n) e = ap (◌∷◌ 0) (replicate-snoc k n (omega arith))

-- A value of `size_of` bytes appends its `2 * size_of` hexadecimal digits.
pub append_hex-Appends :
    (size_of value : ℕ) (c : CrashInfo) (u : List ℕ)
    → Logs c u
    → (c' : CrashInfo) × (append_hex size_of value c ≡ some c')
      × Logs c' (u ++ hex_text (size_of * 2) value)
      × (c'.line_buffer_size ≡ c.line_buffer_size)
append_hex-Appends size_of value c u l =
    let (c', run, r, same) =
      append_text (hex_text (size_of * 2) value) (hex_text-IsText _ value) c u l in
    (c', unfold append_hex in rw (replicate-snoc (size_of * 2) _ refl, filled, closed) run, r, same)
  where
    filled :
        hex_fill (size_of * 2) value (replicate (size_of * 2) 0 ++ 0 ∷ [])
        ≡ some (hex_text (size_of * 2) value ++ 0 ∷ [])
    filled = hex_fill-text (size_of * 2) value _ (0 ∷ []) (length-replicate _ 0)

    closed :
        store (hex_text (size_of * 2) value ++ 0 ∷ []) (size_of * 2) 0
        ≡ some (hex_text (size_of * 2) value ++ 0 ∷ [])
    closed =
        store_behind (hex_text (size_of * 2) value) 0 0 (size_of * 2) [] (length-hex_text _ value)

hex_digit-hex_char : (n : ℕ) → n < 16 → hex_digit (hex_char n) ≡ some n
unfolding hex_digit hex_char
hex_digit-hex_char n h = ground arith

AreHex-append :
    (cs cs' ds ds' : List ℕ) → AreHex cs ds → AreHex cs' ds' → AreHex (cs ++ cs') (ds ++ ds')
AreHex-append [] cs' [] ds' h h' = h'
AreHex-append [] cs' (d ∷ ds) ds' h h' = absurd h
AreHex-append (c ∷ cs) cs' [] ds' h h' = absurd h
AreHex-append (c ∷ cs) cs' (d ∷ ds) ds' h h' = (h.0, AreHex-append cs cs' ds ds' h.1 h')

hex_text-AreHex : (k value : ℕ) → AreHex (hex_text k value) (nibbles k value)
unfolding hex_text nibbles
hex_text-AreHex zero value = tt
hex_text-AreHex (suc k) value =
    AreHex-append (hex_text k (value / 16)) _ (nibbles k (value / 16)) _
      (hex_text-AreHex k (value / 16)) (hex_digit-hex_char (value % 16) (omega arith), tt)

hex_value_from-snoc :
    (r : ℕ) (ds : List ℕ) (d : ℕ) → hex_value_from r (ds ++ d ∷ []) ≡ hex_value_from r ds * 16 + d
unfolding hex_value_from
hex_value_from-snoc r [] d = refl
hex_value_from-snoc r (x ∷ ds) d = hex_value_from-snoc (r * 16 + x) ds d

hex_value_from-nibbles : (k value : ℕ) → value < 16 ^ k → hex_value_from 0 (nibbles k value) ≡ value
unfolding nibbles
hex_value_from-nibbles zero value h = unfold hex_value_from in omega arith
hex_value_from-nibbles (suc k) value h =
    hex_value_from-snoc 0 (nibbles k (value / 16)) _
    ∙ omega (arith, hex_value_from-nibbles k (value / 16) (omega (arith, pow-suc 16 k)))

-- `my_read_hex_ptr` reads back a value from the digits that are appended for it.
pub my_read_hex_ptr-hex_text :
    (w k value c : ℕ) (rest : List ℕ)
    → value < 16 ^ k
    → value < 2 ^ w
    → hex_digit c ≡ none
    → my_read_hex_ptr w (hex_text k value ++ c ∷ rest) ≡ some (value, c ∷ rest)
my_read_hex_ptr-hex_text w k value c rest h fits stop =
    let back : hex_value_from 0 (nibbles k value) ≡ value = hex_value_from-nibbles k value h in
    rw back at (
      my_read_hex_ptr-value w (hex_text k value) (nibbles k value) c rest (hex_text-AreHex k value)
        stop (rw back fits))
