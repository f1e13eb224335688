-- ===== src/Libc/Number/Print.antt =====
-- linux_libc_support.cc: `my_uint_len` and `my_uitos` print a number in decimal, and the readers
-- get it back.
use mathlib.Core.WellFounded.{Acc}
use mathlib.Core.Logic.{dif_pos, dif_neg}
use native.Mathlib.Bridge.{le_prop}
use native.Mathlib.Nat.{pow-suc}
use native_crash2java.Base.{
  ℕ, zero, suc, ◌+◌, ◌-◌, ◌*◌, ◌/◌, ◌%◌, ◌^◌, ◌≤◌, ◌<◌, ◌≡◌, refl, List, [], ◌∷◌, ◌++◌, some, arith,
  All, ap, ◌∙◌, false, length, drop, store, store-append, take, take-append-drop, length-take,
  All-append, dec_lt, lt_wf, append_assoc,
}
use native_crash2java.Libc.Number.{
  is_digit, my_uint_len, uint_len_loop, tenth_lt, my_uitos, my_read_decimal_ptr,
}
use native_crash2java.Libc.Number.Parse.{IsDigit, value_from, my_read_decimal_ptr-value}

-- The last `k` decimal digits of `i`.
unfoldable pub digits : ℕ → ℕ → List ℕ
digits zero i = []
digits (suc k) i = digits k (i / 10) ++ (b'0' + i % 10) ∷ []

pub length-snoc : (xs : List ℕ) (x : ℕ) → length (xs ++ x ∷ []) ≡ suc (length xs)
length-snoc [] x = refl
length-snoc (y ∷ xs) x = ap suc (length-snoc xs x)

pub length-digits : (k i : ℕ) → length (digits k i) ≡ k
unfolding digits
length-digits zero i = refl
length-digits (suc k) i = length-snoc (digits k (i / 10)) _ ∙ ap suc (length-digits k (i / 10))

pub digits-IsDigit : (k i : ℕ) → All IsDigit (digits k i)
unfolding digits
digits-IsDigit zero i = tt
digits-IsDigit (suc k) i =
    All-append IsDigit (digits k (i / 10)) _ (digits-IsDigit k (i / 10)) (omega arith)

-- A list that is not empty ends in some element.
pub snoc-cases :
    (k : ℕ) (xs : List ℕ)
    → length xs ≡ suc k
    → (pre : List ℕ) × (x : ℕ) × (xs ≡ pre ++ x ∷ []) × (length pre ≡ k)
snoc-cases k [] h = absurd (omega arith)
snoc-cases zero (x ∷ []) h = ([], x, refl, refl)
snoc-cases zero (x ∷ y ∷ xs) h = absurd (omega arith)
snoc-cases (suc k) (x ∷ xs) h =
    let (pre, y, e, l) = snoc-cases k xs (omega arith) in (x ∷ pre, y, ap (◌∷◌ x) e, ap suc l)

pub store_behind :
    (pre : List ℕ) (x v k : ℕ) (tail : List ℕ)
    → length pre ≡ k
    → store (pre ++ x ∷ tail) k v ≡ some (pre ++ v ∷ tail)
store_behind pre x v k tail e = rw (← e) (store-append pre x v tail)

uitos-digits :
    (k i : ℕ) (buf tail : List ℕ)
    → length buf ≡ k
    → my_uitos (buf ++ tail) i k ≡ some (digits k i ++ tail)
unfolding my_uitos digits
uitos-digits zero i [] tail h = refl
uitos-digits zero i (x ∷ buf) tail h = absurd (omega arith)
uitos-digits (suc k) i buf tail h =
    let (pre, x, e, l) = snoc-cases k buf h in
    rw (e, append_assoc pre, append_assoc, store_behind pre x (b'0' + i % 10) k tail l)
      (uitos-digits k (i / 10) pre ((b'0' + i % 10) ∷ tail) l)

-- `my_uitos` writes the last `i_len` decimal digits of the number to the front of the buffer, and
-- keeps what lies behind them.
pub my_uitos-digits :
    (output : List ℕ) (i i_len : ℕ)
    → i_len ≤ length output
    → my_uitos output i i_len ≡ some (digits i_len i ++ drop i_len output)
my_uitos-digits output i i_len h = rw (take-append-drop i_len output) at (
    uitos-digits i_len i (take i_len output) (drop i_len output)
      (omega (arith, length-take i_len output)))

value_from-snoc :
    (r : ℕ) (ds : List ℕ) (d : ℕ) → value_from r (ds ++ d ∷ []) ≡ value_from r ds * 10 + (d - b'0')
unfolding value_from
value_from-snoc r [] d = refl
value_from-snoc r (c ∷ ds) d = value_from-snoc (r * 10 + (c - b'0')) ds d

value_from-digits : (k i : ℕ) → i < 10 ^ k → value_from 0 (digits k i) ≡ i
unfolding digits
value_from-digits zero i h = unfold value_from in omega arith
value_from-digits (suc k) i h =
    value_from-snoc 0 (digits k (i / 10)) _
    ∙ omega (arith, value_from-digits k (i / 10) (omega (arith, pow-suc 10 k)))

-- `k` is the number of decimal digits of `i`, with none for 0.
pub record IsLength (i k : ℕ) : Type 0 where
  pub below : i < 10 ^ k
  pub above : 0 < i → 10 ^ (k - 1) ≤ i
  pub none_of_zero : i ≡ 0 → k ≡ 0

IsLength-above : (i k : ℕ) → 0 < i → IsLength (i / 10) k → 10 ^ k ≤ i
IsLength-above i zero h l = omega arith
IsLength-above i (suc k) h l =
    let same : suc k - 1 ≡ k = omega arith in
    omega (arith, rw same at (l.above tenth), pow-suc 10 k)
  where
    tenth : 0 < i / 10
    tenth = elim (dec_lt 0 (i / 10)) [
      | yes p ↦ p
      | no p ↦ absurd (omega (arith, l.none_of_zero (omega arith)))
    ]

IsLength-suc : (i k : ℕ) → 0 < i → IsLength (i / 10) k → IsLength i (suc k)
IsLength-suc i k h l = record {
  below = omega (arith, l.below, pow-suc 10 k);
  above = λ _. let same : suc k - 1 ≡ k = omega arith in rw same (IsLength-above i k h l);
  none_of_zero = λ e. absurd (omega arith);
}

uint_len_loop-IsLength :
    (len i : ℕ) (w : Acc ◌<◌ i) → (k : ℕ) × (uint_len_loop len i w ≡ len + k) × IsLength i k
unfolding uint_len_loop
uint_len_loop-IsLength len i (Acc.intro _ smaller) = elim (dec_lt 0 i) [
  | yes h ↦
      let (k, e, l) = uint_len_loop-IsLength (len + 1) (i / 10) (smaller _ (tenth_lt i h)) in
      (suc k, rw (dif_pos _ le_prop h) (e ∙ omega arith), IsLength-suc i k h l)
  | no h ↦ (
    0,
    rw (dif_neg _ h) (omega arith),
    record { below = omega arith; above = λ p. absurd (h p); none_of_zero = λ _. refl },
  )
]

-- `my_uint_len` is the number of decimal digits of its argument, with one for 0.
pub my_uint_len-bounds : (i : ℕ) → (i < 10 ^ my_uint_len i) × (0 < i → 10 ^ (my_uint_len i - 1) ≤ i)
my_uint_len-bounds zero = unfold my_uint_len in (omega arith, λ h. absurd (omega arith))
my_uint_len-bounds (suc i) =
    let (k, e, l) = uint_len_loop-IsLength 0 (suc i) (lt_wf.apply (suc i)) in
    rw (whole k e) (l.below, l.above)
  where
    whole :
        (k : ℕ) → uint_len_loop 0 (suc i) (lt_wf.apply (suc i)) ≡ 0 + k → my_uint_len (suc i) ≡ k
    whole k e = unfold my_uint_len in ground arith

-- Reading back with `my_read_decimal_ptr` what `my_uitos` printed into a buffer of `my_uint_len`
-- bytes gives the number and stops at the character behind it.
pub my_read_decimal_ptr-uitos :
    (w i c : ℕ) (output rest : List ℕ)
    → i < 2 ^ w
    → length output ≡ my_uint_len i
    → is_digit c ≡ false
    → (out : List ℕ) × (my_uitos (output ++ c ∷ rest) i (my_uint_len i) ≡ some out)
      × (my_read_decimal_ptr w out ≡ some (i, c ∷ rest))
my_read_decimal_ptr-uitos w i c output rest fits l stop =
    let n = my_uint_len i in
    let back : value_from 0 (digits n i) ≡ i = value_from-digits n i (my_uint_len-bounds i).0 in
    (
      digits n i ++ c ∷ rest,
      uitos-digits n i output (c ∷ rest) l,
      rw back at (
          my_read_decimal_ptr-value w (digits n i) c rest (digits-IsDigit n i) stop (rw back fits)),
    )
