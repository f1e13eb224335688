-- ===== src/CrashInfo/Appends.antt =====
-- The buffer of `CrashInfo` as the text that was appended to it, cut off at its size. Each method
-- is given by the text that it appends, and methods in a row append their texts in a row.
use Prim.Native.String.{String}
use native.Mathlib.Nat.{pow-le-pow_right}
use native_crash2java.Base.{
  dec_lt, ◌^◌, ℕ, zero, suc, ◌+◌, ◌-◌, ◌≤◌, ◌<◌, ◌≡◌, refl, List, [], ◌∷◌, ◌++◌, none, some, arith,
  length, take, All, All-append, All-take, ap, ◌∙◌, append_assoc, append-nil, take-take-append,
  length-take, store-append, lt→ltb,
}
use native_crash2java.Base.Int.{ℤ, pos, negsuc}
use native_crash2java.Base.Codes.{codes, literal}
use native_crash2java.Libc.Text.{IsText, c_string}
use native_crash2java.Libc.Text.Search.{c_string-append}
use native_crash2java.Libc.Copy.Append.{my_strlcat-IsCopy}
use native_crash2java.Libc.Number.{my_uint_len}
use native_crash2java.Libc.Number.Parse.{IsDigit}
use native_crash2java.Libc.Number.Print.{digits, digits-IsDigit, length-digits, my_uint_len-bounds}
use native_crash2java.CrashInfo.{CrashInfo, Writer, ◌>>◌, skip, init, append, append_int, decimal}

-- `u` is the text that the buffer would hold if it were large enough.
pub record Logs (c : CrashInfo) (u : List ℕ) : Type 0 where
  pub size : length c.log_line ≡ c.line_buffer_size
  pub room : 0 < c.line_buffer_size
  pub chars : All IsText u
  pub text : c_string c.log_line ≡ some (take (c.line_buffer_size - 1) u)

abbrev pub Appends : Writer → List ℕ → Type 0
Appends f s =
    (c : CrashInfo) (u : List ℕ)
    → Logs c u
    → (c' : CrashInfo) × (f c ≡ some c')
      × Logs c' (u ++ s)
      × (c'.line_buffer_size ≡ c.line_buffer_size)

append-Appends : (m s : List ℕ) → c_string m ≡ some s → All IsText s → Appends (append (some m)) s
append-Appends m s e h c u l =
    let n = c.line_buffer_size - 1 in
    let (r, run, copy) =
      my_strlcat-IsCopy c.log_line (take n u) m s c.line_buffer_size l.text e
        (All-take IsText n u l.chars) h (omega (arith, length-take n u, l.room))
        (omega (arith, l.size)) in
    (
      record c { log_line = r },
      unfold append in rw run refl,
      record {
        size = copy.size ∙ l.size;
        room = l.room;
        chars = All-append IsText u s l.chars h;
        text = copy.text ∙ ap some (take-take-append n u s);
      },
      refl,
    )

-- A writer that is given a text and its terminator.
pub append_text : (s : List ℕ) → All IsText s → Appends (append (some (s ++ 0 ∷ []))) s
append_text s h = append-Appends (s ++ 0 ∷ []) s (c_string-append s [] h) h

pub append_string :
    (m s : List ℕ) → c_string m ≡ some s → All IsText s → Appends (append (some m)) s
append_string = append-Appends

pub skip-Appends : Appends skip []
skip-Appends c u l = (c, refl, rw (append-nil u) l, refl)

-- Methods in a row append their texts in a row.
pub >>-Appends :
    (f g : Writer) (s t : List ℕ) → Appends f s → Appends g t → Appends (f >> g) (s ++ t)
>>-Appends f g s t hf hg c u l =
    let (c', run, l', same) = hf c u l in
    let (c'', run', l'', same') = hg c' (u ++ s) l' in
    (c'', rw run run', rw append_assoc at l'', same' ∙ same)

-- `append(int)` works on the numbers whose text fits its block of `sizeof(int) + 1` bytes.
pub append_int-Appends :
    (size_of : ℕ) (i : ℤ)
    → All IsText (decimal i)
    → length (decimal i) ≤ size_of
    → (c : CrashInfo) (u : List ℕ) → Logs c u
    → (c' : CrashInfo) × (append_int size_of i c ≡ some c')
      × Logs c' (u ++ decimal i)
      × (c'.line_buffer_size ≡ c.line_buffer_size)
append_int-Appends size_of i h fits c u l =
    let (c', run, r, same) = append_text (decimal i) h c u l in
    (
      c',
      unfold append_int in rw (lt→ltb (length (decimal i)) (size_of + 1) (omega arith)) run,
      r,
      same,
    )

long-none :
    (size_of : ℕ) (i : ℤ) (c : CrashInfo)
    → size_of < length (decimal i)
    → append_int size_of i c ≡ none
unfolding append_int
long-none size_of i c h = ground arith

-- `append(int)` and `append(long)` write past their block on every number of at least ten to the power
-- of the size of the type in bytes: for `int`, on 10000 and above.
pub append_int_overflow :
    (size_of n : ℕ) (c : CrashInfo) → 10 ^ size_of ≤ n → append_int size_of (pos n) c ≡ none
append_int_overflow size_of n c h = long-none size_of (pos n) c (omega (arith, printed, long))
  where
    printed : length (decimal (pos n)) ≡ my_uint_len n
    printed = unfold decimal in length-digits (my_uint_len n) n

    long : size_of < my_uint_len n
    long = elim (dec_lt size_of (my_uint_len n)) [
      | yes l ↦ l
      | no k ↦
          let above : 10 ^ my_uint_len n ≤ 10 ^ size_of =
            pow-le-pow_right (omega arith) (omega arith) in
          absurd (omega (arith, above, (my_uint_len-bounds n).0))
    ]

digits-IsText : (k n : ℕ) → All IsText (digits k n)
digits-IsText k n = All-mono (digits k n) (digits-IsDigit k n)
  where
    All-mono : (s : List ℕ) → All IsDigit s → All IsText s
    All-mono [] h = tt
    All-mono (c ∷ s) h = (omega arith, All-mono s h.1)

pub decimal-IsText : (i : ℤ) → All IsText (decimal i)
unfolding decimal
decimal-IsText (pos n) = digits-IsText (my_uint_len n) n
decimal-IsText (negsuc n) = (omega arith, digits-IsText (my_uint_len (suc n)) (suc n))

-- The constructor gives an empty text, if the allocation succeeded.
pub init-Logs :
    (size : ℕ) (block : List ℕ)
    → 0 < size
    → length block ≡ size
    → (c : CrashInfo) × (init size (some block) ≡ some c) × Logs c [] × (c.line_buffer_size ≡ size)
init-Logs size [] h e = absurd (omega arith)
init-Logs size (b ∷ block) h e = (
  record { line_buffer_size = size; log_line = 0 ∷ block },
  unfold init in rw (store-append [] b 0 block) refl,
  record { size = e; room = h; chars = tt; text = unfold c_string in rw (nothing (size - 1)) refl },
  refl,
)
  where
    nothing : (n : ℕ) → take {A = ℕ} n [] ≡ []
    nothing zero = refl
    nothing (suc n) = refl

-- The rules in the shape of the code: a literal, and one method after the other.
pub literal-Appends :
    (s : String) → All IsText (codes s) → Appends (append (some (literal s))) (codes s)
literal-Appends s h = append_text (codes s) h

infixl 5 ◌⨾◌
pub ◌⨾◌ : {f g : Writer} {s t : List ℕ} → Appends f s → Appends g t → Appends (f >> g) (s ++ t)
◌⨾◌ {f} {g} {s} {t} hf hg = >>-Appends f g s t hf hg
