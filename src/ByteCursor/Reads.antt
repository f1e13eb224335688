-- ===== src/ByteCursor/Reads.antt =====
-- What the reads of a `ByteCursor` give.
use native.Mathlib.Nat.{mod-eq_of_lt, pow-suc}
use native_crash2java.Base.{
  ℕ, suc, ◌+◌, ◌*◌, ◌^◌, ◌%◌, ◌≤◌, ◌<◌, ◌≡◌, refl, ◌≢◌, Bool, true, false, leb, List, [], ◌∷◌, ◌++◌,
  some, length, take, drop, arith, All, ap, ◌∙◌, length-append, take-append, drop-append,
}
use native_crash2java.ByteCursor.{
  available, read_loop, reversed, read_unsigned, until_nul, read_c_string,
}

-- The number that bytes stand for, the least significant one first.
unfoldable pub little_endian : List ℕ → ℕ
little_endian [] = 0
little_endian (b ∷ bs) = b + 256 * little_endian bs

abbrev pub IsByte : ℕ → Type 0
IsByte b = b < 256

little_endian-bounds : (bs : List ℕ) → All IsByte bs → little_endian bs < 256 ^ length bs
unfolding little_endian
little_endian-bounds [] h = omega arith
little_endian-bounds (b ∷ bs) h =
    omega (arith, little_endian-bounds bs h.1, h.0, pow-suc 256 (length bs))

read_loop-append :
    (width v : ℕ) (bs : List ℕ) (b : ℕ)
    → read_loop width v (bs ++ b ∷ []) ≡ (read_loop width v bs * 256 + b) % 2 ^ width
unfolding read_loop
read_loop-append width v [] b = refl
read_loop-append width v (x ∷ bs) b = read_loop-append width ((v * 256 + x) % 2 ^ width) bs b

read_loop-reversed :
    (width : ℕ) (bs : List ℕ)
    → All IsByte bs
    → 256 ^ length bs ≤ 2 ^ width
    → read_loop width 0 (reversed bs) ≡ little_endian bs
unfolding reversed little_endian
read_loop-reversed width [] h room = unfold read_loop in refl
read_loop-reversed width (b ∷ bs) h room =
    let small : little_endian bs < 256 ^ length bs = little_endian-bounds bs h.1 in
    let power : 256 ^ suc (length bs) ≡ 256 ^ length bs * 256 = pow-suc 256 (length bs) in
    let rest : read_loop width 0 (reversed bs) ≡ little_endian bs =
      read_loop-reversed width bs h.1 (omega arith) in
    let byte : b < 256 = h.0 in
    read_loop-append width 0 (reversed bs) b
    ∙ ap (λ v. (v * 256 + b) % 2 ^ width) rest
    ∙ mod-eq_of_lt (omega arith)
    ∙ omega arith

-- If the bytes are there and the type has room for them, `Read` of an unsigned number in little-endian
-- form gives the number that the bytes stand for, and goes on behind them.
pub read_unsigned-little_endian :
    (width : ℕ) (bs rest : List ℕ) (complete : Bool)
    → All IsByte bs
    → 256 ^ length bs ≤ 2 ^ width
    → read_unsigned width
        (length bs)
        (record { left = bs ++ rest; big_endian = false; complete = complete })
      ≡ (little_endian bs, record { left = rest; big_endian = false; complete = complete })
unfolding read_unsigned available
read_unsigned-little_endian width bs rest complete h room =
    let there : leb (length bs) (length (bs ++ rest)) ≡ true =
      let n : length (bs ++ rest) ≡ length bs + length rest = length-append bs rest in
      ground arith in
    let front : take (length bs) (bs ++ rest) ≡ bs = take-append bs rest in
    let behind : drop (length bs) (bs ++ rest) ≡ rest =
      drop-append bs rest (length bs) 0 (omega arith) in
    rw (there, front, behind, read_loop-reversed width bs h room) refl

until_nul-append :
    (text rest : List ℕ) → All (λ b. b ≢ 0) text → until_nul (text ++ 0 ∷ rest) ≡ some (text, rest)
unfolding until_nul
until_nul-append [] rest h = refl
until_nul-append (b ∷ text) rest h =
    let tail : until_nul (text ++ 0 ∷ rest) ≡ some (text, rest) = until_nul-append text rest h.1 in
    ground arith

-- `CString` gives the text before the first NUL and goes on behind that.
pub read_c_string-text :
    (text rest : List ℕ) (big_endian complete : Bool)
    → All (λ b. b ≢ 0) text
    → read_c_string
        (record { left = text ++ 0 ∷ rest; big_endian = big_endian; complete = complete })
      ≡ (text, record { left = rest; big_endian = big_endian; complete = complete })
unfolding read_c_string
read_c_string-text text rest big_endian complete h =
    rw (read_c_string, until_nul-append text rest h) refl
