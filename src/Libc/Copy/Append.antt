-- ===== src/Libc/Copy/Append.antt =====
-- linux_libc_support.cc: `my_strlcat` appends a string, cut off at the size of the object.
use native_crash2java.Base.{
  ℕ, zero, suc, ◌+◌, ◌-◌, ◌≤◌, ◌<◌, ◌≡◌, refl, List, [], ◌∷◌, ◌++◌, some, false, arith, length,
  take, drop, All, ap, sym, ◌∙◌, inl, inr, length-append, take-append, drop-append,
  take-append_more, ◌==◌,
}
use native_crash2java.Libc.Text.{IsText, c_string}
use native_crash2java.Libc.Text.Search.{c_string_cases, c_string-split, c_string-prepend}
use native_crash2java.Libc.Copy.{my_strlcat, strlcat_scan, append_at}
use native_crash2java.Libc.Copy.Bounds.{IsCopy, my_strlcpy-IsCopy}

strlcat_scan-length :
    (pos1 left : ℕ) (m d : List ℕ)
    → c_string m ≡ some d
    → length d < left
    → strlcat_scan pos1 m left ≡ some (pos1 + length d)
unfolding strlcat_scan
strlcat_scan-length pos1 zero m d e h = absurd (omega arith)
strlcat_scan-length pos1 (suc left) [] d e h = unfold c_string in cc
strlcat_scan-length pos1 (suc left) (c ∷ m) d e h = elim (c_string_cases c m d e) [
  | inl (z, q) ↦ ground arith
  | inr (nz, (t, r, q)) ↦
      ground (arith, strlcat_scan-length (pos1 + 1) left m t r (omega (arith, ap length q)))
]

-- The copy behind the string `d` of the object `d ++ 0 ∷ rest`, and the whole object.
IsCopy-prepend :
    (d tail s r : List ℕ) (len j : ℕ)
    → All IsText d
    → len ≡ length d + suc j
    → IsCopy tail (suc j) (take (suc j - 1) s) r
    → IsCopy (d ++ tail) len (take (len - 1) (d ++ s)) (d ++ r)
IsCopy-prepend d tail s r len j h e c = record {
  size = omega (arith, length-append d r, length-append d tail, c.size);
  behind = drop-append d r len (suc j) e ∙ c.behind ∙ sym (drop-append d tail len (suc j) e);
  text =
      c_string-prepend d r _ h c.text
      ∙ ap some (sym (take-append_more d s (len - 1) (suc j - 1) (omega arith)));
}

append_at-run :
    (d tail m s : List ℕ) (len j : ℕ)
    → c_string m ≡ some s
    → All IsText d
    → All IsText s
    → len ≡ length d + suc j
    → len ≤ length (d ++ tail)
    → (r : List ℕ) × (append_at (d ++ tail) m len (length d) ≡ some (d ++ r, length d + length s))
      × IsCopy tail (suc j) (take (suc j - 1) s) r
append_at-run d tail m s len j e hd hs el room =
    let (r, run, c) =
      my_strlcpy-IsCopy tail m s (suc j) e hs (omega arith) (omega (arith, length-append d tail)) in
    (r, unfold append_at in rw (behind, front, left, run) refl, c)
  where
    behind : drop (length d) (d ++ tail) ≡ tail
    behind = drop-append d tail (length d) 0 (omega arith)

    front : take (length d) (d ++ tail) ≡ d
    front = take-append d tail

    left : len - length d ≡ suc j
    left = omega arith

strlcat-run :
    (d rest m s : List ℕ) (len : ℕ)
    → c_string (d ++ 0 ∷ rest) ≡ some d
    → c_string m ≡ some s
    → All IsText d
    → All IsText s
    → length d < len
    → len ≤ length (d ++ 0 ∷ rest)
    → (r : List ℕ) × (my_strlcat (d ++ 0 ∷ rest) m len ≡ some (r, length d + length s))
      × IsCopy (d ++ 0 ∷ rest) len (take (len - 1) (d ++ s)) r
strlcat-run d rest m s len ed es hd hs h room =
    let (r, run, c) =
      append_at-run d (0 ∷ rest) m s len (len - length d - 1) es hd hs (omega arith) room in
    (
      d ++ r,
      unfold my_strlcat in rw (scan, other, run) refl,
      IsCopy-prepend d (0 ∷ rest) s r len (len - length d - 1) hd (omega arith) c,
    )
  where
    scan : strlcat_scan 0 (d ++ 0 ∷ rest) len ≡ some (length d)
    scan = strlcat_scan-length 0 len (d ++ 0 ∷ rest) d ed h ∙ ap some (omega arith)

    other : (length d == len) ≡ false
    other = ground arith

-- `my_strlcat` on an object of at least `len` bytes whose string is shorter than `len` stays inside
-- of it, keeps what lies behind the first `len` bytes, leaves the first `len - 1` characters of both
-- strings in a row there, and returns the sum of their lengths.
pub my_strlcat-IsCopy :
    (s1 d m s : List ℕ) (len : ℕ)
    → c_string s1 ≡ some d
    → c_string m ≡ some s
    → All IsText d
    → All IsText s
    → length d < len
    → len ≤ length s1
    → (r : List ℕ) × (my_strlcat s1 m len ≡ some (r, length d + length s))
      × IsCopy s1 len (take (len - 1) (d ++ s)) r
my_strlcat-IsCopy s1 d m s len ed es hd hs h room =
    let (rest, split) = c_string-split s1 d ed in
    rw split (strlcat-run d rest m s len (rw (sym split) ed) es hd hs h (rw (sym split) room))
