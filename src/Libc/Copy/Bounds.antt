-- ===== src/Libc/Copy/Bounds.antt =====
-- linux_libc_support.cc: what `my_strlcpy` and `my_strlcat` leave in the destination, and that they
-- stay inside of it.
use native_crash2java.Base.{
  ℕ, zero, suc, ◌+◌, ◌-◌, ◌≤◌, ◌<◌, ◌≡◌, refl, ◌≢◌, List, [], ◌∷◌, ◌++◌, Option, some, arith,
  length, take, drop, store-append, All, ap, ◌∙◌, inl, inr, length-append, append_assoc,
}
use native_crash2java.Libc.Text.{IsText, c_string}
use native_crash2java.Libc.Text.Search.{c_string_cases}
use native_crash2java.Libc.Copy.{my_strlcpy, strlcpy_loop}

-- An object whose string is `take k s`, in the place of `post`, and what `post` had behind it.
unfoldable pub copied : ℕ → List ℕ → List ℕ → List ℕ
copied k s [] = []
copied k [] (p ∷ post) = 0 ∷ post
copied zero (c ∷ s) (p ∷ post) = 0 ∷ post
copied (suc k) (c ∷ s) (p ∷ post) = c ∷ copied k s post

length-copied : (k : ℕ) (s post : List ℕ) → length (copied k s post) ≡ length post
unfolding copied
length-copied k s [] = refl
length-copied k [] (p ∷ post) = refl
length-copied zero (c ∷ s) (p ∷ post) = refl
length-copied (suc k) (c ∷ s) (p ∷ post) = ap suc (length-copied k s post)

abbrev result : List ℕ → ℕ → Option (List ℕ × ℕ)
result s n = some (s, n)

-- The three rounds of the loop: the terminator, a character that is copied, one that is skipped.
module _ (pre : List ℕ) (p : ℕ) (post : List ℕ) (pos2 len c : ℕ) (m : List ℕ) where
  finish_round :
      c ≡ 0
      → 0 < len
      → strlcpy_loop (pre ++ p ∷ post) (length pre) pos2 len (c ∷ m) ≡ some (pre ++ 0 ∷ post, pos2)
  unfolding strlcpy_loop
  finish_round z h = ground (arith, store-append pre p 0 post)

  copy_round :
      c ≢ 0
      → length pre + 1 < len
      → strlcpy_loop (pre ++ p ∷ post) (length pre) pos2 len (c ∷ m)
        ≡ strlcpy_loop (pre ++ c ∷ post) (length pre + 1) (pos2 + 1) len m
  unfolding strlcpy_loop
  copy_round nz h = ground (arith, store-append pre p c post)

  skip_round :
      c ≢ 0
      → len ≤ length pre + 1
      → strlcpy_loop (pre ++ p ∷ post) (length pre) pos2 len (c ∷ m)
        ≡ strlcpy_loop (pre ++ p ∷ post) (length pre) (pos2 + 1) len m
  unfolding strlcpy_loop
  skip_round nz h = ground arith

strlcpy_loop-copied :
    (pre post : List ℕ) (pos2 len k : ℕ) (m s : List ℕ)
    → c_string m ≡ some s
    → len ≡ length pre + suc k
    → suc k ≤ length post
    → strlcpy_loop (pre ++ post) (length pre) pos2 len m
      ≡ some (pre ++ copied k s post, pos2 + length s)
strlcpy_loop-copied pre post pos2 len k [] s e el room = unfold c_string in cc
strlcpy_loop-copied pre [] pos2 len k (c ∷ m) s e el room = absurd (omega arith)
strlcpy_loop-copied pre (p ∷ post) pos2 len zero (c ∷ m) s e el room =
    elim (c_string_cases c m s e) [
      | inl (z, q) ↦
          rw q
            (finish_round pre p post pos2 len c m z (omega arith) ∙ unfold copied in ground arith)
      | inr (nz, (t, r, q)) ↦ rw q (
          skip_round pre p post pos2 len c m nz (omega arith)
          ∙ strlcpy_loop-copied pre (p ∷ post) (pos2 + 1) len zero m t r el room
          ∙ same t)
    ]
  where
    same :
        (t : List ℕ)
        → result (pre ++ copied zero t (p ∷ post)) (pos2 + 1 + length t)
          ≡ some (pre ++ copied zero (c ∷ t) (p ∷ post), pos2 + length (c ∷ t))
    same [] = unfold copied in ground arith
    same (d ∷ t) = unfold copied in ground arith
strlcpy_loop-copied pre (p ∷ post) pos2 len (suc k) (c ∷ m) s e el room =
    elim (c_string_cases c m s e) [
      | inl (z, q) ↦
          rw q
            (finish_round pre p post pos2 len c m z (omega arith) ∙ unfold copied in ground arith)
      | inr (nz, (t, r, q)) ↦ rw q (
          copy_round pre p post pos2 len c m nz (omega arith)
          ∙ moved
          ∙ strlcpy_loop-copied (pre ++ c ∷ []) post (pos2 + 1) len k m t r
              (omega (arith, length-append pre (c ∷ []))) (omega arith)
          ∙ same t)
    ]
  where
    moved :
        strlcpy_loop (pre ++ c ∷ post) (length pre + 1) (pos2 + 1) len m
        ≡ strlcpy_loop ((pre ++ c ∷ []) ++ post) (length (pre ++ c ∷ [])) (pos2 + 1) len m
    moved = rw (append_assoc, length-append pre (c ∷ [])) refl

    same :
        (t : List ℕ)
        → result ((pre ++ c ∷ []) ++ copied k t post) (pos2 + 1 + length t)
          ≡ some (pre ++ copied (suc k) (c ∷ t) (p ∷ post), pos2 + length (c ∷ t))
    same t = rw append_assoc (unfold copied in ground arith)

c_string-copied :
    (k : ℕ) (s post : List ℕ)
    → All IsText s
    → suc k ≤ length post
    → c_string (copied k s post) ≡ some (take k s)
unfolding copied c_string
c_string-copied k s [] h room = absurd (omega arith)
c_string-copied zero [] (p ∷ post) h room = refl
c_string-copied (suc k) [] (p ∷ post) h room = refl
c_string-copied zero (c ∷ s) (p ∷ post) h room = refl
c_string-copied (suc k) (c ∷ s) (p ∷ post) h room =
    ground (arith, c_string-copied k s post h.1 (omega arith))

drop-copied : (k : ℕ) (s post : List ℕ) → drop (suc k) (copied k s post) ≡ drop (suc k) post
unfolding copied
drop-copied k s [] = refl
drop-copied k [] (p ∷ post) = refl
drop-copied zero (c ∷ s) (p ∷ post) = refl
drop-copied (suc k) (c ∷ s) (p ∷ post) = drop-copied k s post

-- What a bounded copy may do to an object: it keeps its size and what lies behind the first `len`
-- bytes, and its string is `s`.
pub record IsCopy (old : List ℕ) (len : ℕ) (s : List ℕ) (new : List ℕ) : Type 0 where
  pub size : length new ≡ length old
  pub behind : drop len new ≡ drop len old
  pub text : c_string new ≡ some s

-- `my_strlcpy` into an object of at least `len` bytes, with `len` not 0, stays inside of it, keeps
-- what lies behind the first `len` bytes, leaves the first `len - 1` characters of the source there
-- as a terminated string, and returns the length of the source.
pub my_strlcpy-IsCopy :
    (s1 m s : List ℕ) (len : ℕ)
    → c_string m ≡ some s
    → All IsText s
    → 0 < len
    → len ≤ length s1
    → (r : List ℕ) × (my_strlcpy s1 m len ≡ some (r, length s)) × IsCopy s1 len (take (len - 1) s) r
unfolding my_strlcpy
my_strlcpy-IsCopy s1 m s zero e h pos room = absurd (omega arith)
my_strlcpy-IsCopy s1 m s (suc k) e h pos room = (
  copied k s s1,
  ground (arith, strlcpy_loop-copied [] s1 0 (suc k) k m s e),
  record {
    size = length-copied k s s1;
    behind = drop-copied k s s1;
    text = c_string-copied k s s1 h room ∙ ap (λ n. some (take n s)) (omega arith);
  },
)
