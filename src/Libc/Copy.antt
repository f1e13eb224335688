-- ===== src/Libc/Copy.antt =====
-- linux_libc_support.cc: the bounded copies. The destination is a whole object, and `none` is an
-- access outside of it.
pub mod Bounds
pub mod Append
use native_crash2java.Base.{
  ℕ, zero, suc, ◌+◌, ◌-◌, List, [], ◌∷◌, ◌++◌, Option, none, some, ltb, ◌==◌, if◌then◌else◌, store,
  ◌>>=◌, take, drop,
}

-- The memory from `s2 + pos2` on stands for `pos2` in the reads; the result is `s1` and `pos2`.
strlcpy_loop : List ℕ → ℕ → ℕ → ℕ → List ℕ → Option (List ℕ × ℕ)
strlcpy_loop s1 pos1 pos2 len [] = none
strlcpy_loop s1 pos1 pos2 len (c ∷ s2) =
    let copy = store s1 pos1 c >>= λ s. strlcpy_loop s (pos1 + 1) (pos2 + 1) len s2 in
    let skip = strlcpy_loop s1 pos1 (pos2 + 1) len s2 in
    let finish = store s1 pos1 0 >>= λ s. some (s, pos2) in
    if c == 0
    then if ltb 0 len then finish else some (s1, pos2)
    else if ltb (pos1 + 1) len
    then copy
    else skip

unfoldable pub my_strlcpy : List ℕ → List ℕ → ℕ → Option (List ℕ × ℕ)
unfolding strlcpy_loop
my_strlcpy s1 s2 len = strlcpy_loop s1 0 0 len s2

-- `while (pos1 < len && s1[pos1] != '\0') pos1++`, with the bytes of `s1` and of `len` left.
strlcat_scan : ℕ → List ℕ → ℕ → Option ℕ
strlcat_scan pos1 s1 zero = some pos1
strlcat_scan pos1 [] (suc left) = none
strlcat_scan pos1 (c ∷ s1) (suc left) =
    if c == 0 then some pos1 else strlcat_scan (pos1 + 1) s1 left

-- `s1 + pos1` is the rest of the object, which is put back behind its first `pos1` bytes.
append_at : List ℕ → List ℕ → ℕ → ℕ → Option (List ℕ × ℕ)
append_at s1 s2 len pos1 =
    my_strlcpy (drop pos1 s1) s2 (len - pos1) >>= λ r. some (take pos1 s1 ++ r.0, pos1 + r.1)

unfoldable pub my_strlcat : List ℕ → List ℕ → ℕ → Option (List ℕ × ℕ)
unfolding strlcat_scan append_at
my_strlcat s1 s2 len = strlcat_scan 0 s1 len >>= λ pos1.
    if pos1 == len then some (s1, pos1) else append_at s1 s2 len pos1
