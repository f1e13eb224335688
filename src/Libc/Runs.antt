-- ===== src/Libc/Runs.antt =====
-- linux_libc_support.cc: runs at concrete inputs, and the theorems at inputs that meet their
-- hypotheses.
use Prim.Native.Nat.{Ordering}
use native_crash2java.Base.{ℕ, ◌≡◌, refl, sym, List, [], ◌∷◌, none, some, arith, store}
use native_crash2java.Libc.Text.{
  c_string, signed_char, unsigned_char, my_strlen, my_strcmp, my_strchr, my_strrchr, my_memchr,
}
use native_crash2java.Libc.Number.{
  my_strtoui, my_uint_len, my_uitos, my_read_hex_ptr, my_read_decimal_ptr,
}
use native_crash2java.Libc.Number.Print.{my_read_decimal_ptr-uitos}
use native_crash2java.Libc.Copy.{my_strlcpy, my_strlcat}
use native_crash2java.Libc.Copy.Append.{my_strlcat-IsCopy}
use native_crash2java.Libc.Copy.Bounds.{IsCopy}

-- "ab" with a byte of rubbish behind it, and "b".
abbrev ab : List ℕ
ab = 97 ∷ 98 ∷ 0 ∷ 7 ∷ []

abbrev only_b : List ℕ
only_b = 98 ∷ 0 ∷ []

strlen_runs : (my_strlen ab ≡ some 2) × (my_strlen (97 ∷ []) ≡ none)
unfolding my_strlen
strlen_runs = (refl, refl)

-- 0xe9 is negative where `char` is signed.
strcmp_runs :
    (my_strcmp signed_char (0xe9 ∷ 0 ∷ []) only_b ≡ some Ordering.lt)
    × (my_strcmp unsigned_char (0xe9 ∷ 0 ∷ []) only_b ≡ some Ordering.gt)
unfolding my_strcmp
strcmp_runs = (refl, refl)

search_runs :
    (my_strchr ab 98 ≡ some (some 1))
    × (my_strrchr (97 ∷ 97 ∷ 0 ∷ []) 97 ≡ some (some 1))
    × (my_memchr ab 7 4 ≡ some (some 3))
unfolding my_strchr my_strrchr my_memchr
search_runs = (refl, refl, refl)

number_runs :
    (my_strtoui (52 ∷ 50 ∷ 0 ∷ []) ≡ some (some 42))
    × (my_uint_len 1234 ≡ 4)
    × (my_uitos (0 ∷ 0 ∷ 0 ∷ []) 407 3 ≡ some (52 ∷ 48 ∷ 55 ∷ []))
    × (my_read_hex_ptr 64 (102 ∷ 70 ∷ 32 ∷ []) ≡ some (255, 32 ∷ []))
unfolding my_strtoui my_uint_len my_uitos my_read_hex_ptr store
number_runs = (refl, refl, refl, refl)

-- The test for overflow misses a product that wraps to a larger number: 10000000000.
strtoui_wraps :
    my_strtoui (49 ∷ 48 ∷ 48 ∷ 48 ∷ 48 ∷ 48 ∷ 48 ∷ 48 ∷ 48 ∷ 48 ∷ 48 ∷ 0 ∷ [])
    ≡ some (some 1410065408)
unfolding my_strtoui
strtoui_wraps = refl

copy_runs :
    (my_strlcpy (1 ∷ 2 ∷ 3 ∷ []) ab 2 ≡ some (97 ∷ 0 ∷ 3 ∷ [], 2))
    × (my_strlcat (98 ∷ 0 ∷ 5 ∷ 6 ∷ []) ab 4 ≡ some (98 ∷ 97 ∷ 98 ∷ 0 ∷ [], 3))
unfolding my_strlcpy my_strlcat store
copy_runs = (refl, refl)

c_string-ab : c_string ab ≡ some (97 ∷ 98 ∷ [])
unfolding c_string
c_string-ab = refl

c_string-only_b : c_string only_b ≡ some (98 ∷ [])
unfolding c_string
c_string-only_b = refl

my_strlcat-IsCopy_example :
    (r : List ℕ) × (my_strlcat (98 ∷ 0 ∷ 5 ∷ 6 ∷ []) ab 3 ≡ some (r, 3))
    × IsCopy (98 ∷ 0 ∷ 5 ∷ 6 ∷ []) 3 (98 ∷ 97 ∷ []) r
my_strlcat-IsCopy_example =
    my_strlcat-IsCopy (98 ∷ 0 ∷ 5 ∷ 6 ∷ []) (98 ∷ []) ab (97 ∷ 98 ∷ []) 3 (unfold c_string in refl)
      c_string-ab (omega arith) (omega arith) (omega arith) (omega arith)

uint_len_300 : my_uint_len 300 ≡ 3
unfolding my_uint_len
uint_len_300 = refl

my_read_decimal_ptr-uitos_example :
    (out : List ℕ) × (my_uitos (0 ∷ 0 ∷ 0 ∷ 44 ∷ 7 ∷ []) 300 (my_uint_len 300) ≡ some out)
    × (my_read_decimal_ptr 64 out ≡ some (300, 44 ∷ 7 ∷ []))
my_read_decimal_ptr-uitos_example =
    my_read_decimal_ptr-uitos 64 300 44 (0 ∷ 0 ∷ 0 ∷ []) (7 ∷ []) (omega arith) (sym uint_len_300)
      refl
