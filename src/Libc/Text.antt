-- ===== src/Libc/Text.antt =====
-- linux_libc_support.cc: the functions that measure, compare and search strings.
pub mod Search
pub mod Compare
use Prim.Native.Nat.{Ordering}
use mathlib.Core.Option
use native_crash2java.Base.{
  ℕ, zero, suc, ◌+◌, ◌%◌, ◌<◌, List, [], ◌∷◌, Option, none, some, ltb, ◌==◌, if◌then◌else◌,
}

-- A byte of a C string: not the terminator.
abbrev pub IsText : ℕ → Type 0
IsText c = (0 < c) × (c < 256)

-- What a `const char*` stands for: the characters before the first NUL.
unfoldable pub c_string : List ℕ → Option (List ℕ)
c_string [] = none
c_string (c ∷ s) = if c == 0 then some [] else Option.map (◌∷◌ c) (c_string s)

-- Whether `char` is signed is up to the platform's ABI (x86: signed, ARM: unsigned). `rank` puts
-- the bytes in the order in which `<` on `char` puts them.
pub data Abi : Type 0 where
  signed_char unsigned_char : Abi

abbrev pub rank : Abi → ℕ → ℕ
rank signed_char c = (c + 128) % 256
rank unsigned_char c = c

strlen_loop : ℕ → List ℕ → Option ℕ
strlen_loop len [] = none
strlen_loop len (c ∷ s) = if c == 0 then some len else strlen_loop (len + 1) s

unfoldable pub my_strlen : List ℕ → Option ℕ
unfolding strlen_loop
my_strlen s = strlen_loop 0 s

-- The results -1, 0 and 1 are `lt`, `eq` and `gt`.
unfoldable pub my_strcmp : Abi → List ℕ → List ℕ → Option Ordering
my_strcmp abi [] b = none
my_strcmp abi (x ∷ a) [] = none
my_strcmp abi (x ∷ a) (y ∷ b) =
    if ltb (rank abi x) (rank abi y)
    then some Ordering.lt
    else if ltb (rank abi y) (rank abi x)
    then some Ordering.gt
    else if x == 0
    then some Ordering.eq
    else my_strcmp abi a b

unfoldable pub my_strncmp : Abi → List ℕ → List ℕ → ℕ → Option Ordering
my_strncmp abi a b zero = some Ordering.eq
my_strncmp abi [] b (suc len) = none
my_strncmp abi (x ∷ a) [] (suc len) = none
my_strncmp abi (x ∷ a) (y ∷ b) (suc len) =
    if ltb (rank abi x) (rank abi y)
    then some Ordering.lt
    else if ltb (rank abi y) (rank abi x)
    then some Ordering.gt
    else if x == 0
    then some Ordering.eq
    else my_strncmp abi a b len

-- A pointer result is the memory from there on, with its distance from the argument; the inner
-- `none` is the null pointer.
strchr_found : ℕ → ℕ → ℕ → Option (Option ℕ)
strchr_found at c needle = if c == needle then some (some at) else some none

strchr_loop : ℕ → List ℕ → ℕ → Option (Option ℕ)
unfolding strchr_found
strchr_loop at [] needle = none
strchr_loop at (c ∷ s) needle =
    if c == 0
    then strchr_found at c needle
    else if c == needle
    then strchr_found at c needle
    else strchr_loop (at + 1) s needle

unfoldable pub my_strchr : List ℕ → ℕ → Option (Option ℕ)
unfolding strchr_loop
my_strchr haystack needle = strchr_loop 0 haystack needle

strrchr_loop : Option ℕ → ℕ → List ℕ → ℕ → Option (Option ℕ)
strrchr_loop ret at [] needle = none
strrchr_loop ret at (c ∷ s) needle =
    if c == 0
    then some ret
    else strrchr_loop (if c == needle then some at else ret) (at + 1) s needle

unfoldable pub my_strrchr : List ℕ → ℕ → Option (Option ℕ)
unfolding strrchr_loop
my_strrchr haystack needle = strrchr_loop none 0 haystack needle

memchr_loop : ℕ → List ℕ → ℕ → ℕ → Option (Option ℕ)
memchr_loop at src needle zero = some none
memchr_loop at [] needle (suc len) = none
memchr_loop at (c ∷ src) needle (suc len) =
    if c == needle then some (some at) else memchr_loop (at + 1) src needle len

unfoldable pub my_memchr : List ℕ → ℕ → ℕ → Option (Option ℕ)
unfolding memchr_loop
my_memchr src needle src_len = memchr_loop 0 src needle src_len

-- `none` is a write past the end of the object at `ip`.
unfoldable pub my_memset : List ℕ → ℕ → ℕ → Option (List ℕ)
my_memset ip c zero = some ip
my_memset [] c (suc len) = none
my_memset (x ∷ ip) c (suc len) = elim (my_memset ip c len) [ none ↦ none | some p ↦ some (c ∷ p) ]

-- `sizeof(spaces)` counts the terminator of the literal too.
abbrev pub spaces : List ℕ
spaces = 32 ∷ 9 ∷ 12 ∷ 10 ∷ 13 ∷ 9 ∷ 11 ∷ 0 ∷ []

unfoldable pub isspace_loop : List ℕ → ℕ → ℕ
isspace_loop [] ch = 0
isspace_loop (s ∷ rest) ch = if ch == s then 1 else isspace_loop rest ch

unfoldable pub my_isspace : ℕ → ℕ
unfolding isspace_loop
my_isspace ch = isspace_loop spaces ch
