-- ===== src/CrashInfo.antt =====
-- third_party/utils/crash_info_utils.h and .cpp: the buffer in which the report of a crash grows.
-- A `Writer` is a method that appends: `none` is an access outside of an object, or a null pointer
-- that is read. A `const char*` is the memory at it, and the null pointer is `none`.
pub mod Appends
pub mod Hex
mod Runs
use native_crash2java.Base.{
  ℕ, zero, suc, ◌+◌, ◌*◌, ◌-◌, ◌/◌, ◌%◌, ◌^◌, ◌<◌, ◌&&◌, List, [], ◌∷◌, ◌++◌, Option, none, some,
  ltb, ◌==◌, not, length, set, replicate, if◌then◌else◌, store, ◌>>=◌,
}
use native_crash2java.Base.Int.{ℤ, pos, negsuc}
use native_crash2java.Base.Codes.{codes, literal}
use native_crash2java.Libc.Copy.{my_strlcat}
use native_crash2java.Libc.Number.{my_uint_len}
use native_crash2java.Libc.Number.Print.{digits}

-- The memory at a C string that holds a text.
abbrev pub terminated : List ℕ → List ℕ
terminated s = s ++ 0 ∷ []

pub record CrashInfo : Type 0 where
  pub line_buffer_size : ℕ
  pub log_line : List ℕ

abbrev pub Writer : Type 0
Writer = CrashInfo → Option CrashInfo

infixl 5 ◌>>◌
abbrev pub ◌>>◌ : Writer → Writer → Writer
◌>>◌ f g c = f c >>= g

abbrev pub skip : Writer
skip c = some c

-- The constructor. `block` is what `Alloc(size)` returned; a failed allocation is written to.
unfoldable pub init : ℕ → Option (List ℕ) → Option CrashInfo
init size block =
    block >>= λ b. store b 0 0 >>= λ b. some (record { line_buffer_size = size; log_line = b })

unfoldable pub clear : Writer
clear c = store c.log_line 0 0 >>= λ b. some (record c { log_line = b })

-- `my_strlcat` reads `str` only behind the terminator of the buffer; the buffer has one from the
-- constructor on, so a null `str` is always read.
unfoldable pub append : Option (List ℕ) → Writer
append str c = str >>= λ s.
    my_strlcat c.log_line s c.line_buffer_size >>= λ r. some (record c { log_line = r.0 })

-- What `sprintf` writes for `%d`, without the terminator.
unfoldable pub decimal : ℤ → List ℕ
decimal (pos n) = digits (my_uint_len n) n
decimal (negsuc n) = b'-' ∷ digits (my_uint_len (suc n)) (suc n)

-- `append(int)` and `append(long)`: the text goes through a block of `sizeof(i) + 1` bytes.
unfoldable pub append_int : ℕ → ℤ → Writer
append_int size_of i c =
    if ltb (length (decimal i)) (size_of + 1)
    then append (some (terminated (decimal i))) c
    else none

-- `HEX`
unfoldable pub hex_char : ℕ → ℕ
hex_char n = if ltb n 10 then b'0' + n else b'A' + (n - 10)

-- The loop that fills `hexstr` from index `k - 1` down; `& 0x0F` is `% 16`, `>>= 4` is `/ 16`.
unfoldable pub hex_fill : ℕ → ℕ → List ℕ → Option (List ℕ)
hex_fill zero value hexstr = some hexstr
hex_fill (suc k) value hexstr = store hexstr k (hex_char (value % 16)) >>= hex_fill k (value / 16)

-- The template `append(T value)` at an unsigned type of `size_of` bytes.
unfoldable pub append_hex : ℕ → ℕ → Writer
append_hex size_of value c = hex_fill (size_of * 2) value (replicate (size_of * 2 + 1) 0) >>= λ h.
    store h (size_of * 2) 0 >>= λ h. append (some h) c

-- `append(const void* buf, size_t length)`
unfoldable pub append_bytes : List ℕ → Writer
append_bytes [] c = some c
append_bytes (b ∷ bs) c = append_hex 1 b c >>= append_bytes bs

-- What `dladdr` found: texts, and addresses that are 0 for the null pointer.
pub record DlInfo : Type 0 where
  pub fname : Option (List ℕ)
  pub fbase : ℕ
  pub sname : Option (List ℕ)
  pub saddr : ℕ

-- The difference of two pointers of `size_of` bytes.
unfoldable pub pointer_sub : ℕ → ℕ → ℕ → ℕ
pointer_sub size_of a b = (a + 2 ^ (8 * size_of) - b) % 2 ^ (8 * size_of)

-- `%02d` of a frame number, which is not negative.
unfoldable pub two_digits : ℕ → List ℕ
two_digits line = if ltb line 10 then b'0' ∷ decimal (pos line) else decimal (pos line)

-- `format`: a line of the trace. `size_of` is `sizeof(uintptr_t)`, and `dladdr` is what the dynamic linker answers for `pc`.
module _ (size_of : ℕ) (dladdr : ℕ → Option DlInfo) where
  unfoldable pub format_pc : ℕ → ℕ → Writer
  unfolding pointer_sub
  format_pc pc fbase =
      if not (fbase == 0) && not (pc == 0)
      then (append (some (literal " "))
          >> append (some (literal "pc"))
          >> append (some (literal " "))
          >> append_hex size_of (pointer_sub size_of pc fbase))
      else skip

  unfoldable pub format_sname : Option (List ℕ) → Writer
  format_sname none = skip
  format_sname (some sname) =
      append (some (literal " "))
      >> append (some (literal "("))
      >> append (some (terminated sname))
      >> append (some (literal "("))
      >> append (some (literal ")"))

  unfoldable pub format_saddr : ℕ → ℕ → Writer
  unfolding pointer_sub
  format_saddr pc saddr =
      if not (saddr == 0)
      then (append (some (literal "+"))
          >> append_hex size_of (pointer_sub size_of pc saddr)
          >> append (some (literal ")")))
      else skip

  unfoldable pub format_frame : ℕ → Option DlInfo → Writer
  unfolding format_pc format_sname format_saddr
  format_frame pc none = append (some (literal "unKnow frame"))
  format_frame pc (some info) = elim info.fname [
    | none ↦ append (some (literal "unKnow frame"))
    | some fname ↦
        format_pc pc info.fbase
        >> (append (some (literal " ")) >> append (some (terminated fname)))
        >> format_sname info.sname
        >> format_saddr pc info.saddr
  ]

  unfoldable pub format : ℕ → ℕ → Writer
  unfolding two_digits format_frame
  format pc line =
      append (some (literal "     #"))
      >> append (some (terminated (two_digits line)))
      >> format_frame pc (dladdr pc)
      >> append (some (literal "\n"))
