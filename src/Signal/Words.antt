-- ===== src/Signal/Words.antt =====
-- signal_explain.h and GetCrashSignalString: every answer is a C string without the delimiter of the
-- report.
use native_crash2java.Base.{
  ℕ, suc, ◌≢◌, List, [], ◌∷◌, All, arith, Bool, true, false, if◌then◌else◌,
}
use native_crash2java.Base.Int.{ℤ, pos, negsuc}
use native_crash2java.Libc.Text.{IsText}
use native_crash2java.CrashInfo.{decimal}
use native_crash2java.Libc.Number.{my_uint_len}
use native_crash2java.Libc.Number.Parse.{IsDigit}
use native_crash2java.Libc.Number.Print.{digits-IsDigit}
use native_crash2java.Signal.{
  get_sigbus, get_sigfpe, get_sigsegv, get_sigill, get_crash_signal_code_string,
  get_crash_signal_string,
}

-- A choice between two texts is a text.
if-All : (P : ℕ → Type 0) (b : Bool) (s t : List ℕ) → All P s → All P t → All P (if b then s else t)
if-All P true s t hs ht = hs
if-All P false s t hs ht = ht

-- The delimiter of the report, `HEAD_THREAD`, which no word for a signal contains.
abbrev pub IsPlain : ℕ → Type 0
IsPlain c = IsText c × (c ≢ b'^')

IsDigit-IsPlain : (s : List ℕ) → All IsDigit s → All IsPlain s
IsDigit-IsPlain [] h = tt
IsDigit-IsPlain (c ∷ s) h = (ground arith, IsDigit-IsPlain s h.1)

pub decimal-IsPlain : (i : ℤ) → All IsPlain (decimal i)
unfolding decimal
decimal-IsPlain (pos n) = IsDigit-IsPlain _ (digits-IsDigit (my_uint_len n) n)
decimal-IsPlain (negsuc n) =
    (ground arith, IsDigit-IsPlain _ (digits-IsDigit (my_uint_len (suc n)) (suc n)))

get_sigbus-IsPlain : (code : ℤ) → All IsPlain (get_sigbus code)
unfolding get_sigbus
get_sigbus-IsPlain code = search (if-All, decimal-IsPlain, arith)

get_sigfpe-IsPlain : (code : ℤ) → All IsPlain (get_sigfpe code)
unfolding get_sigfpe
get_sigfpe-IsPlain code = search (if-All, decimal-IsPlain, arith)

get_sigsegv-IsPlain : (code : ℤ) → All IsPlain (get_sigsegv code)
unfolding get_sigsegv
get_sigsegv-IsPlain code = search (if-All, decimal-IsPlain, arith)

get_sigill-IsPlain : (code : ℤ) → All IsPlain (get_sigill code)
unfolding get_sigill
get_sigill-IsPlain code = search (if-All, decimal-IsPlain, arith)

-- The words for a signal code are a C string without the delimiter of the report.
pub code_string-IsPlain : (signal code : ℤ) → All IsPlain (get_crash_signal_code_string signal code)
unfolding get_crash_signal_code_string
code_string-IsPlain signal code = search (
  if-All, get_sigbus-IsPlain, get_sigfpe-IsPlain, get_sigsegv-IsPlain, get_sigill-IsPlain,
  decimal-IsPlain,
)

-- So is the name of a signal.
pub signal_string-IsPlain : (signal : ℤ) → All IsPlain (get_crash_signal_string signal)
unfolding get_crash_signal_string
signal_string-IsPlain signal = search (if-All, arith)
