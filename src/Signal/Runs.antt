-- ===== src/Signal/Runs.antt =====
-- Tests and examples of the words for a signal.
use native_crash2java.Base.{◌≡◌, refl}
use native_crash2java.Base.Int.{pos, negsuc}
use native_crash2java.Base.Codes.{codes}
use native_crash2java.CrashInfo.{decimal}
use native_crash2java.Libc.Number.{my_uint_len}
use native_crash2java.Libc.Number.Print.{digits}
use native_crash2java.Signal.{
  get_crash_signal_string, get_crash_signal_code_string, get_sigfpe, get_sigsegv,
}

signal_runs :
    (get_crash_signal_string (pos 11) ≡ codes "SIGSEGV")
    × (get_crash_signal_code_string (pos 8) (pos 1) ≡ codes "int / 0")
    × (get_crash_signal_code_string (pos 11) (negsuc 41) ≡ codes "-42")
unfolding get_crash_signal_string get_crash_signal_code_string get_sigfpe get_sigsegv decimal
    my_uint_len digits
signal_runs = (refl, refl, refl)
