-- ===== src/Signal.antt =====
-- third_party/utils/signal_explain.h and LinuxDumper::GetCrashSignalString of
-- client/linux/minidump_writer/linux_dumper.cc: the words for a signal and its code. The numbers
-- are those of google_breakpad/common/minidump_exception_linux.h. A number that is negative as an
-- `int` meets no case: `static_cast<unsigned int>` makes it 2^31 or more.
pub mod Words
mod Runs
use native_crash2java.Base.{ℕ, ◌+◌, ◌-◌, ◌^◌, ◌≡◌, List, ◌==◌, if◌then◌else◌}
use native_crash2java.Base.Int.{ℤ, pos, negsuc}
use native_crash2java.Base.Codes.{codes}
use native_crash2java.CrashInfo.{decimal}

-- `static_cast<unsigned int>` of an `int`.
abbrev pub to_unsigned : ℤ → ℕ
to_unsigned (pos n) = n
to_unsigned (negsuc n) = 2 ^ 32 - 1 - n

unfoldable pub get_sigbus : ℤ → List ℕ
get_sigbus code =
    if to_unsigned code == 1
    then codes "address cannot be aligned"
    else if to_unsigned code == 2
    then codes "wrong physical address"
    else decimal code

unfoldable pub get_sigfpe : ℤ → List ℕ
get_sigfpe code =
    if to_unsigned code == 1
    then codes "int / 0"
    else if to_unsigned code == 2
    then codes "int overflow"
    else if to_unsigned code == 3
    then codes "float / 0"
    else if to_unsigned code == 4
    then codes "float overflow"
    else if to_unsigned code == 5
    then codes "floating point underflow"
    else if to_unsigned code == 6
    then codes "floating point numbers are imprecise"
    else if to_unsigned code == 7
    then codes "illegal floating point operation"
    else if to_unsigned code == 8
    then codes "The table below is out of bounds"
    else decimal code

unfoldable pub get_sigsegv : ℤ → List ℕ
get_sigsegv code =
    if to_unsigned code == 1
    then codes "Invalid address"
    else if to_unsigned code == 2
    then codes "address without access"
    else decimal code

unfoldable pub get_sigill : ℤ → List ℕ
get_sigill code =
    if to_unsigned code == 1
    then codes "Illegal opcode"
    else if to_unsigned code == 2
    then codes "Illegal operand"
    else if to_unsigned code == 3
    then codes "Illegal addressing mode"
    else if to_unsigned code == 4
    then codes "Illegal trap"
    else if to_unsigned code == 5
    then codes "Privileged opcode"
    else if to_unsigned code == 6
    then codes "Privileged register"
    else if to_unsigned code == 7
    then codes "Coprocessor error"
    else if to_unsigned code == 8
    then codes "Internal stack error"
    else decimal code

-- SIGBUS, SIGFPE, SIGSEGV and SIGILL.
unfoldable pub get_crash_signal_code_string : ℤ → ℤ → List ℕ
get_crash_signal_code_string signal code =
    if to_unsigned signal == 7
    then get_sigbus code
    else if to_unsigned signal == 8
    then get_sigfpe code
    else if to_unsigned signal == 11
    then get_sigsegv code
    else if to_unsigned signal == 4
    then get_sigill code
    else decimal code

-- The names of the signals 1 to 31, in their order.
abbrev signal_name : ℕ → List ℕ
signal_name n =
    if n == 1
    then codes "SIGHUP"
    else if n == 2
    then codes "SIGINT"
    else if n == 3
    then codes "SIGQUIT"
    else if n == 4
    then codes "SIGILL"
    else if n == 5
    then codes "SIGTRAP"
    else if n == 6
    then codes "SIGABRT"
    else if n == 7
    then codes "SIGBUS"
    else if n == 8
    then codes "SIGFPE"
    else if n == 9
    then codes "SIGKILL"
    else if n == 10
    then codes "SIGUSR1"
    else if n == 11
    then codes "SIGSEGV"
    else if n == 12
    then codes "SIGUSR2"
    else if n == 13
    then codes "SIGPIPE"
    else if n == 14
    then codes "SIGALRM"
    else if n == 15
    then codes "SIGTERM"
    else if n == 16
    then codes "SIGSTKFLT"
    else if n == 17
    then codes "SIGCHLD"
    else if n == 18
    then codes "SIGCONT"
    else if n == 19
    then codes "SIGSTOP"
    else if n == 20
    then codes "SIGTSTP"
    else if n == 21
    then codes "SIGTTIN"
    else if n == 22
    then codes "SIGTTOU"
    else if n == 23
    then codes "SIGURG"
    else if n == 24
    then codes "SIGXCPU"
    else if n == 25
    then codes "SIGXFSZ"
    else if n == 26
    then codes "SIGVTALRM"
    else if n == 27
    then codes "SIGPROF"
    else if n == 28
    then codes "SIGWINCH"
    else if n == 29
    then codes "SIGIO"
    else if n == 30
    then codes "SIGPWR"
    else if n == 31
    then codes "SIGSYS"
    else if n == 0xFFFFFFFF
    then codes "DUMP_REQUESTED"
    else codes "UNKNOWN"

unfoldable pub get_crash_signal_string : ℤ → List ℕ
get_crash_signal_string signal = signal_name (to_unsigned signal)
