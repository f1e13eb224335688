-- ===== src/Report/Sample.antt =====
-- A device that a crash is reported on, for the tests and examples.
use native_crash2java.Base.{◌≡◌, refl, [], ◌∷◌, none, some, arith, length}
use native_crash2java.Base.Int.{pos}
use native_crash2java.Base.Codes.{codes}
use native_crash2java.CrashInfo.{DlInfo, decimal}
use native_crash2java.Libc.Number.{my_uint_len}
use native_crash2java.Libc.Number.Print.{digits}
use native_crash2java.Report.Text.{IsUsable}
use native_crash2java.Report

abbrev pub library : DlInfo
library = record {
  fname = some (codes "libx.so");
  fbase = 4096;
  sname = some (codes "boom");
  saddr = 5120;
}

abbrev pub device : Report.Device
device = record {
  sdk_version = pos 23;
  uts = none;
  n_cpus = pos 8;
  arch = codes "arm64";
  size_of_pointer = 8;
  dladdr = λ pc. some library;
  pc = 6144;
  crash_signal = pos 11;
  crash_signal_code = pos 1;
  crash_address = 0;
  thread_name = codes "main";
  unwinder = some (some 6144 ∷ some 7168 ∷ none ∷ []);
  backtrace = none;
}

fits-23 : length (decimal (pos 23)) ≡ 2
unfolding decimal my_uint_len digits
fits-23 = refl

fits-8 : length (decimal (pos 8)) ≡ 1
unfolding decimal my_uint_len digits
fits-8 = refl

fits-11 : length (decimal (pos 11)) ≡ 2
unfolding decimal my_uint_len digits
fits-11 = refl

pub device-IsUsable : IsUsable device
device-IsUsable = record {
  sdk = omega (arith, fits-23);
  cpus = omega (arith, fits-8);
  signal = omega (arith, fits-11);
  uts = tt;
  arch = ground arith;
  name = ground arith;
  infos = λ pc. (ground arith, ground arith);
  symbol = λ h e. cc;
  lines = tt;
}
