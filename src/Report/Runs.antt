-- ===== src/Report/Runs.antt =====
-- Tests and examples of the report.
use native_crash2java.Base.{ℕ, ◌≡◌, refl, List, [], none, some, arith, take, map, replicate}
use native_crash2java.Base.Codes.{codes}
use native_crash2java.Libc.Text.{c_string}
use native_crash2java.CrashInfo.{CrashInfo, DlInfo, decimal, two_digits, pointer_sub, hex_char}
use native_crash2java.CrashInfo.Appends.{Logs}
use native_crash2java.CrashInfo.Hex.{hex_text}
use native_crash2java.Libc.Number.{my_uint_len}
use native_crash2java.Libc.Number.Print.{digits}
use native_crash2java.Signal.{get_crash_signal_string, get_crash_signal_code_string, get_sigsegv}
use native_crash2java.Report.Sample.{library, device, device-IsUsable}
use native_crash2java.Report.Text.{report_text, info_text, thread_text, line_text, track_text}
use native_crash2java.Report.Written.{dump-report_text}
use native_crash2java.Report.Frames.{format-Appends}
use native_crash2java.Report.Limits.{
  numbered_frames, dump_track-take, dump_track-unread, unread_frames, dump_without_symbol,
}
use native_crash2java.Report

line_run :
    line_text device 6144 7
    ≡ codes "     #07 pc 0000000000000800 libx.so (boom()+0000000000000400)\n"
unfolding line_text two_digits decimal my_uint_len digits hex_text hex_char pointer_sub
line_run = refl

info_run :
    info_text device
    ≡ codes
        "Operating system: Android 23\nCPU: unknown_hw_arch (8 core)\n\nCrash reason: signal 11(SIGSEGV) Invalid address\nCrash address: 0000000000000000\nCrash pc: 0000000000000800\nCrash so: libx.so(arm64)\nCrash method: boom"
unfolding info_text decimal my_uint_len digits hex_text hex_char pointer_sub get_crash_signal_string
    get_crash_signal_code_string get_sigsegv
info_run = refl

-- The unread frame at the end has no line break.
thread_run :
    thread_text device
    ≡ codes
        "Thread[name:main] (NOTE: linux thread name length limit is 15 characters)\n     #00 pc 0000000000000800 libx.so (boom()+0000000000000400)\n     #01 pc 0000000000000C00 libx.so (boom()+0000000000000800)\nunKnow frame"
unfolding thread_text track_text Report.next_index line_text two_digits decimal my_uint_len digits
    hex_text hex_char pointer_sub
thread_run = refl

abbrev zeros : List ℕ
zeros = replicate 100 0

abbrev buffer : CrashInfo
buffer = record { line_buffer_size = 100; log_line = zeros }

buffer-Logs : Logs buffer []
buffer-Logs = record { size = refl; room = omega arith; chars = tt; text = unfold c_string in refl }

dump-report_text_example :
    (c' : CrashInfo) × (Report.dump device buffer ≡ some (take 99 (report_text device), c'))
    × Logs c' []
dump-report_text_example = dump-report_text device buffer device-IsUsable buffer-Logs

format-Appends_example :
    (c' : CrashInfo) × (Report.dump_frame device 7 (some 6144) buffer ≡ some c')
    × Logs c' (line_text device 6144 7)
    × (c'.line_buffer_size ≡ 100)
unfolding Report.dump_frame
format-Appends_example = format-Appends device device-IsUsable.infos 6144 7 buffer [] buffer-Logs

dump_track-take_example :
    Report.dump_track device 0 (map some (replicate 70 6144))
    ≡ numbered_frames device 0 (replicate 64 6144)
dump_track-take_example = dump_track-take device (replicate 70 6144)

dump_track-unread_example :
    Report.dump_track device 0 (replicate 100 none) ≡ unread_frames device 100
dump_track-unread_example = dump_track-unread device 100

abbrev stripped : DlInfo
stripped = record library { sname = none }

abbrev stripped_device : Report.Device
stripped_device = record device { dladdr = λ pc. some stripped }

dump_without_symbol_example : Report.dump stripped_device buffer ≡ none
dump_without_symbol_example =
    dump_without_symbol stripped_device buffer stripped (codes "libx.so") refl refl refl
