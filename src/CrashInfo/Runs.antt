-- ===== src/CrashInfo/Runs.antt =====
-- Tests and examples of the buffer of `CrashInfo`.
use native_crash2java.Base.{◌≡◌, refl, [], ◌∷◌, ◌++◌, none, some, arith, All, length}
use native_crash2java.Base.Int.{pos, negsuc}
use native_crash2java.Base.Codes.{codes, literal}
use native_crash2java.Libc.Text.{IsText, c_string}
use native_crash2java.Libc.Number.{my_uint_len}
use native_crash2java.Libc.Number.Print.{digits}
use native_crash2java.CrashInfo.{
  CrashInfo, ◌>>◌, init, append, append_int, decimal, hex_char, two_digits,
}
use native_crash2java.CrashInfo.Appends.{
  Logs, >>-Appends, append_int_overflow, init-Logs, literal-Appends,
}
use native_crash2java.CrashInfo.Hex.{hex_text}

abbrev buffer : CrashInfo
buffer = record { line_buffer_size = 8; log_line = 0 ∷ 7 ∷ 7 ∷ 7 ∷ 7 ∷ 7 ∷ 7 ∷ 7 ∷ [] }

buffer-Logs : Logs buffer []
buffer-Logs = record { size = refl; room = omega arith; chars = tt; text = unfold c_string in refl }

fits-407 : length (decimal (pos 407)) ≡ 3
unfolding decimal my_uint_len digits
fits-407 = refl

decimal_runs :
    (decimal (pos 407) ≡ codes "407")
    × (decimal (negsuc 6) ≡ codes "-7")
    × (two_digits 7 ≡ codes "07")
    × (two_digits 63 ≡ codes "63")
    × (hex_text 4 48879 ≡ codes "BEEF")
unfolding decimal my_uint_len digits two_digits hex_text hex_char
decimal_runs = (refl, refl, refl, refl, refl)

decimal_407-IsText : All IsText (decimal (pos 407))
unfolding decimal my_uint_len digits
decimal_407-IsText = ground arith

>>-Appends_example :
    (c' : CrashInfo) × ((append (some (literal "ab")) >> append (some (literal "cdefghij"))) buffer
      ≡ some c')
    × Logs c' ([] ++ codes "ab" ++ codes "cdefghij")
    × (c'.line_buffer_size ≡ 8)
>>-Appends_example =
    >>-Appends (append (some (literal "ab"))) (append (some (literal "cdefghij"))) (codes "ab")
      (codes "cdefghij") (literal-Appends "ab" (ground arith))
      (literal-Appends "cdefghij" (ground arith)) buffer [] buffer-Logs

append_int_overflow_example : append_int 4 (pos 12345) buffer ≡ none
append_int_overflow_example = append_int_overflow 4 12345 buffer (omega arith)

init-Logs_example :
    (c : CrashInfo) × (init 3 (some (9 ∷ 9 ∷ 9 ∷ [])) ≡ some c)
    × Logs c []
    × (c.line_buffer_size ≡ 3)
init-Logs_example = init-Logs 3 (9 ∷ 9 ∷ 9 ∷ []) (omega arith) refl
