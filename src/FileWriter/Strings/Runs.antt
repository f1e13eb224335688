-- ===== src/FileWriter/Strings/Runs.antt =====
-- Tests of the strings in a minidump file.
use native_crash2java.Base.{
  ℕ, ◌≡◌, refl, false, List, [], ◌∷◌, Option, none, some, ◌==◌, if◌then◌else◌, ltb,
}
use native_crash2java.Base.Codes.{codes}
use native_crash2java.FileWriter.{
  FileWriter, FileKernel, file_writer, allocate, copy, mdrva_allocate,
}
use native_crash2java.FileWriter.Strings.{
  convert_from, utf8_to_utf16_char, copy_index_after_object, copy_string, write_string,
}

abbrev kernel : FileKernel
kernel = record {
  page_size = 16;
  open_file = λ path. some 5;
  ftruncate_fails = λ n. false;
  close_fails = λ fd. false;
  seek_fails = λ n. false;
  writes = λ n. some n;
}

abbrev opened : FileWriter
opened = record (file_writer false []) { file = some 5 }

-- A converter that knows ASCII and one character of two units, U+1F600.
abbrev convert : List ℕ → Option (ℕ × ℕ × ℕ)
convert (a ∷ b ∷ c ∷ d ∷ []) = if a == 240 then some (4, 55357, 56832) else none
convert (c ∷ []) = if ltb c 128 then some (1, c, 0) else none
convert text = none

-- Two characters of ASCII.
ascii_string :
    (write_string convert 64 kernel (codes "hi") 0 opened).1.contents
    ≡ 4 ∷ 0 ∷ 0 ∷ 0 ∷ 104 ∷ 0 ∷ 105 ∷ 0 ∷ 0 ∷ 0 ∷ 0 ∷ 0 ∷ 0 ∷ 0 ∷ 0 ∷ 0 ∷ []
unfolding write_string mdrva_allocate allocate copy copy_string copy_index_after_object
    utf8_to_utf16_char convert_from
ascii_string = refl

-- A character of two units at index 1 is written at index 2, and the length counts the bytes of the
-- UTF-8 text: 10 for three units.
surrogates :
    (write_string convert 64 kernel (97 ∷ 240 ∷ 159 ∷ 152 ∷ 128 ∷ []) 0 opened).1.contents
    ≡ 10 ∷ 0 ∷ 0 ∷ 0 ∷ 97 ∷ 0 ∷ 0 ∷ 0 ∷ 61 ∷ 216 ∷ 0 ∷ 222 ∷ 0 ∷ 0 ∷ 0 ∷ 0 ∷ []
unfolding write_string mdrva_allocate allocate copy copy_string copy_index_after_object
    utf8_to_utf16_char convert_from
surrogates = refl
