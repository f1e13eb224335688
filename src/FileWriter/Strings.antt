-- ===== src/FileWriter/Strings.antt =====
-- The strings of client/minidump_file_writer.cc: `WriteString` for UTF-8, with `TypedMDRVA<MDString>`
-- of client/minidump_file_writer-inl.h and `UTF8ToUTF16Char` of common/string_conversion.cc. The
-- argument `convert` is `ConvertUTF8toUTF16`, by the bytes it is given: where it succeeds, how many
-- bytes it took and the two units that are in the array then. A text is without its terminator.
mod Runs
use native_crash2java.Base.{
  ℕ, zero, suc, ◌+◌, ◌*◌, ◌/◌, ◌%◌, ◌^◌, Bool, true, false, List, [], ◌∷◌, ◌++◌, Option, none, some,
  ◌==◌, if◌then◌else◌, take, drop, length,
}
use native_crash2java.FileWriter.{
  FileWriter, FileKernel, copy, Mdrva, mdrva_allocate, Location, location,
}

-- The bytes of a `uint16_t` and of a `uint32_t`.
abbrev pub bytes_16 : ℕ → List ℕ
bytes_16 unit = unit % 256 ∷ unit / 256 % 256 ∷ []

abbrev pub bytes_32 : ℕ → List ℕ
bytes_32 n = n % 256 ∷ n / 256 % 256 ∷ n / 65536 % 256 ∷ n / 16777216 % 256 ∷ []

-- `minidump_size<MDString>::size()`
abbrev pub mdstring_size : ℕ
mdstring_size = 4

module _ (convert : List ℕ → Option (ℕ × ℕ × ℕ)) where
  -- The loop of `UTF8ToUTF16Char` from the first `n` bytes on.
  unfoldable pub convert_from : ℕ → ℕ → List ℕ → Option (ℕ × ℕ × ℕ)
  convert_from zero n text = none
  convert_from (suc tries) n text = elim (convert (take n text)) [
    | none ↦ convert_from tries (suc n) text
    | some converted ↦ some converted
  ]

  -- `UTF8ToUTF16Char`; `none` is a result of 0.
  unfoldable pub utf8_to_utf16_char : List ℕ → Option (ℕ × ℕ × ℕ)
  utf8_to_utf16_char text = convert_from (length text) 1 text

  module _ (w : ℕ) (k : FileKernel) where
    -- `TypedMDRVA<MDString>::CopyIndexAfterObject`
    unfoldable pub copy_index_after_object : ℕ → ℕ → List ℕ → FileWriter → Bool × FileWriter
    copy_index_after_object position index src f =
        copy w k ((position + mdstring_size + index * length src) % 2 ^ 32) src f

    -- The one or two units of a character.
    abbrev pub units : ℕ → ℕ → List ℕ
    units first second = if second == 0 then bytes_16 first else bytes_16 first ++ bytes_16 second

    abbrev pub unit_count : ℕ → ℕ
    unit_count second = if second == 0 then 1 else 2

    -- `CopyStringToMDString`; the first number are the rounds, one for each byte at most.
    unfoldable pub copy_string : ℕ → ℕ → ℕ → List ℕ → FileWriter → Bool × FileWriter
    copy_string rounds position out_idx [] f = (true, f)
    copy_string zero position out_idx (c ∷ text) f = (false, f)
    copy_string (suc rounds) position out_idx (c ∷ text) f = elim (utf8_to_utf16_char (c ∷ text)) [
      | none ↦ (false, f)
      | some (taken, first, second) ↦
          let (copied, f') = copy_index_after_object position out_idx (units first second) f in
          elim copied [
            | true ↦
                copy_string rounds position (out_idx + unit_count second) (drop taken (c ∷ text)) f'
            | false ↦ (false, f')
          ]
    ]

    -- The string and its terminator.
    abbrev pub copy_terminated : ℕ → ℕ → List ℕ → FileWriter → Bool × FileWriter
    copy_terminated position n text f =
        let (copied, f') = copy_string n position 0 text f in
        if copied then copy_index_after_object position n (0 ∷ 0 ∷ []) f' else (false, f')

    -- The result and the destructor of the `TypedMDRVA`, which writes the length.
    abbrev pub finish_string : Mdrva → ℕ → Bool × FileWriter → Option Location × FileWriter
    finish_string m n (result, f) = (
      if result then some (location m) else none,
      (copy w k m.position (bytes_32 (n * 2 % 2 ^ 32)) f).1,
    )

    abbrev pub write_mdstring :
        ℕ → List ℕ → Bool × Mdrva × FileWriter → Option Location × FileWriter
    write_mdstring n text (false, m, f) = finish_string m 0 (false, f)
    write_mdstring n text (true, m, f) = finish_string m n (copy_terminated m.position n text f)

    -- `WriteStringCore`: `none` is a result of false. A limit of 0 is none.
    unfoldable pub write_string : List ℕ → ℕ → FileWriter → Option Location × FileWriter
    write_string text limit f =
        let text' : List ℕ = take (if limit == 0 then 2147483647 else limit) text in
        let n : ℕ = length text' in
        write_mdstring n text' (mdrva_allocate w k (mdstring_size + (n + 1) * 2) f)
