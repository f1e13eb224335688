-- ===== src/ByteCursor/Runs.antt =====
-- Tests and examples of `ByteCursor`.
use native_crash2java.Base.{◌≡◌, refl, true, false, [], ◌∷◌, ◌++◌, none, some, arith}
use native_crash2java.ByteCursor.{
  point_to, at_end, read_signed, check_available, reversed, ByteCursor, byte_cursor, available,
  skip_bytes, read_bytes, read_loop, read_unsigned, read_c_string, read_c_string_within,
}
use native_crash2java.ByteCursor.Reads.{little_endian, read_unsigned-little_endian}

abbrev cursor : ByteCursor
cursor = record { left = 1 ∷ 2 ∷ 3 ∷ []; big_endian = true; complete = true }

abbrev off : ByteCursor
off = record { left = []; big_endian = true; complete = false }

cursor_runs :
    (read_unsigned 16 2 cursor ≡ (258, record cursor { left = 3 ∷ [] }))
    × (read_unsigned 32 4 cursor ≡ (3735928559, off))
    × (skip_bytes 4 cursor ≡ off)
    × (read_bytes 2 cursor ≡ (some (1 ∷ 2 ∷ []), record cursor { left = 3 ∷ [] }))
    × (read_c_string cursor ≡ ([], off))
    × (read_c_string_within 2 cursor ≡ (1 ∷ 2 ∷ [], record cursor { left = 3 ∷ [] }))
    × (byte_cursor (1 ∷ 2 ∷ 3 ∷ []) true ≡ cursor)
unfolding byte_cursor available skip_bytes read_bytes read_unsigned read_loop read_c_string
    read_c_string_within
cursor_runs = (refl, refl, refl, refl, refl, refl, refl)

read_unsigned-little_endian_example :
    read_unsigned 32 2
      (record { left = (1 ∷ 2 ∷ []) ++ 3 ∷ []; big_endian = false; complete = true })
    ≡ (little_endian (1 ∷ 2 ∷ []), record { left = 3 ∷ []; big_endian = false; complete = true })
read_unsigned-little_endian_example =
    read_unsigned-little_endian 32 (1 ∷ 2 ∷ []) (3 ∷ []) true (ground arith) (omega arith)

-- A byte of 255 is -1 where it is read signed, and a pointer past the end is NULL.
signed_runs :
    ((read_signed 32 1 (byte_cursor (255 ∷ []) false)).0 ≡ 4294967295)
    × ((read_signed 32 1 (byte_cursor (127 ∷ []) false)).0 ≡ 127)
    × ((point_to 1 (byte_cursor (1 ∷ 2 ∷ []) false)).0 ≡ some (1 ∷ 2 ∷ []))
    × ((point_to 3 (byte_cursor (1 ∷ 2 ∷ []) false)).0 ≡ none)
    × (at_end (point_to 2 (byte_cursor (1 ∷ 2 ∷ []) false)).1 ≡ true)
unfolding read_signed read_unsigned check_available available read_loop reversed byte_cursor
    point_to
signed_runs = (refl, refl, refl, refl, refl)
