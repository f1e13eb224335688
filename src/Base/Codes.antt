-- ===== src/Base/Codes.antt =====
-- The bytes of an ASCII text.
use Prim.Native.Nat.{ℕ}
use Prim.Native.Char.{code}
use Prim.Native.String.{String}
use mathlib.Core.List.{List, [], ◌∷◌, ◌++◌}

abbrev pub codes : String → List ℕ
codes String.[] = []
codes (String.◌∷◌ c s) = code c ∷ codes s

-- A string literal of C: its bytes and the terminator.
abbrev pub literal : String → List ℕ
literal s = codes s ++ 0 ∷ []
