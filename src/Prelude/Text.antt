-- ===== src/Prelude/Text.antt =====
-- Python's f-strings.
use Prim.Native.String
use Prim.Native.String.{String}
use mathlib.Core.List.{List, [], ◌∷◌}

-- An f-string is its parts, one after another.
unfoldable pub format : List String → String
format [] = ""
format (s ∷ parts) = String.◌++◌ s (format parts)
