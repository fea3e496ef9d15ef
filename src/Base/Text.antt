-- ===== src/Base/Text.antt =====
-- Literals as lists of characters.
use Prim.Native.Char.{code}
use Prim.Native.String.{String}
use xtf.Base.{ℕ, List, [], ◌∷◌}

abbrev pub codes : String → List ℕ
codes String.[] = []
codes (String.◌∷◌ c s) = code c ∷ codes s
