-- ===== src/Common/Texts.antt =====
-- The characters of a literal, as the list of their code points.
use Prim.Native.Char.{code}
use Prim.Native.String.{String}
use rust_u4pak.Common.{ℕ, List, [], ◌∷◌}

abbrev pub codes : String → List ℕ
codes String.[] = []
codes (String.◌∷◌ c s) = code c ∷ codes s
