-- ===== src/Base/Strings.antt =====
-- `join` of the standard library's slices of strings.
use mathlib.Core.List.{List, [], ◌∷◌}
use Prim.Native.String as S
use Prim.Native.String.{String}

abbrev pub join : String → List String → String
join separator [] = ""
join separator (s ∷ []) = s
join separator (s ∷ t ∷ rest) = S.◌++◌ s (S.◌++◌ separator (join separator (t ∷ rest)))
