-- ===== src/Base/Text.antt =====
-- Texts, read as their code points.
use Prim.Native.Nat.{ℕ}
use Prim.Native.Char.{code}
use Prim.Native.String.{String, compare}
use Prim.Native.Nat.{Ordering}
use mathlib.Core.Bool.{Bool, true, false}
use mathlib.Core.List.{List, [], ◌∷◌}

abbrev pub codes : String → List ℕ
codes String.[] = []
codes (String.◌∷◌ c s) = code c ∷ codes s

-- The order of `sort.Strings`.
abbrev pub string_lt : String → String → Bool
string_lt s t = elim (compare s t) [ Ordering.lt ↦ true | _ ↦ false ]
