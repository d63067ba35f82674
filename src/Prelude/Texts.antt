-- ===== src/Prelude/Texts.antt =====
-- Texts by the codes of their characters.
use Prim.Native.Nat.{ℕ}
use Prim.Native.Char.{code}
use Prim.Native.String.{String}
use mathlib.Core.Bool.{Bool, true, false, ◌&&◌}
use mathlib.Core.List.{List, [], ◌∷◌}
use movie_reservation_agent.Prelude.Tests.{◌==◌}

abbrev pub codes : String → List ℕ
codes String.[] = []
codes (String.◌∷◌ c s) = code c ∷ codes s

abbrev pub is_prefix : List ℕ → List ℕ → Bool
is_prefix [] bs = true
is_prefix (a ∷ rest) [] = false
is_prefix (a ∷ rest) (b ∷ bs) = (a == b) && is_prefix rest bs

-- `text.startswith(prefix)`
abbrev pub startswith : String → String → Bool
startswith text prefix = is_prefix (codes prefix) (codes text)
