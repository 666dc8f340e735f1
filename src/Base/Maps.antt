-- ===== src/Base/Maps.antt =====
-- Go maps as lists of keys and values.
use Prim.Native.Nat.{ℕ}
use mathlib.Core.Bool.{Bool}
use mathlib.Core.Option.{Option, none, some}
use mathlib.Core.List.{List, [], ◌∷◌}
use variables_and_streams_se.Base.Tests.{◌==◌, if◌then◌else◌}

-- A map as a list of keys and values; `eq` tests keys.
module _ {K V : Type 0} (eq : K → K → Bool) where
  unfoldable pub lookup : K → List (K × V) → Option V
  lookup k [] = none
  lookup k ((j, v) ∷ m) = let rest = lookup k m in if eq j k then some v else rest

  -- m[k] = v
  unfoldable pub put : K → V → List (K × V) → List (K × V)
  put k v [] = (k, v) ∷ []
  put k v ((j, w) ∷ m) = let rest = put k v m in if eq j k then (j, v) ∷ m else (j, w) ∷ rest

  -- delete(m, k)
  unfoldable pub delete : K → List (K × V) → List (K × V)
  delete k [] = []
  delete k ((j, w) ∷ m) = let rest = delete k m in if eq j k then rest else (j, w) ∷ rest

abbrev pub number_eq : ℕ → ℕ → Bool
number_eq a b = a == b
