-- ===== src/Common/Names.antt =====
-- A map by names as an association list: what the source reads of a `HashMap` by its keys.
use Prim.Native.String.{String}
use mathlib.Core.Path.{◌≡◌, refl}
use mathlib.Core.Bool.{Bool, false, ◌||◌}
use mathlib.Core.List.{List, [], ◌∷◌}
use mathlib.Core.Option.{Option, none, some}
use native.Mathlib.Omega.{arith}
use text.Mathlib.Text.{◌==◌}
use text.Mathlib.TextEquality.{eq_iff}
use vm_tools.Common.Tests.{if◌then◌else◌}

unfoldable pub contains : String → List String → Bool
contains k [] = false
contains k (name ∷ names) = (name == k) || contains k names

module _ {ℓ} {V : Type ℓ} where
  unfoldable pub find : String → List (String × V) → Option V
  find k [] = none
  find k ((j, v) ∷ m) = if j == k then some v else find k m

  unfoldable pub set_name : String → V → List (String × V) → List (String × V)
  set_name k v [] = (k, v) ∷ []
  set_name k v ((j, w) ∷ m) = if j == k then (k, v) ∷ m else (j, w) ∷ set_name k v m

  unfoldable pub names : List (String × V) → List String
  names [] = []
  names ((j, v) ∷ m) = j ∷ names m

  pub find-set_name :
      (k j : String) (v : V) (m : List (String × V))
      → find j (set_name k v m) ≡ (if k == j then some v else find j m)
  unfolding find set_name
  find-set_name k j v [] = refl
  find-set_name k j v ((i, w) ∷ m) =
      ground (arith, eq_iff k j, eq_iff i k, eq_iff i j, find-set_name k j v m)
