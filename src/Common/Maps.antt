-- ===== src/Common/Maps.antt =====
-- A map as an association list, the latest entry first: what the source reads of a `BTreeMap` by its keys.
use Prim.Native.Nat.{ℕ}
use mathlib.Core.Path.{◌≡◌}
use mathlib.Core.Logic.{inl, inr}
use mathlib.Core.List.{List, [], ◌∷◌}
use mathlib.Core.Option.{Option, none, some}
use native.Mathlib.Omega.{arith}
use vm_tools.Common.Tests.{leb, ◌==◌, if◌then◌else◌, Bool-cases}

module _ {ℓ} {V : Type ℓ} where
  unfoldable pub get : ℕ → List (ℕ × V) → Option V
  get k [] = none
  get k ((i, v) ∷ m) = if k == i then some v else get k m

  unfoldable pub remove : ℕ → List (ℕ × V) → List (ℕ × V)
  remove k [] = []
  remove k ((i, v) ∷ m) = if k == i then remove k m else (i, v) ∷ remove k m

  unfoldable pub insert : ℕ → V → List (ℕ × V) → List (ℕ × V)
  insert k v m = (k, v) ∷ remove k m

  -- `values()` of a `BTreeMap`: the values in the order of their keys.
  unfoldable pub place : ℕ → V → List (ℕ × V) → List (ℕ × V)
  place k v [] = (k, v) ∷ []
  place k v ((i, w) ∷ m) = if leb k i then (k, v) ∷ (i, w) ∷ m else (i, w) ∷ place k v m

  unfoldable pub in_order : List (ℕ × V) → List (ℕ × V)
  unfolding place
  in_order [] = []
  in_order ((k, v) ∷ m) = place k v (in_order m)

  pub get-remove :
      (i k : ℕ) (m : List (ℕ × V)) → get i (remove k m) ≡ (if i == k then none else get i m)
  unfolding get remove
  get-remove i k [] = elim (Bool-cases (i == k)) [ inl e ↦ rw e | inr e ↦ rw e ]
  get-remove i k ((j, v) ∷ m) = let rest = get-remove i k m in ground (arith, rest)

  pub get-insert :
      (i k : ℕ) (v : V) (m : List (ℕ × V))
      → get i (insert k v m) ≡ (if i == k then some v else get i m)
  unfolding get insert
  get-insert i k v m = ground (arith, get-remove i k m)
