-- ===== src/Common/Fallible.antt =====
-- What a fallible call of the source comes back with: a value, an error value of type `E`, a panic
-- (an index out of range, an `unwrap` of an error), or, for a loop modelled on fuel, no fuel left.
use mathlib.Core.Path.{◌≡◌, refl}
use mathlib.Core.Logic.{◌⊎◌, inl, inr}
use mathlib.Core.Option.{Option, none, some}

pub data Outcome {ℓ} (E : Type 0) (A : Type ℓ) : Type ℓ where
  ok : A → Outcome E A
  err : E → Outcome E A
  panic : Outcome E A
  out_of_fuel : Outcome E A

infixl 5 ◌>>=◌
abbrev pub ◌>>=◌ {ℓ κ} :
    {E : Type 0} {A : Type ℓ} {B : Type κ} → Outcome E A → (A → Outcome E B) → Outcome E B
ok a >>= f = f a
err e >>= f = err e
panic >>= f = panic
out_of_fuel >>= f = out_of_fuel

-- `v[i]`: a panic out of range.
abbrev pub index_or_panic {ℓ} : {E : Type 0} {A : Type ℓ} → Option A → Outcome E A
index_or_panic none = panic
index_or_panic (some a) = ok a

pub Outcome-cases {ℓ} :
    {E : Type 0} {A : Type ℓ} (r : Outcome E A)
    → ((a : A) × (r ≡ ok a)) ⊎ (((x : E) × (r ≡ err x)) ⊎ ((r ≡ panic) ⊎ (r ≡ out_of_fuel)))
Outcome-cases (ok a) = inl (a, refl)
Outcome-cases (err x) = inr (inl (x, refl))
Outcome-cases panic = inr (inr (inl refl))
Outcome-cases out_of_fuel = inr (inr (inr refl))
