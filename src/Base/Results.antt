-- ===== src/Base/Results.antt =====
-- A call that gives a value or fails: Go's `(value, error)` where the value of a failure is unused.
use mathlib.Core.Path.{◌≡◌, refl}
use mathlib.Core.Logic.{◌⊎◌, inl, inr}

pub data Result {ℓ κ} (F : Type ℓ) (A : Type κ) : Type (ℓ ⊔ κ) where
  done : A → Result F A
  failed : F → Result F A

module _ {ℓ κ} {F : Type ℓ} {A : Type κ} where
  -- To split on a computed result and keep the equation.
  pub Result-cases : (r : Result F A) → ((a : A) × (r ≡ done a)) ⊎ ((f : F) × (r ≡ failed f))
  Result-cases (done a) = inl (a, refl)
  Result-cases (failed f) = inr (f, refl)
