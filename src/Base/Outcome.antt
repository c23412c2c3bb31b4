-- ===== src/Base/Outcome.antt =====
-- A call that ends, or that panics and leaves the state as it was at the panic.
use mathlib.Core.Path.{◌≡◌, refl}
use mathlib.Core.Logic.{◌⊎◌, inl, inr}

pub data Outcome {ℓ κ} (S : Type ℓ) (A : Type κ) : Type (ℓ ⊔ κ) where
  done : A → S → Outcome S A
  panic : S → Outcome S A

pub Outcome-cases {ℓ κ} :
    {S : Type ℓ} {A : Type κ} (o : Outcome S A)
    → ((s : S) × (o ≡ panic s)) ⊎ ((a : A) × (s : S) × (o ≡ done a s))
Outcome-cases (panic s) = inl (s, refl)
Outcome-cases (done a s) = inr (a, s, refl)
