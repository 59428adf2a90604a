-- ===== src/Prelude/Try.antt =====
-- A value, or an error of a type of its own: Go's `(v, err)`.
use mathlib.Core.Path.{◌≡◌, refl}
use mathlib.Core.Bool.{Bool, true, false}
use mathlib.Core.Logic.{◌⊎◌, inl, inr}

pub data Try {ℓ} (E : Type 0) (A : Type ℓ) : Type ℓ where
  bad : E → Try E A
  good : A → Try E A

-- `if test { return err }`
abbrev pub unless {ℓ} : {E : Type 0} {A : Type ℓ} → Bool → E → Try E A → Try E A
unless true e more = bad e
unless false e more = more

pub Try-cases {ℓ} :
    {E : Type 0} {A : Type ℓ} (t : Try E A) → ((e : E) × (t ≡ bad e)) ⊎ ((a : A) × (t ≡ good a))
Try-cases (bad e) = inl (e, refl)
Try-cases (good a) = inr (a, refl)
