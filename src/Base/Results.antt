-- ===== src/Base/Results.antt =====
-- Calls that may raise: the exception is a value.
use mathlib.Core.Path.{◌≡◌, refl, subst}
use mathlib.Core.Logic.{◌⊎◌, inl, inr}
use mathlib.Core.Bool.{Bool, true, false}

pub data Result {ℓ κ} (E : Type ℓ) (A : Type κ) : Type (ℓ ⊔ κ) where
  ok : A → Result E A
  err : E → Result E A

pub Result-cases {ℓ κ} :
    {E : Type ℓ} {A : Type κ} (r : Result E A) → ((e : E) × (r ≡ err e)) ⊎ ((a : A) × (r ≡ ok a))
Result-cases (err e) = inl (e, refl)
Result-cases (ok a) = inr (a, refl)

module _ {ℓ} {E : Type ℓ} where
  -- A call that may raise, then the rest of the body with what it returned.
  infixl 5 ◌>>=◌
  abbrev pub ◌>>=◌ {κ μ} :
      {Got : Type κ} {Body : Type μ} → Result E Got → (Got → Result E Body) → Result E Body
  err raised >>= rest = err raised
  ok got >>= rest = rest got

  -- A check, then the rest of the body.
  infixl 5 ◌>>◌
  abbrev pub ◌>>◌ {μ} : {Body : Type μ} → Result E (Unit {0}) → Result E Body → Result E Body
  check >> rest = check >>= λ passed. rest

  -- `if b: raise e`
  abbrev pub raise_if : Bool → E → Result E (Unit {0})
  raise_if false e = ok tt
  raise_if true e = err e

  -- What holds of the result, if there is one.
  abbrev pub Returns {κ μ} : {A : Type κ} → (A → Type μ) → Result E A → Type μ
  Returns P (ok a) = P a
  Returns P (err e) = Unit

  pub Returns-bind {κ μ ν} :
      {A : Type κ} {B : Type μ} (P : B → Type ν) (m : Result E A) (f : A → Result E B)
      → ((a : A) → m ≡ ok a → Returns P (f a))
      → Returns P (m >>= f)
  Returns-bind P (ok a) f h = h a refl
  Returns-bind P (err e) f h = tt

  pub Returns-ok {κ μ} :
      {A : Type κ} (P : A → Type μ) (m : Result E A) (a : A) → m ≡ ok a → Returns P m → P a
  Returns-ok P m a e h = subst (Returns P) e h
