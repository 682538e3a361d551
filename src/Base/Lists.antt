-- ===== src/Base/Lists.antt =====
-- Lists measured by native numbers, and tests over their members.
use Prim.Native.Nat.{ℕ, suc, ◌+◌}
use mathlib.Core.Path.{◌≡◌, sym, subst}
use mathlib.Core.Bool.{Bool, true, false, ◌||◌}
use mathlib.Core.List.{List, [], ◌∷◌, ◌++◌}
use mathlib.Core.Option.{Option, none, some}
use mathlib.Core.Logic.{◌↔◌, ◌⊎◌, inl, inr}
use spoo.Base.Tests.{Bool-cases, if◌then◌else◌}
use native.Mathlib.Omega.{arith}

module _ {ℓ} {A : Type ℓ} where
  abbrev pub length : List A → ℕ
  length [] = 0
  length (x ∷ xs) = suc (length xs)

  abbrev pub any : (A → Bool) → List A → Bool
  any p [] = false
  any p (x ∷ xs) = p x || any p xs

  abbrev pub is_none : Option A → Bool
  is_none none = true
  is_none (some a) = false

module _ {ℓ κ} {A : Type ℓ} where
  abbrev pub All : (A → Type κ) → List A → Type κ
  All P [] = Unit
  All P (x ∷ xs) = P x × All P xs

pub length-append {ℓ} : {A : Type ℓ} (xs ys : List A) → length (xs ++ ys) ≡ length xs + length ys
length-append [] ys = omega arith
length-append (x ∷ xs) ys = omega (arith, length-append xs ys)

-- An element is in a list.
abbrev pub Listed : {A : Type 0} → A → List A → Type 0
Listed x [] = ⊥
Listed x (y ∷ ys) = (x ≡ y) ⊎ Listed x ys

-- The elements that pass a test.
abbrev pub filter {ℓ} : {A : Type ℓ} → (A → Bool) → List A → List A
filter p [] = []
filter p (x ∷ xs) = let rest = filter p xs in if p x then x ∷ rest else rest

pub any-Listed :
    {A : Type 0} (same : A → A → Bool)
    → ((a b : A) → (same a b ≡ true) ↔ (a ≡ b))
    → (x : A) (l : List A) → (any (same x) l ≡ true) ↔ Listed x l
any-Listed same same_iff x [] = (λ h. cc, λ h. absurd h)
any-Listed same same_iff x (y ∷ ys) = (
  λ h. elim (Bool-cases (same x y)) [
    | inl t ↦ inl ((same_iff x y).0 t)
    | inr n ↦ inr ((any-Listed same same_iff x ys).0 (ground (arith, n, h)))
  ],
  λ h. elim h [
    | inl e ↦ ground (arith, (same_iff x y).1 e)
    | inr later ↦ ground (arith, (any-Listed same same_iff x ys).1 later)
  ],
)

pub filter-Listed :
    {A : Type 0} (p : A → Bool) (x : A) (l : List A)
    → Listed x (filter p l) ↔ (Listed x l × (p x ≡ true))
filter-Listed p x [] = (λ h. absurd h, λ (h, t). absurd h)
filter-Listed p x (y ∷ ys) = elim (Bool-cases (p y)) [
  | inl t ↦ (
    rw t (λ h. elim h [
      | inl e ↦ (inl e, subst (λ z. p z ≡ true) (sym e) t)
      | inr later ↦ (inr ((filter-Listed p x ys).0 later).0, ((filter-Listed p x ys).0 later).1)
    ]),
    rw t (λ (h, m). elim h [
      | inl e ↦ inl e
      | inr later ↦ inr ((filter-Listed p x ys).1 (later, m))
    ]),
  )
  | inr n ↦ (
    rw n (λ h. (inr ((filter-Listed p x ys).0 h).0, ((filter-Listed p x ys).0 h).1)),
    rw n (λ (h, m). elim h [
      | inl e ↦ absurd (not_both e m n)
      | inr later ↦ (filter-Listed p x ys).1 (later, m)
    ]),
  )
]
  where
    not_both : x ≡ y → p x ≡ true → p y ≡ false → ⊥
    not_both e m n = cc
