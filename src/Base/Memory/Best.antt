-- ===== src/Base/Memory/Best.antt =====
-- The first match of a sorted search in such a list.
use Prim.Native.Nat.{ℕ}
use mathlib.Core.Path.{◌≡◌, refl, ◌∙◌, ap₂, subst}
use mathlib.Core.Logic.{◌↔◌, inl, inr}
use mathlib.Core.Bool.{Bool, true, false}
use mathlib.Core.Option.{Option, none, some}
use mathlib.Core.List.{List, [], ◌∷◌}
use native.Mathlib.Omega.{arith}
use spoo.Base.Tests.{if◌then◌else◌, Option-cases, Bool-cases, leb, leb→le}
use spoo.Base.Collection.{Direction, ascending, descending, Precedes}
use spoo.Base.Memory.Entries.{find, Distinct, find-head}

abbrev precedes : Direction → ℕ → ℕ → Bool
precedes ascending a b = leb a b
precedes descending a b = leb b a

precedes-Precedes : (dir : Direction) (a b : ℕ) → precedes dir a b ≡ true → Precedes dir a b
precedes-Precedes ascending a b h = leb→le a b h
precedes-Precedes descending a b h = leb→le b a h

not-precedes : (dir : Direction) (a b : ℕ) → precedes dir a b ≡ false → Precedes dir b a
not-precedes ascending a b h = ground arith
not-precedes descending a b h = ground arith

Precedes-refl : (dir : Direction) (a : ℕ) → Precedes dir a a
Precedes-refl ascending a = omega arith
Precedes-refl descending a = omega arith

Precedes-trans :
    (dir : Direction) (a b c : ℕ) → Precedes dir a b → Precedes dir b c → Precedes dir a c
Precedes-trans ascending a b c p q = omega arith
Precedes-trans descending a b c p q = omega arith

module _ {K D : Type 0} (same : K → K → Bool)
    (same_iff : (a b : K) → (same a b ≡ true) ↔ (a ≡ b)) where
  abbrev pub best : Direction → (K → D → Bool) → (D → ℕ) → List (K × D) → Option (K × D)
  best dir q key [] = none
  best dir q key ((k, d) ∷ r) =
      if q k d
      then elim (best dir q key r) [
        | none ↦ some (k, d)
        | some (j, e) ↦ if precedes dir (key d) (key e) then some (k, d) else some (j, e)
      ]
      else best dir q key r

  -- What a search for the first match says.
  abbrev pub IsBest : Direction → (K → D → Bool) → (D → ℕ) → List (K × D) → K → D → Type 0
  IsBest dir q key l k d =
      (find same same_iff l k ≡ some d)
      × (q k d ≡ true)
      × ((j : K) (e : D)
          → find same same_iff l j ≡ some e
          → q j e ≡ true
          → Precedes dir (key d) (key e))

  pub best-none :
      (dir : Direction) (q : K → D → Bool) (key : D → ℕ) (l : List (K × D))
      → best dir q key l ≡ none
      → (k : K) (d : D) → find same same_iff l k ≡ some d
      → q k d ≡ false
  best-none dir q key [] h k d f = cc
  best-none dir q key ((i, e) ∷ r) h k d f = elim (find-head same same_iff i k e d r f) [
    | inl (p, o) ↦ cc (ap₂ q p o, skipped)
    | inr later ↦ best-none dir q key r (ground (arith, skipped)) k d later
  ]
    where
      skipped : q i e ≡ false
      skipped = ground arith

  IsBest-head :
      (dir : Direction) (q : K → D → Bool) (key : D → ℕ) (i : K) (e : D) (r : List (K × D))
      → q i e ≡ true
      → ((j : K) (b : D)
          → find same same_iff r j ≡ some b
          → q j b ≡ true
          → Precedes dir (key e) (key b))
      → IsBest dir q key ((i, e) ∷ r) i e
  IsBest-head dir q key i e r m first = (
    rw ((same_iff i i).1 refl),
    m,
    λ j b f mj. elim (find-head same same_iff i j e b r f) [
      | inl (p, o) ↦ subst (λ x. Precedes dir (key e) (key x)) o (Precedes-refl dir (key e))
      | inr later ↦ first j b later mj
    ],
  )

  IsBest-tail :
      (dir : Direction) (q : K → D → Bool) (key : D → ℕ) (i j : K) (e b : D) (r : List (K × D))
      → find same same_iff r i ≡ none
      → IsBest dir q key r j b
      → (q i e ≡ true → Precedes dir (key b) (key e))
      → IsBest dir q key ((i, e) ∷ r) j b
  IsBest-tail dir q key i j e b r fresh (stored, m, first) head = (
    elim (Bool-cases (same i j)) [
      | inl t ↦ cc (fresh, stored, (same_iff i j).0 t)
      | inr n ↦ rw n stored
    ],
    m,
    λ k d f mk. elim (find-head same same_iff i k e d r f) [
      | inl (p, o) ↦ subst (λ x. Precedes dir (key b) (key x)) o (head (ap₂ q p o ∙ mk))
      | inr later ↦ first k d later mk
    ],
  )

  pub best-some :
      (dir : Direction) (q : K → D → Bool) (key : D → ℕ) (l : List (K × D)) (k : K) (d : D)
      → Distinct same same_iff l
      → best dir q key l ≡ some (k, d)
      → IsBest dir q key l k d
  best-some dir q key [] k d u h = absurd (ground arith)
  best-some dir q key ((i, e) ∷ r) k d (fresh, u) h = elim (Bool-cases (q i e)) [
    | inr n ↦
        IsBest-tail dir q key i k e d r fresh (best-some dir q key r k d u (ground arith)) (λ m. cc)
    | inl m ↦ elim (Option-cases (best dir q key r)) [
      | inl empty ↦
          moved (ground arith) (ground arith)
            (IsBest-head dir q key i e r m (λ j b f mj. cc (best-none dir q key r empty j b f, mj)))
      | inr ((j, b), found) ↦ against m j b found (best-some dir q key r j b u found)
    ]
  ]
    where
      moved :
          {j : K} {b : D}
          → j ≡ k
          → b ≡ d
          → IsBest dir q key ((i, e) ∷ r) j b
          → IsBest dir q key ((i, e) ∷ r) k d
      moved {b = b} p o x =
          subst (λ y. IsBest dir q key ((i, e) ∷ r) k y) o
            (subst (λ y. IsBest dir q key ((i, e) ∷ r) y b) p x)

      against :
          q i e ≡ true
          → (j : K) (b : D) → best dir q key r ≡ some (j, b)
          → IsBest dir q key r j b
          → IsBest dir q key ((i, e) ∷ r) k d
      against m j b found x = elim (Bool-cases (precedes dir (key e) (key b))) [
        | inl t ↦ moved (ground arith) (ground arith) (
            IsBest-head dir q key i e r m (λ j' b' f mj.
              Precedes-trans dir (key e) (key b) (key b') (precedes-Precedes dir (key e) (key b) t)
                (x.2 j' b' f mj)))
        | inr n ↦
            moved (ground arith) (ground arith)
              (IsBest-tail dir q key i j e b r fresh x (λ _. not-precedes dir (key e) (key b) n))
      ]
