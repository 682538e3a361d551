-- ===== src/Links/Variants.antt =====
-- shared/ab_variants.py, `pick_variant`: a roll in 0..99 chooses a destination by weight.
use spoo.Base.{
  ℕ, zero, suc, ◌+◌, ◌-◌, ◌≤◌, ◌<◌, ◌≡◌, ◌∙◌, refl, ap, Bool, false, ◌&&◌, Option, none, some, List,
  [], ◌∷◌, inl, inr, arith, leb, ltb, ◌==◌, if◌then◌else◌, Bool-cases, is_none, length,
}
use Prim.Native.Nat.{min}
use spoo.Links.{AbVariant}

-- The loop, from an index and the ceiling so far.
abbrev pub pick_from : ℕ → ℕ → List AbVariant → ℕ → Option ℕ
pick_from ceiling index [] roll = none
pick_from ceiling index (v ∷ vs) roll =
    let later = pick_from (ceiling + v.weight) (index + 1) vs roll in
    if ltb roll (ceiling + v.weight) then some index else later

unfoldable pub pick_variant : List AbVariant → ℕ → Option ℕ
pick_variant variants roll = pick_from 0 0 variants roll

-- The weights before an index, and the weight at it.
abbrev pub before : ℕ → List AbVariant → ℕ
before zero vs = 0
before (suc n) [] = 0
before (suc n) (v ∷ vs) = v.weight + before n vs

abbrev pub weight_at : ℕ → List AbVariant → ℕ
weight_at n [] = 0
weight_at zero (v ∷ vs) = v.weight
weight_at (suc n) (v ∷ vs) = weight_at n vs

abbrev pub is_choice : ℕ → Option ℕ → Bool
is_choice n none = false
is_choice n (some m) = m == n

-- The rolls below `n` with a property.
abbrev pub count_rolls : (ℕ → Bool) → ℕ → ℕ
count_rolls p zero = 0
count_rolls p (suc n) = (if p n then 1 else 0) + count_rolls p n

pick_from-later :
    (ceiling index n : ℕ) (vs : List AbVariant) (roll : ℕ)
    → n < index
    → is_choice n (pick_from ceiling index vs roll) ≡ false
pick_from-later ceiling index n [] roll less = refl
pick_from-later ceiling index n (v ∷ vs) roll less =
    ground (arith, pick_from-later (ceiling + v.weight) (index + 1) n vs roll (omega (arith, less)))

-- A variant is chosen exactly in its band.
pick_from-band :
    (ceiling index n : ℕ) (vs : List AbVariant) (roll : ℕ)
    → ceiling ≤ roll
    → is_choice (index + n) (pick_from ceiling index vs roll)
      ≡ (leb (ceiling + before n vs) roll && ltb roll (ceiling + before n vs + weight_at n vs))
pick_from-band ceiling index n [] roll above = ground arith
pick_from-band ceiling index zero (v ∷ vs) roll above =
    ground
      (arith, above, pick_from-later (ceiling + v.weight) (index + 1) index vs roll (omega arith))
pick_from-band ceiling index (suc n) (v ∷ vs) roll above =
    elim (Bool-cases (ltb roll (ceiling + v.weight))) [
      | inl under ↦ ground (arith, under)
      | inr over ↦ ground (
        arith,
        over,
        pick_from-band (ceiling + v.weight) (index + 1) n vs roll (ground (arith, over)),
      )
    ]

count_rolls-band :
    (low width n : ℕ)
    → count_rolls (λ r. leb low r && ltb r (low + width)) n ≡ min (low + width) n - min low n
count_rolls-band low width zero = ground arith
count_rolls-band low width (suc n) = ground (arith, count_rolls-band low width n)

count_rolls-eq :
    (p q : ℕ → Bool) (n : ℕ) → ((r : ℕ) → p r ≡ q r) → count_rolls p n ≡ count_rolls q n
count_rolls-eq p q zero same = refl
count_rolls-eq p q (suc n) same =
    let bit : Bool → ℕ = λ b. if b then 1 else 0 in
    let one : bit (p n) ≡ bit (q n) = ap bit (same n) in
    omega (arith, one, count_rolls-eq p q n same)

before-weight_at :
    (n : ℕ) (vs : List AbVariant) → before n vs + weight_at n vs ≤ before (length vs) vs
before-weight_at zero [] = omega arith
before-weight_at (suc n) [] = omega arith
before-weight_at zero (v ∷ vs) = omega arith
before-weight_at (suc n) (v ∷ vs) = omega (arith, before-weight_at n vs)

-- No variant is chosen exactly from the sum of the weights on.
pick_from-none :
    (ceiling index : ℕ) (vs : List AbVariant) (roll : ℕ)
    → ceiling ≤ roll
    → is_none (pick_from ceiling index vs roll) ≡ leb (ceiling + before (length vs) vs) roll
pick_from-none ceiling index [] roll above = ground arith
pick_from-none ceiling index (v ∷ vs) roll above =
    elim (Bool-cases (ltb roll (ceiling + v.weight))) [
      | inl under ↦ ground (arith, under)
      | inr over ↦ ground (
        arith,
        over,
        pick_from-none (ceiling + v.weight) (index + 1) vs roll (ground (arith, over)),
      )
    ]

count_rolls-above : (low n : ℕ) → count_rolls (λ r. leb low r) n ≡ n - low
count_rolls-above low zero = ground arith
count_rolls-above low (suc n) = ground (arith, count_rolls-above low n)

-- The split. Where the weights sum to at most 100, exactly as many of the 100 rolls choose a variant
-- as its weight says, and the others leave the default destination.
pub pick_variant-weight_at :
    (vs : List AbVariant) (n : ℕ)
    → before (length vs) vs ≤ 100
    → (count_rolls (λ r. is_choice n (pick_variant vs r)) 100 ≡ weight_at n vs)
      × (count_rolls (λ r. is_none (pick_variant vs r)) 100 ≡ 100 - before (length vs) vs)
unfolding pick_variant
pick_variant-weight_at vs n bounded =
    let low = before n vs in
    let width = weight_at n vs in
    let total = before (length vs) vs in
    (
      count_rolls-eq (λ r. is_choice n (pick_variant vs r)) (λ r. leb low r && ltb r (low + width))
            100 (λ r. ground (arith, pick_from-band 0 0 n vs r (omega arith)))
          ∙ count_rolls-band low width 100
          ∙ omega (arith, bounded, before-weight_at n vs),
      count_rolls-eq (λ r. is_none (pick_variant vs r)) (λ r. leb total r) 100
            (λ r. ground (arith, pick_from-none 0 0 vs r (omega arith)))
          ∙ count_rolls-above total 100,
    )
