-- ===== src/Webhooks/Saturated.antt =====
-- services/webhooks/executor.py: what `_saturated` excludes, and counts of the tasks in flight.
use spoo.Base.{
  ℕ, ◌+◌, ◌≤◌, ◌≡◌, ◌∙◌, ap, refl, Bool, true, ◌&&◌, not, List, [], ◌∷◌, ◌++◌, inl, inr, arith, any,
  leb, ltb, if◌then◌else◌, ◌==◌, Bool-cases,
}
use spoo.Webhooks.Claims.{filter, occurrences, distinct, saturated, Task, ids}

abbrev pub has : ℕ → List ℕ → Bool
has e xs = any (λ x. x == e) xs

pub has-filter : (e : ℕ) (p : ℕ → Bool) (xs : List ℕ) → has e (filter p xs) ≡ (has e xs && p e)
has-filter e p [] = refl
has-filter e p (x ∷ xs) = elim (Bool-cases (x == e)) [
  | inl same ↦ let px : p x ≡ p e = ap p (ground arith) in ground (arith, has-filter e p xs, px)
  | inr other ↦ ground (arith, has-filter e p xs)
]

pub has-distinct : (e : ℕ) (xs : List ℕ) → has e (distinct xs) ≡ has e xs
has-distinct e [] = refl
has-distinct e (x ∷ xs) =
    ground (arith, has-filter e (λ y. not (y == x)) (distinct xs), has-distinct e xs)

pub has-occurrences : (e : ℕ) (xs : List ℕ) → has e xs ≡ ltb 0 (occurrences e xs)
has-occurrences e [] = refl
has-occurrences e (x ∷ xs) = ground (arith, has-occurrences e xs)

-- An endpoint at the bound is excluded.
pub has-saturated :
    (per_endpoint e : ℕ) (xs : List ℕ)
    → 1 ≤ per_endpoint
    → per_endpoint ≤ occurrences e xs
    → has e (saturated per_endpoint xs) ≡ true
has-saturated per_endpoint e xs positive full =
    let counted : leb per_endpoint (occurrences e xs) ≡ true = ground arith in
    let there : ltb 0 (occurrences e xs) ≡ true = ground arith in
    has-filter e (λ y. leb per_endpoint (occurrences y xs)) (distinct xs)
    ∙ ground (arith, has-distinct e xs, has-occurrences e xs, counted, there)

-- Tasks whose attempt runs, of all endpoints and of one.
abbrev pub working : List Task → ℕ
working [] = 0
working (t ∷ ts) = (if t.running then 1 else 0) + working ts

abbrev pub working_for : ℕ → List Task → ℕ
working_for e [] = 0
working_for e (t ∷ ts) = (if t.running && (t.endpoint_id == e) then 1 else 0) + working_for e ts

pub working-append : (xs ys : List Task) → working (xs ++ ys) ≡ working xs + working ys
working-append [] ys = omega arith
working-append (x ∷ xs) ys = omega (arith, working-append xs ys)

pub occurrences-append :
    (e : ℕ) (xs ys : List Task)
    → occurrences e (ids (xs ++ ys)) ≡ occurrences e (ids xs) + occurrences e (ids ys)
occurrences-append e [] ys = omega arith
occurrences-append e (x ∷ xs) ys = omega (arith, occurrences-append e xs ys)

pub working_for-occurrences : (e : ℕ) (xs : List Task) → working_for e xs ≤ occurrences e (ids xs)
working_for-occurrences e [] = omega arith
working_for-occurrences e (x ∷ xs) = ground (arith, working_for-occurrences e xs)
