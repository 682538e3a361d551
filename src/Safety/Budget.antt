-- ===== src/Safety/Budget.antt =====
-- The daily budgets of services/safety/admission.py and infrastructure/cache/web_risk_budget.py hold
-- over any calls.
use spoo.Base.{
  ℕ, ◌+◌, ◌-◌, ◌≤◌, ◌≡◌, subst, Bool, true, false, ◌&&◌, List, [], ◌∷◌, inl, inr, arith, leb, ◌==◌,
  if◌then◌else◌, Option-cases, Bool-cases, and-eq-true,
}
use spoo.Safety.Counters.{Counters, Key, count_use, count_use_mono, count_use-some}
use spoo.Safety.WebRisk.{fits, take}

-- What a call does to the counter of a key, where it is a grant and where it is not.
abbrev pub Spends : ℕ → ℕ → Bool → ℕ → Type 0
Spends limit old grant new = (old ≤ new) × (grant ≡ true → (old + 1 ≤ limit) × (old + 1 ≤ new))

module _ (redis : Counters) where
  open redis use {State, value}

  pub count_use-Spends :
      (limit : ℕ) (k : Key) (s : State)
      → Spends limit
          (value s k)
          (fits limit (count_use redis k s).0)
          (value (count_use redis k s).1 k)
  count_use-Spends limit k s = (
    count_use_mono redis k k s,
    λ grant. elim (Option-cases (count_use redis k s).0) [
      | inl failed ↦ absurd (ground (arith, failed, grant))
      | inr (n, counted) ↦
          let (next, stored) = count_use-some redis k s n counted in
          let small : leb n limit ≡ true = ground (arith, counted, grant) in
          (ground (arith, next, small), omega (arith, next, stored))
    ],
  )

  -- The lookups granted on one day over calls on any days.
  unfoldable pub lookups : ℕ → ℕ → List (Bool × ℕ) → State → ℕ
  lookups limit day [] s = 0
  lookups limit day ((there, d) ∷ calls) s =
      let (granted, s') = take redis limit there d s in
      (if granted && (d == day) then 1 else 0) + lookups limit day calls s'

  take-Spends :
      (limit day d : ℕ) (there : Bool) (s : State)
      → Spends limit
          (value s ("web_risk_budget", day))
          ((take redis limit there d s).0 && (d == day))
          (value (take redis limit there d s).1 ("web_risk_budget", day))
  unfolding take
  take-Spends limit day d false s = (omega arith, λ grant. absurd (ground (arith, grant)))
  take-Spends limit day d true s = (
    count_use_mono redis ("web_risk_budget", d) ("web_risk_budget", day) s,
    λ grant.
        let (granted, today) =
          and-eq-true (fits limit (count_use redis ("web_risk_budget", d) s).0) (d == day) grant in
        let same : d ≡ day = ground (arith, today) in
        subst
          (λ x.
            (value s ("web_risk_budget", x) + 1 ≤ limit)
            × (value s ("web_risk_budget", x) + 1
                ≤ value (count_use redis ("web_risk_budget", d) s).1 ("web_risk_budget", x)))
          same ((count_use-Spends limit ("web_risk_budget", d) s).1 granted),
  )

  -- The expander's cap. Over any calls on any days, with a client or without, and whatever calls of
  -- Redis fail, no more lookups are granted on a day than the limit less what was counted before.
  pub take-Capped :
      (limit day : ℕ) (calls : List (Bool × ℕ)) (s : State)
      → lookups limit day calls s ≤ limit - value s ("web_risk_budget", day)
  unfolding lookups
  take-Capped limit day [] s = omega arith
  take-Capped limit day ((there, d) ∷ calls) s =
      let s' = (take redis limit there d s).1 in
      let (mono, spent) = take-Spends limit day d there s in
      elim (Bool-cases ((take redis limit there d s).0 && (d == day))) [
        | inl granted ↦
            let (small, grown) = spent granted in
            rw granted (omega (arith, small, grown, take-Capped limit day calls s'))
        | inr denied ↦ rw denied (omega (arith, mono, take-Capped limit day calls s'))
      ]
