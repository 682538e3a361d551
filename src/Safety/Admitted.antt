-- ===== src/Safety/Admitted.antt =====
-- The two daily budgets of services/safety/admission.py over any events.
use spoo.Base.{
  ℕ, ◌+◌, ◌-◌, ◌≤◌, String, ◌≡◌, ◌∙◌, refl, ap, subst, Bool, true, false, ◌&&◌, ◌||◌, not, Option,
  none, some, List, [], ◌∷◌, inl, inr, arith, ◌==◌, str_eq, eq_iff, if◌then◌else◌, if_keeps,
  Bool-cases, and-eq-true,
}
use spoo.Safety.Counters.{Counters, Key, count_use, count_use_mono}
use spoo.Safety.Admission.{
  Reason, always, within_budget, budget_exhausted, sweep_excluded, budget_unavailable,
  unknown_trigger, verdict, Request, is_budgeted, within, decide,
}
use spoo.Safety.WebRisk.{fits}
use spoo.Safety.Budget.{count_use-Spends}

-- The decision spends a budget.
abbrev pub is_within : Reason → Bool
is_within always = false
is_within within_budget = true
is_within budget_exhausted = false
is_within sweep_excluded = false
is_within budget_unavailable = false
is_within unknown_trigger = false

-- Reports have a budget of their own.
abbrev pub pool_of : Request → String
pool_of r = if str_eq r.trigger "report" then "report" else "shared"

verdict-fits :
    (budget : ℕ) (o : Option ℕ) → is_within (verdict budget o) ≡ true → fits budget o ≡ true
verdict-fits budget none h = h
verdict-fits budget (some n) h = ground (arith, h)

module _ (redis : Counters) (daily_budget report_budget : ℕ) (admit_sweeps : Bool) where
  open redis use {State, value}

  abbrev pub budget_of : String → ℕ
  budget_of pool = if str_eq pool "report" then report_budget else daily_budget

  abbrev Decision : Type 0
  Decision = Reason × State

  -- What a decision for a pool and a day does to a counter.
  abbrev Step : String → ℕ → String → ℕ → State → Decision → Type 0
  Step pool day own today s (reason, s') =
      (value s (pool, day) ≤ value s' (pool, day))
      × (is_within reason ≡ true
          → own ≡ pool
          → today ≡ day
          → (value s (pool, day) + 1 ≤ budget_of pool)
            × (value s (pool, day) + 1 ≤ value s' (pool, day)))

  within-Step :
      (pool : String) (day : ℕ) (own : String) (today : ℕ) (s : State)
      → Step pool day own today s
          (within redis daily_budget report_budget admit_sweeps own (budget_of own) today s)
  unfolding within
  within-Step pool day own today s = (
    count_use_mono redis (own, today) (pool, day) s,
    λ granted same_pool same_day.
        subst
          (λ (k : Key).
            (value s k + 1 ≤ budget_of k.0)
            × (value s k + 1 ≤ value (count_use redis (own, today) s).1 k))
          (ap (λ p. (p, today)) same_pool ∙ ap (λ d. (pool, d)) same_day)
          ((count_use-Spends redis (budget_of own) (own, today) s).1
            (verdict-fits (budget_of own) (count_use redis (own, today) s).0 granted)),
  )

  free-Step :
      (pool : String) (day : ℕ) (own : String) (today : ℕ) (s : State) (reason : Reason)
      → is_within reason ≡ false
      → Step pool day own today s (reason, s)
  free-Step pool day own today s reason free =
      (omega arith, λ granted same_pool same_day. absurd (ground (arith, granted, free)))

  decide-Step :
      (pool : String) (day : ℕ) (r : Request) (s : State)
      → Step pool day (pool_of r) r.day s (decide redis daily_budget report_budget admit_sweeps r s)
  unfolding decide
  decide-Step pool day r s =
      let P = Step pool day (pool_of r) r.day s in
      if_keeps P (str_eq r.trigger "edit") _ _
        (λ edit. free-Step pool day (pool_of r) r.day s always refl)
        (λ other.
          if_keeps P (str_eq r.trigger "report") _ _
            (λ report. rw report (within-Step pool day "report" r.day s))
            (λ shared.
              if_keeps P (str_eq r.trigger "sweep" && (not admit_sweeps && not r.escalation)) _ _
                (λ excluded. free-Step pool day (pool_of r) r.day s sweep_excluded refl)
                (λ competing.
                  if_keeps P (is_budgeted r.trigger || str_eq r.trigger "sweep") _ _
                    (λ known. rw shared (within-Step pool day "shared" r.day s))
                    (λ unknown. free-Step pool day (pool_of r) r.day s unknown_trigger refl))))

  -- The events of a pool and a day that are admitted within its budget.
  unfoldable pub admitted : String → ℕ → List Request → State → ℕ
  admitted pool day [] s = 0
  admitted pool day (r ∷ rs) s =
      let (reason, s') = decide redis daily_budget report_budget admit_sweeps r s in
      (if is_within reason && (str_eq (pool_of r) pool && (r.day == day)) then 1 else 0)
      + admitted pool day rs s'

  -- The budgets of the investigation. Over any events on any days, whatever calls of Redis fail, no
  -- more events of a pool are admitted within its budget on a day than the budget less what was
  -- counted before; reports are a pool of their own, and all other events share one.
  pub admitted-Capped :
      (pool : String) (day : ℕ) (rs : List Request) (s : State)
      → admitted pool day rs s ≤ budget_of pool - value s (pool, day)
  unfolding admitted
  admitted-Capped pool day [] s = omega arith
  admitted-Capped pool day (r ∷ rs) s =
      let outcome = decide redis daily_budget report_budget admit_sweeps r s in
      let (mono, spent) = decide-Step pool day r s in
      let later = admitted-Capped pool day rs (outcome.1) in
      elim (Bool-cases (is_within (outcome.0) && (str_eq (pool_of r) pool && (r.day == day)))) [
        | inr denied ↦ rw denied (omega (arith, mono, later))
        | inl granted ↦
            let (within_, here) =
              and-eq-true (is_within (outcome.0)) (str_eq (pool_of r) pool && (r.day == day))
                granted in
            let (own, today) = and-eq-true (str_eq (pool_of r) pool) (r.day == day) here in
            let (small, grown) =
              spent within_ ((eq_iff (pool_of r) pool).0 own) (ground (arith, today)) in
            rw granted (omega (arith, small, grown, later))
      ]
