-- ===== src/Safety/Admission.antt =====
-- services/safety/admission.py: which triggers enter the investigation of a link.
use spoo.Base.{
  ℕ, String, Bool, true, false, ◌&&◌, ◌||◌, not, Option, none, some, str_eq, if◌then◌else◌, ltb,
}
use spoo.Safety.Counters.{Counters, count_use}

pub data Reason : Type 0 where
  always within_budget budget_exhausted sweep_excluded budget_unavailable unknown_trigger : Reason

-- The event's trigger, whether the screening escalates, and the day.
pub record Request : Type 0 where
  pub trigger : String
  pub escalation : Bool
  pub day : ℕ

abbrev pub is_budgeted : String → Bool
is_budgeted t = str_eq t "pattern" || (str_eq t "hot" || str_eq t "redirect")

-- `AdmissionDecision.admitted`
abbrev pub is_admitted : Reason → Bool
is_admitted always = true
is_admitted within_budget = true
is_admitted budget_exhausted = false
is_admitted sweep_excluded = false
is_admitted budget_unavailable = false
is_admitted unknown_trigger = false

-- The decision on a count, or on none.
abbrev pub verdict : ℕ → Option ℕ → Reason
verdict budget none = budget_unavailable
verdict budget (some n) = if ltb budget n then budget_exhausted else within_budget

module _ (redis : Counters) (daily_budget report_budget : ℕ) (admit_sweeps : Bool) where
  unfoldable pub within : String → ℕ → ℕ → redis.State → Reason × redis.State
  within pool budget day s =
      let (used, s') = count_use redis (pool, day) s in (verdict budget used, s')

  unfoldable pub decide : Request → redis.State → Reason × redis.State
  unfolding within
  decide r s =
      if str_eq r.trigger "edit"
      then (always, s)
      else if str_eq r.trigger "report"
      then within "report" report_budget r.day s
      else if str_eq r.trigger "sweep" && (not admit_sweeps && not r.escalation)
      then (sweep_excluded, s)
      else if is_budgeted r.trigger || str_eq r.trigger "sweep"
      then within "shared" daily_budget r.day s
      else (unknown_trigger, s)
