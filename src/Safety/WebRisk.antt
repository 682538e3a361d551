-- ===== src/Safety/WebRisk.antt =====
-- infrastructure/cache/web_risk_budget.py: the URL expander's daily share of lookups.
use spoo.Base.{ℕ, Bool, true, false, Option, none, some, leb}
use spoo.Safety.Counters.{Counters, count_use}

-- `used <= limit`; no count is no grant.
abbrev pub fits : ℕ → Option ℕ → Bool
fits limit none = false
fits limit (some n) = leb n limit

module _ (redis : Counters) (limit : ℕ) where
  -- The client may be missing.
  unfoldable pub take : Bool → ℕ → redis.State → Bool × redis.State
  take false day s = (false, s)
  take true day s =
      let (used, s') = count_use redis ("web_risk_budget", day) s in (fits limit used, s')
