-- ===== src/Safety.antt =====
-- Daily budgets (services/safety/admission.py, infrastructure/cache/web_risk_budget.py): counters in
-- Redis. `Admission` has the admission to the investigation of links, `WebRisk` the cap of the URL
-- expander, `Budget` the proofs.
pub mod Counters
pub mod Admission
pub mod WebRisk
pub mod Budget
pub mod Admitted
mod Tests
