-- ===== src/Scheduler/Runner.antt =====
-- services/scheduler/runner.py: the registry sync, one run, and one round of the claim loop. Logging
-- is left out, and with it the list of documents that no registration names.
use spoo.Base.{ℕ, String, Bool, true, false, Option, none, some, List, [], ◌∷◌, map, ok, err}
use spoo.Base.Collection.{Collection}
use spoo.Base.Text.{take}
use spoo.Scheduler.{ScheduledTask, ScheduledTaskDoc, TaskRunResult, run_ok, run_error}
use spoo.Scheduler.Registry
use spoo.Scheduler.Registry.{Cron, TaskRegistry, compute_next_run}
use spoo.Scheduler.Store.{ensure_task, reconcile_schedule, claim_due, finish_run}

abbrev pub detail_max : ℕ
detail_max = 500

-- What `task.fn()` did: it returned, with `str(result)` where the result is truthy, or it raised,
-- with `f"{type(exc).__name__}: {exc}"`.
pub data Outcome : Type 0 where
  returned : Option String → Outcome
  raised : String → Outcome

abbrev pub run_result : Outcome → ℕ → ℕ → TaskRunResult
run_result (returned none) at ms = record {
  at = at;
  status = run_ok;
  duration_ms = ms;
  detail = none;
}
run_result (returned (some d)) at ms = record {
  at = at;
  status = run_ok;
  duration_ms = ms;
  detail = some (take detail_max d);
}
run_result (raised d) at ms = record {
  at = at;
  status = run_error;
  duration_ms = ms;
  detail = some (take detail_max d);
}

module _ (cron : Cron) (db : Collection String ScheduledTaskDoc) where
  open db use {State}

  -- The loop of `sync_registry`. The flag says whether it came to its end: an exception of the cron
  -- library leaves what was written before.
  unfoldable pub sync_tasks : List ScheduledTask → ℕ → State → Bool × State
  sync_tasks [] now s = (true, s)
  sync_tasks (t ∷ ts) now s = elim (compute_next_run cron t.schedule now) [
    | err e ↦ (false, s)
    | ok next ↦
        sync_tasks ts now
          (reconcile_schedule db t.name t.schedule next now
            (ensure_task db t.name t.schedule t.enabled_default next now s)).1
  ]

  -- `_execute`: the outcome, the duration and the time at which the handler was done are arguments;
  -- the flag is the result of `finish_run`, false where it is not reached.
  unfoldable pub execute :
      TaskRegistry → String × ScheduledTaskDoc → Outcome → ℕ → ℕ → State → Bool × State
  execute registry (name, row) outcome ms finished_at s = elim (Registry.get registry name) [
    | none ↦ (false, s)
    | some task ↦ elim (compute_next_run cron task.schedule finished_at) [
      | err e ↦ (false, s)
      | ok next ↦
          finish_run db name row.claim_token (run_result outcome finished_at ms) task.schedule next
            finished_at s
    ]
  ]

  -- One round of the loop of `run`: `none` where nothing was due.
  unfoldable pub tick :
      TaskRegistry → ℕ → ℕ → String → Outcome → ℕ → ℕ → State → Option Bool × State
  tick registry lease now token outcome ms finished_at s =
      let (row, s') = claim_due db (map (λ t. t.name) registry) lease now token s in
      elim row [
        | none ↦ (none, s')
        | some r ↦
            let (done, s'') = execute registry r outcome ms finished_at s' in (some done, s'')
      ]
