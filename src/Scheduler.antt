-- ===== src/Scheduler.antt =====
-- The task scheduler (services/scheduler, repositories/scheduled_task_repository.py and
-- schemas/models/scheduled_task.py): the documents and the registrations. `Registry` has the
-- in-process registry, `Store` the repository, `Runner` the registry sync and one run.
pub mod Registry
pub mod Store
pub mod Runner
pub mod Lease
pub mod Fence
pub mod Sync
pub mod Names
mod Tests
use spoo.Base.{ℕ, Bool, Option, String}

pub data RunStatus : Type 0 where
  run_ok run_error : RunStatus

-- Times are seconds since the epoch.
pub record TaskRunResult : Type 0 where
  pub at : ℕ
  pub status : RunStatus
  pub duration_ms : ℕ
  pub detail : Option String

-- The document; its `_id`, the task's name, is its key in the collection.
pub record ScheduledTaskDoc : Type 0 where
  pub schedule : Option String
  pub next_run_at : Option ℕ
  pub claimed_until : Option ℕ
  pub claim_token : Option String
  pub enabled : Bool
  pub last_run : Option TaskRunResult
  pub updated_at : Option ℕ

-- A registration. What its handler returns is an argument of the run.
pub record ScheduledTask : Type 0 where
  pub name : String
  pub schedule : Option String
  pub enabled_default : Bool
