-- ===== src/Scheduler/Registry.antt =====
-- services/scheduler/registry.py: the registry, and the next-run computation. The cron library is
-- not part of the program: `Cron` holds what it answers and what it documents.
use spoo.Base.{
  ℕ, ◌<◌, String, ◌≡◌, Bool, not, Option, none, some, List, [], ◌∷◌, ◌++◌, Result, ok, err, any,
  str_eq, ◌==◌, if◌then◌else◌,
}
use spoo.Base.Text.{word_count}
use spoo.Scheduler.{ScheduledTask}

-- `next(CronSim(schedule, now))`: CronSimError, StopIteration, or a time.
pub data Occurrence : Type 0 where
  invalid never : Occurrence
  occurs : ℕ → Occurrence

pub record Cron : Type 0 where
  pub next : String → ℕ → Occurrence
  pub next_later : (schedule : String) (now t : ℕ) → next schedule now ≡ occurs t → now < t

pub data RegisterError : Type 0 where
  already_registered not_five_fields invalid_cron no_occurrence : RegisterError

-- The exceptions that the cron library lets out of `compute_next_run`.
pub data CronError : Type 0 where
  cron_sim_error stop_iteration : CronError

-- The dict `_tasks`, in the order of insertion.
abbrev pub TaskRegistry : Type 0
TaskRegistry = List ScheduledTask

unfoldable pub get : TaskRegistry → String → Option ScheduledTask
get [] name = none
get (t ∷ ts) name = if str_eq t.name name then some t else get ts name

-- `name in self._tasks`
unfoldable pub contains : TaskRegistry → String → Bool
contains tasks name = any (λ t. str_eq t.name name) tasks

module _ (cron : Cron) where
  unfoldable pub compute_next_run : Option String → ℕ → Result CronError (Option ℕ)
  compute_next_run none now = ok none
  compute_next_run (some schedule) now = elim (cron.next schedule now) [
    | invalid ↦ err cron_sim_error
    | never ↦ err stop_iteration
    | occurs t ↦ ok (some t)
  ]

  -- The checks of `register` on a schedule; `none` where all pass.
  schedule_error : Option String → ℕ → Option RegisterError
  schedule_error none now = none
  schedule_error (some schedule) now =
      if not (word_count schedule == 5)
      then some not_five_fields
      else elim (cron.next schedule now) [
        | invalid ↦ some invalid_cron
        | never ↦ some no_occurrence
        | occurs t ↦ none
      ]

  unfoldable pub register : TaskRegistry → ScheduledTask → ℕ → Result RegisterError TaskRegistry
  unfolding contains schedule_error
  register tasks task now =
      if contains tasks task.name
      then err already_registered
      else elim (schedule_error task.schedule now) [
        | none ↦ ok (tasks ++ task ∷ [])
        | some e ↦ err e
      ]
