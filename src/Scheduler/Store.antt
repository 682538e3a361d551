-- ===== src/Scheduler/Store.antt =====
-- repositories/scheduled_task_repository.py over a collection keyed by the task's name. The clock
-- (`now`) and the fresh claim token are arguments.
use spoo.Base.{
  ℕ, ◌+◌, String, Bool, true, false, ◌&&◌, not, Option, none, some, List, any, is_none, leb, str_eq,
  ◌==◌, if◌then◌else◌,
}
use spoo.Base.Collection.{ascending, Collection, find_and_update, find_first_and_update}
use spoo.Base.Text.{opt_eq}
use spoo.Scheduler.{ScheduledTaskDoc, TaskRunResult}

-- `{"$lte": now}`: by BSON type bracketing a null never matches.
abbrev pub is_due : ℕ → Option ℕ → Bool
is_due now none = false
is_due now (some t) = leb t now

-- the `$or` over `claimed_until`
abbrev pub is_free : ℕ → Option ℕ → Bool
is_free now none = true
is_free now (some t) = leb t now

-- The filter of `claim_due`.
abbrev pub claimable : List String → ℕ → String → ScheduledTaskDoc → Bool
claimable names now k d =
    any (λ n. str_eq n k) names
    && (d.enabled && (is_due now d.next_run_at && is_free now d.claimed_until))

-- The sort key: a document that matches has a time.
abbrev pub due_time : ScheduledTaskDoc → ℕ
due_time d = elim d.next_run_at [ none ↦ 0 | some t ↦ t ]

-- The `$set` of `claim_due`.
abbrev pub claimed : ℕ → ℕ → String → ScheduledTaskDoc → ScheduledTaskDoc
claimed lease now token d = record d {
  claimed_until = some (now + lease);
  claim_token = some token;
}

-- The pipeline `$set` of `finish_run`.
abbrev pub finished :
    TaskRunResult → Option String → Option ℕ → ℕ → ScheduledTaskDoc → ScheduledTaskDoc
finished result schedule next now d = record d {
  last_run = some result;
  next_run_at = if opt_eq d.schedule schedule then next else d.next_run_at;
  claimed_until = none;
  claim_token = none;
  updated_at = some now;
}

abbrev pub reconciled : Option String → Option ℕ → ℕ → ScheduledTaskDoc → ScheduledTaskDoc
reconciled schedule next now d = record d {
  schedule = schedule;
  next_run_at = next;
  updated_at = some now;
}

abbrev pub new_doc : Option String → Bool → Option ℕ → ℕ → ScheduledTaskDoc
new_doc schedule enabled next now = record {
  schedule = schedule;
  next_run_at = next;
  claimed_until = none;
  claim_token = none;
  enabled = enabled;
  last_run = none;
  updated_at = some now;
}

module _ (db : Collection String ScheduledTaskDoc) where
  open db use {State, get, put, pick}

  -- An upsert with `$setOnInsert` alone; a lost race finds the document there.
  unfoldable pub ensure_task : String → Option String → Bool → Option ℕ → ℕ → State → State
  ensure_task name schedule enabled next now s = elim (get s name) [
    | none ↦ put name (new_doc schedule enabled next now) s
    | some d ↦ s
  ]

  unfoldable pub reconcile_schedule : String → Option String → Option ℕ → ℕ → State → Bool × State
  reconcile_schedule name schedule next now s =
      let (before, s') =
        find_and_update db name (λ d. not (opt_eq d.schedule schedule))
          (reconciled schedule next now) s in
      (not (is_none before), s')

  unfoldable pub claim_due :
      List String → ℕ → ℕ → String → State → Option (String × ScheduledTaskDoc) × State
  claim_due names lease now token s =
      find_first_and_update db ascending (claimable names now) due_time (claimed lease now token) s

  -- A match clears the token, so that it counts as modified.
  unfoldable pub finish_run :
      String → Option String → TaskRunResult → Option String → Option ℕ → ℕ → State → Bool × State
  finish_run name token result schedule next now s =
      let (before, s') =
        find_and_update db name (λ d. opt_eq d.claim_token token)
          (finished result schedule next now) s in
      (not (is_none before), s')

  -- `modified_count`: whether the stored time differed.
  unfoldable pub invoke_now : String → ℕ → State → Bool × State
  invoke_now name now s =
      let (before, s') =
        find_and_update db name (λ d. true) (λ d. record d { next_run_at = some now }) s in
      (
        elim before [
          | none ↦ false
          | some d ↦ elim d.next_run_at [ none ↦ true | some t ↦ not (t == now) ]
        ],
        s',
      )
