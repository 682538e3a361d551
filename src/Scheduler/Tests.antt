-- ===== src/Scheduler/Tests.antt =====
-- Tests of the scheduler, and its theorems at concrete inputs.
use spoo.Base.{
  arith, true, false, String, ℕ, ◌+◌, ◌<◌, ◌≤◌, ◌≡◌, ◌≢◌, refl, none, some, List, [], ◌∷◌, ok, err,
  eq_iff,
}
use spoo.Base.Collection.{Collection, find_first_and_update, find_and_update, Holds}
use spoo.Base.Memory.{by_name}
use spoo.Scheduler.{ScheduledTask, ScheduledTaskDoc, TaskRunResult, run_ok}
use spoo.Scheduler.Registry
use spoo.Scheduler.Registry.{Cron, occurs, register, already_registered, not_five_fields}
use spoo.Scheduler.Store.{claim_due, finish_run, reconcile_schedule, invoke_now, due_time}
use spoo.Scheduler.Lease.{Op, finish, invoke, run_op, run_ops, claim_due_excludes, claim_due_finds}
use spoo.Scheduler.Fence.{
  IsReleased, IsAfter, finish_run-superseded, finish_run-reconciled, execute-IsAfter,
}
use spoo.Scheduler.Sync.{sync_tasks-SameRuntime, sync_tasks-HasSchedule}
use spoo.Scheduler.Runner.{returned, raised, sync_tasks, execute, tick}

abbrev db : Collection String ScheduledTaskDoc
db = by_name {D = ScheduledTaskDoc}

next_later_lem : (schedule : String) (now t : ℕ) → occurs (now + 60) ≡ occurs t → now < t
next_later_lem s now t h = ground arith

-- A cron whose every schedule occurs a minute later.
abbrev each_minute : Cron
each_minute = record { next = λ s now. occurs (now + 60); next_later = next_later_lem }

abbrev feeds : ScheduledTask
feeds = record { name = "feeds"; schedule = some "*/5 * * * *"; enabled_default = true }

abbrev sweep : ScheduledTask
sweep = record { name = "sweep"; schedule = none; enabled_default = false }

abbrev due_doc : ScheduledTaskDoc
due_doc = record {
  schedule = some "*/5 * * * *";
  next_run_at = some 100;
  claimed_until = some 90;
  claim_token = some "t0";
  enabled = true;
  last_run = none;
  updated_at = some 1;
}

abbrev held_doc : ScheduledTaskDoc
held_doc = record due_doc { claimed_until = some 710; claim_token = some "t1" }

abbrev stored : db.State
stored = (("feeds", due_doc) ∷ [], (refl, tt))

abbrev outcome_at : TaskRunResult
outcome_at = record { at = 150; status = run_ok; duration_ms = 3; detail = none }

register_tests :
    (register each_minute (feeds ∷ []) feeds 0 ≡ err already_registered)
    × (register each_minute [] (record feeds { schedule = some "* * * *" }) 0 ≡ err not_five_fields)
    × (register each_minute (feeds ∷ []) sweep 0 ≡ ok (feeds ∷ sweep ∷ []))
unfolding register
register_tests = (refl, refl, refl)

tick_runs :
    (tick each_minute db (feeds ∷ []) 600 110 "t1" (returned none) 3 150 stored).0 ≡ some true
unfolding tick execute claim_due finish_run Registry.get Registry.compute_next_run
    find_first_and_update find_and_update
tick_runs = refl

claimed_row : (claim_due db ("feeds" ∷ []) 600 110 "t1" stored).0 ≡ some ("feeds", held_doc)
unfolding claim_due find_first_and_update
claimed_row = refl

abbrev sweep_doc : ScheduledTaskDoc
sweep_doc = record due_doc {
  schedule = none;
  next_run_at = some 105;
  claimed_until = none;
  claim_token = none;
}

abbrev both : db.State
both = (("feeds", due_doc) ∷ ("sweep", sweep_doc) ∷ [], (refl, (refl, tt)))

abbrev names : List String
names = "feeds" ∷ "sweep" ∷ []

abbrev others : List Op
others = invoke "feeds" 120 ∷ finish "feeds" (some "t0") outcome_at none none 120 ∷ []

claim_due_excludes_example : ◌≢◌ {A = String} "sweep" "feeds"
unfolding claim_due find_first_and_update find_and_update run_ops run_op invoke_now finish_run
claim_due_excludes_example =
    claim_due_excludes db names names 600 600 110 130 "t1" "t2" both "feeds" "sweep" held_doc
      (record sweep_doc { claimed_until = some 730; claim_token = some "t2" }) others refl
      (tt, (refl, tt)) (omega arith) refl

claim_due_finds_example :
    (row : String × ScheduledTaskDoc) × ((claim_due db names 600 110 "t1" stored).0 ≡ some row)
    × (due_time row.1 ≤ 100)
claim_due_finds_example =
    claim_due_finds db names 600 110 "t1" stored "feeds" due_doc 100 90 refl refl refl refl
      (omega arith) refl (omega arith)

token_differs : ◌≢◌ {A = String} "t1" "t0"
token_differs = ground (arith, eq_iff "t1" "t0")

claimed_both : (claim_due db names 600 110 "t1" stored).0 ≡ some ("feeds", held_doc)
unfolding claim_due find_first_and_update
claimed_both = refl

abbrev after_claim : db.State
after_claim = (claim_due db names 600 110 "t1" stored).1

finish_run-superseded_example :
    finish_run db "feeds" (some "t0") outcome_at (some "*/5 * * * *") (some 400) 150 after_claim
    ≡ (false, after_claim)
finish_run-superseded_example =
    finish_run-superseded db names 600 110 150 "t1" "t0" "feeds" stored held_doc outcome_at
      (some "*/5 * * * *") (some 400) claimed_both token_differs

schedule_differs : ◌≢◌ {A = String} "*/5 * * * *" "0 * * * *"
schedule_differs = ground (arith, eq_iff "*/5 * * * *" "0 * * * *")

feeds_differs : ◌≢◌ {A = String} "feeds" "sweep"
feeds_differs = ground (arith, eq_iff "feeds" "sweep")

abbrev after_sync : db.State
after_sync = (reconcile_schedule db "feeds" (some "0 * * * *") (some 3600) 120 after_claim).1

finish_run-reconciled_example :
    ((finish_run db "feeds" (some "t1") outcome_at (some "*/5 * * * *") (some 400) 150 after_sync).0
      ≡ true)
    × Holds db
        (λ e.
          (e.schedule ≡ some "0 * * * *")
          × (e.next_run_at ≡ some 3600)
          × (e.last_run ≡ some outcome_at)
          × IsReleased e)
        (finish_run db "feeds"
          (some "t1")
          outcome_at
          (some "*/5 * * * *")
          (some 400)
          150
          after_sync).1
        "feeds"
finish_run-reconciled_example =
    finish_run-reconciled db names 600 110 120 150 "t1" "feeds" "*/5 * * * *" "0 * * * *" stored
      held_doc outcome_at (some 400) (some 3600) claimed_both refl schedule_differs

execute-IsAfter_example :
    Holds db
      (λ e. IsReleased e × IsAfter (some "*/5 * * * *") 150 e.next_run_at × (e.enabled ≡ true))
      (execute each_minute db
        (feeds ∷ [])
        ("feeds", due_doc)
        (raised "ValueError: x")
        3
        150
        stored).1
      "feeds"
unfolding execute finish_run find_and_update Registry.get Registry.compute_next_run
execute-IsAfter_example =
    execute-IsAfter db each_minute (feeds ∷ []) "feeds" due_doc due_doc feeds
      (raised "ValueError: x") 3 150 stored refl refl refl refl

sync_tasks-SameRuntime_example :
    Holds db
      (λ e.
        (e.enabled ≡ true)
        × (e.last_run ≡ none)
        × (e.claimed_until ≡ some 90)
        × (e.claim_token ≡ some "t0"))
      (sync_tasks each_minute db (record feeds { schedule = some "0 * * * *" } ∷ []) 200 stored).1
      "feeds"
sync_tasks-SameRuntime_example =
    sync_tasks-SameRuntime each_minute db (record feeds { schedule = some "0 * * * *" } ∷ []) 200
      stored "feeds" due_doc refl

sync_tasks-HasSchedule_example :
    Holds db
      (λ d. d.schedule ≡ some "*/5 * * * *")
      (sync_tasks each_minute db (feeds ∷ sweep ∷ []) 200 stored).1
      "feeds"
    × (Holds db
          (λ d. d.schedule ≡ none)
          (sync_tasks each_minute db (feeds ∷ sweep ∷ []) 200 stored).1
          "sweep"
        × Unit {0})
unfolding sync_tasks Registry.compute_next_run
sync_tasks-HasSchedule_example =
    sync_tasks-HasSchedule each_minute db (feeds ∷ sweep ∷ []) 200 stored
      ((feeds_differs, tt), (tt, tt)) refl
