-- ===== src/Scheduler/Fence.antt =====
-- The claim token as a fence: which finish takes effect, and what it writes.
use spoo.Base.{Bool-cases, Result-cases, subst}
use spoo.Base.{
  ℕ, ◌<◌, String, ◌≡◌, ◌≢◌, ◌∙◌, ap, refl, sym, Bool, true, false, not, Option, none, some, List,
  inl, inr, arith, ok, is_none, if◌then◌else◌,
}
use spoo.Base.Collection.{
  ascending, Collection, Holds, find_and_update, find_and_update-match, find_first_and_update,
  find_first_and_update-some,
}
use spoo.Base.Text.{opt_eq, opt_eq_refl, opt_eq_ne}
use spoo.Scheduler.{ScheduledTask, ScheduledTaskDoc, TaskRunResult}
use spoo.Scheduler.Registry
use spoo.Scheduler.Registry.{Cron, invalid, never, occurs, TaskRegistry, compute_next_run}
use spoo.Scheduler.Store.{
  claim_due, finish_run, reconcile_schedule, claimable, due_time, claimed, finished, reconciled,
}
use spoo.Scheduler.Lease.{claim_due-HasLease}
use spoo.Scheduler.Runner.{run_result, Outcome, execute}

-- The lease is given up.
abbrev pub IsReleased : ScheduledTaskDoc → Type 0
IsReleased d = (d.claimed_until ≡ none) × (d.claim_token ≡ none)

-- The next run of a task: strictly after the given time, where there is a schedule.
abbrev pub IsAfter : Option String → ℕ → Option ℕ → Type 0
IsAfter none now next = next ≡ none
IsAfter (some schedule) now next = (t : ℕ) × (next ≡ some t) × (now < t)

compute_next_run-IsAfter :
    (cron : Cron) (schedule : Option String) (now : ℕ) (next : Option ℕ)
    → compute_next_run cron schedule now ≡ ok next
    → IsAfter schedule now next
unfolding compute_next_run
compute_next_run-IsAfter cron none now none h = refl
compute_next_run-IsAfter cron none now (some t) h = absurd (ground arith)
compute_next_run-IsAfter cron (some schedule) now none h = absurd (ground arith)
compute_next_run-IsAfter cron (some schedule) now (some t) h =
    (t, refl, cron.next_later schedule now t (ground arith))

module _ (db : Collection String ScheduledTaskDoc) where
  open db use {State, get, get-put_self}

  finish_run-other :
      (name : String) (token : Option String) (result : TaskRunResult) (schedule : Option String)
      (next : Option ℕ) (now : ℕ) (s : State) (d : ScheduledTaskDoc)
      → get s name ≡ some d
      → opt_eq d.claim_token token ≡ false
      → finish_run db name token result schedule next now s ≡ (false, s)
  unfolding finish_run find_and_update
  finish_run-other name token result schedule next now s d stored other =
      ground (arith, stored, other)

  -- A superseded run writes nothing. Once a task has been claimed anew under a token, a finish of
  -- that task under any other token returns false and changes nothing.
  pub finish_run-superseded :
      (names : List String) (lease now now' : ℕ) (token token' name : String) (s : State)
      (d : ScheduledTaskDoc) (result : TaskRunResult) (schedule : Option String) (next : Option ℕ)
      → (claim_due db names lease now token s).0 ≡ some (name, d)
      → token ≢ token'
      → finish_run db name
          (some token')
          result
          schedule
          next
          now'
          (claim_due db names lease now token s).1
        ≡ (false, (claim_due db names lease now token s).1)
  finish_run-superseded names lease now now' token token' name s d result schedule next h ne =
      let (e, stored, held) = claim_due-HasLease db names lease now token s name d h in
      finish_run-other name (some token') result schedule next now'
        (claim_due db names lease now token s).1 e stored
        (ap (λ x. opt_eq x (some token')) held.1 ∙ opt_eq_ne token token' ne)

  finish_run-matching :
      (name : String) (token : Option String) (result : TaskRunResult) (schedule : Option String)
      (next : Option ℕ) (now : ℕ) (s : State) (d : ScheduledTaskDoc)
      → get s name ≡ some d
      → opt_eq d.claim_token token ≡ true
      → ((finish_run db name token result schedule next now s).0 ≡ true)
        × (get (finish_run db name token result schedule next now s).1 name
            ≡ some (finished result schedule next now d))
  unfolding finish_run
  finish_run-matching name token result schedule next now s d stored same =
      let e =
        find_and_update-match db name (λ d. opt_eq d.claim_token token)
          (finished result schedule next now) s d stored same in
      (
        ap (λ r. not (is_none (r.0))) e,
        ap (λ r. get (r.1) name) e ∙ get-put_self name (finished result schedule next now d) s,
      )

  -- A registry sync during a run wins. A task is claimed, its stored schedule is then reconciled to
  -- another one, and the run finishes under its own token with the schedule it started from: the
  -- finish takes effect, records the result and gives up the lease, and the stored schedule and the
  -- next run stay those of the reconciliation.
  pub finish_run-reconciled :
      (names : List String) (lease now now' now'' : ℕ) (token name old new : String) (s : State)
      (d : ScheduledTaskDoc) (result : TaskRunResult) (next next' : Option ℕ)
      → (claim_due db names lease now token s).0 ≡ some (name, d)
      → d.schedule ≡ some old
      → old ≢ new
      → let s' =
          (reconcile_schedule db name
            (some new)
            next'
            now'
            (claim_due db names lease now token s).1).1 in
        ((finish_run db name d.claim_token result (some old) next now'' s').0 ≡ true)
        × Holds db
            (λ e.
              (e.schedule ≡ some new)
              × (e.next_run_at ≡ next')
              × (e.last_run ≡ some result)
              × IsReleased e)
            (finish_run db name d.claim_token result (some old) next now'' s').1
            name
  unfolding claim_due reconcile_schedule
  finish_run-reconciled names lease now now' now'' token name old new s d result next next' h
        schedule ne =
      let c =
        find_first_and_update-some db ascending (claimable names now) due_time
          (claimed lease now token) s name d h in
      let s1 =
        (find_first_and_update db ascending (claimable names now) due_time (claimed lease now token)
          s).1 in
      let q = λ (e : ScheduledTaskDoc). not (opt_eq e.schedule (some new)) in
      let f = reconciled (some new) next' now' in
      let here : get s1 name ≡ some d =
        ap (λ x. get x name) c.contents ∙ get-put_self name _ s ∙ ap some (sym c.result) in
      let moved =
        find_and_update-match db name q f s1 d here
          (ap (λ x. not (opt_eq x (some new))) schedule ∙ ap not (opt_eq_ne old new ne)) in
      let there : get (find_and_update db name q f s1).1 name ≡ some (f d) =
        ap (λ r. get (r.1) name) moved ∙ get-put_self name (f d) s1 in
      let (done, stored) =
        finish_run-matching name d.claim_token result (some old) next now'' _ (f d) there
          (opt_eq_refl d.claim_token) in
      (
        done,
        (
          _,
          stored,
          (
            refl,
            ap (λ b. if b then next else next') (opt_eq_ne new old (λ e. ne (sym e))),
            refl,
            (refl, refl),
          ),
        ),
      )

  execute-ok :
      (cron : Cron) (registry : TaskRegistry) (name : String) (row : ScheduledTaskDoc)
      (task : ScheduledTask) (outcome : Outcome) (ms finished_at : ℕ) (s : State) (next : Option ℕ)
      → Registry.get registry name ≡ some task
      → compute_next_run cron task.schedule finished_at ≡ ok next
      → execute cron db registry (name, row) outcome ms finished_at s
        ≡ finish_run db name row.claim_token
            (run_result outcome finished_at ms)
            task.schedule
            next
            finished_at
            s
  unfolding execute
  execute-ok cron registry name row task outcome ms finished_at s next known computed =
      rw (known, execute) (rw computed)

  -- A run whose finish takes effect, of a task whose stored schedule is at that time the one that is
  -- registered, leaves the task free, its pause switch as it then was, and its next run strictly after
  -- the finish, or none for a task without a schedule, however late the run was and however long it
  -- took: missed slots are not replayed.
  pub execute-IsAfter :
      (cron : Cron) (registry : TaskRegistry) (name : String) (row d : ScheduledTaskDoc)
      (task : ScheduledTask) (outcome : Outcome) (ms finished_at : ℕ) (s : State)
      → Registry.get registry name ≡ some task
      → get s name ≡ some d
      → d.schedule ≡ task.schedule
      → (execute cron db registry (name, row) outcome ms finished_at s).0 ≡ true
      → Holds db
          (λ e.
            IsReleased e
            × IsAfter task.schedule finished_at e.next_run_at
            × (e.enabled ≡ d.enabled))
          (execute cron db registry (name, row) outcome ms finished_at s).1
          name
  unfolding execute
  execute-IsAfter cron registry name row d task outcome ms finished_at s known stored same h =
      elim (Result-cases (compute_next_run cron task.schedule finished_at)) [
        | inl (e, failed) ↦ absurd (ground (arith, known, failed))
        | inr (next, computed) ↦
            let run =
              execute-ok cron registry name row task outcome ms finished_at s next known computed in
            let r = run_result outcome finished_at ms in
            elim (Bool-cases (opt_eq d.claim_token row.claim_token)) [
              | inr other ↦ absurd (
                  ground (
                    arith,
                    h,
                    ap (λ x. x.0) run,
                    ap (λ x. x.0)
                        (finish_run-other name row.claim_token r task.schedule next finished_at s d
                          stored other),
                  ))
              | inl own ↦
                  let (done, after) =
                    finish_run-matching name row.claim_token r task.schedule next finished_at s d
                      stored own in
                  let taken : opt_eq d.schedule task.schedule ≡ true =
                    rw same (opt_eq_refl task.schedule) in
                  (
                    finished r task.schedule next finished_at d,
                    ap (λ x. get (x.1) name) run ∙ after,
                    (
                      (refl, refl),
                      subst
                          (λ (b : Bool).
                            IsAfter task.schedule finished_at (if b then next else d.next_run_at))
                          (sym taken)
                          (compute_next_run-IsAfter cron task.schedule finished_at next computed),
                      refl,
                    ),
                  )
            ]
      ]
