-- ===== src/Scheduler/Sync.antt =====
-- The registry sync at start-up: what it makes of the documents.
use spoo.Base.{
  ℕ, ap₂, String, ◌≡◌, ◌≢◌, ◌∙◌, ap, refl, sym, subst, Bool, true, false, not, Option, some, List,
  [], ◌∷◌, inl, inr, arith, ok, All, Option-cases, Bool-cases, Result-cases, String-cases,
}
use spoo.Base.Collection.{
  Collection, Holds, Holds-find_and_update, find_and_update-match, get-find_and_update_ne,
  find_and_update-miss,
}
use spoo.Base.Text.{opt_eq, opt_eq_refl, opt_eq→eq}
use spoo.Scheduler.{ScheduledTask, ScheduledTaskDoc}
use spoo.Scheduler.Registry.{Cron, compute_next_run}
use spoo.Scheduler.Store.{ensure_task, reconcile_schedule, reconciled, new_doc}
use spoo.Scheduler.Runner.{sync_tasks}
use spoo.Scheduler.Names.{IsDistinct}

module _ (cron : Cron) (db : Collection String ScheduledTaskDoc) where
  open db use {State, get, put, get-put_self, get-put_ne}

  -- One round of the loop.
  abbrev sync_one : ScheduledTask → Option ℕ → ℕ → State → State
  sync_one t next now s =
      (reconcile_schedule db t.name t.schedule next now
        (ensure_task db t.name t.schedule t.enabled_default next now s)).1

  -- The state that a sync never touches.
  abbrev SameRuntime : ScheduledTaskDoc → ScheduledTaskDoc → Type 0
  SameRuntime d e =
      (e.enabled ≡ d.enabled)
      × (e.last_run ≡ d.last_run)
      × (e.claimed_until ≡ d.claimed_until)
      × (e.claim_token ≡ d.claim_token)

  abbrev HasSchedule : Option String → ScheduledTaskDoc → Type 0
  HasSchedule schedule d = d.schedule ≡ schedule

  Holds-ensure_task :
      (P : ScheduledTaskDoc → Type 0) (name : String) (sch : Option String) (en : Bool)
      (next : Option ℕ) (now : ℕ) (s : State) (k : String)
      → Holds db P s k
      → Holds db P (ensure_task db name sch en next now s) k
  unfolding ensure_task
  Holds-ensure_task P name sch en next now s k (d, stored, h) = elim (Option-cases (get s name)) [
    | inl e ↦ (
      d,
      ground (
        arith,
        e,
        stored,
        get-put_ne name k (new_doc sch en next now) s (λ (p : name ≡ k). cc (e, stored, p)),
      ),
      h,
    )
    | inr (d', e) ↦ (d, ground (arith, e, stored), h)
  ]

  ensure_task-present :
      (name : String) (sch : Option String) (en : Bool) (next : Option ℕ) (now : ℕ) (s : State)
      → Holds db (λ d. Unit) (ensure_task db name sch en next now s) name
  unfolding ensure_task
  ensure_task-present name sch en next now s = elim (Option-cases (get s name)) [
    | inl e ↦ (
      new_doc sch en next now,
      ground (arith, e, get-put_self name (new_doc sch en next now) s),
      tt,
    )
    | inr (d, e) ↦ (d, ground (arith, e), tt)
  ]

  Holds-reconcile :
      (P : ScheduledTaskDoc → Type 0) (name : String) (sch : Option String) (next : Option ℕ)
      (now : ℕ) (s : State) (k : String)
      → ((d : ScheduledTaskDoc)
          → P d
          → name ≡ k
          → opt_eq d.schedule sch ≡ false
          → P (reconciled sch next now d))
      → Holds db P s k
      → Holds db P (reconcile_schedule db name sch next now s).1 k
  unfolding reconcile_schedule
  Holds-reconcile P name sch next now s k keep (e, stored, h) = elim (String-cases name k) [
    | inl p ↦
        Holds-find_and_update db P name k (λ d. not (opt_eq d.schedule sch))
          (reconciled sch next now) s (inl p) (λ d x q. keep d x p (ground arith)) (e, stored, h)
    | inr n ↦ (e, get-find_and_update_ne db name k _ _ s n ∙ stored, h)
  ]

  -- What a reconciliation of the task keeps of a document that it changes.
  abbrev Keeps : (ScheduledTaskDoc → Type 0) → String → ScheduledTask → Type 0
  Keeps P k t =
      (next : Option ℕ) (now : ℕ) (d : ScheduledTaskDoc)
      → P d
      → t.name ≡ k
      → opt_eq d.schedule t.schedule ≡ false
      → P (reconciled t.schedule next now d)

  sync_tasks-step :
      (t : ScheduledTask) (ts : List ScheduledTask) (next : Option ℕ) (now : ℕ) (s : State)
      → compute_next_run cron t.schedule now ≡ ok next
      → sync_tasks cron db (t ∷ ts) now s ≡ sync_tasks cron db ts now (sync_one t next now s)
  unfolding sync_tasks
  sync_tasks-step t ts next now s computed = rw (computed, sync_tasks)

  sync_tasks-Holds :
      (P : ScheduledTaskDoc → Type 0) (k : String) (ts : List ScheduledTask) (now : ℕ) (s : State)
      → All (Keeps P k) ts
      → Holds db P s k
      → Holds db P (sync_tasks cron db ts now s).1 k
  unfolding sync_tasks
  sync_tasks-Holds P k [] now s keep h = h
  sync_tasks-Holds P k (t ∷ ts) now s (keep, more) h =
      elim (Result-cases (compute_next_run cron t.schedule now)) [
        | inl (e, failed) ↦ rw (failed, sync_tasks) h
        | inr (next, computed) ↦ rw (sync_tasks-step t ts next now s computed) (
            sync_tasks-Holds P k ts now (sync_one t next now s) more (
              Holds-reconcile P t.name t.schedule next now _ k (keep next now)
                (Holds-ensure_task P t.name t.schedule t.enabled_default next now s k h)))
      ]

  sync_one-HasSchedule :
      (t : ScheduledTask) (next : Option ℕ) (now : ℕ) (s : State)
      → Holds db (HasSchedule t.schedule) (sync_one t next now s) t.name
  unfolding reconcile_schedule
  sync_one-HasSchedule t next now s =
      let s' = ensure_task db t.name t.schedule t.enabled_default next now s in
      let (d, stored, _) = ensure_task-present t.name t.schedule t.enabled_default next now s in
      let q = λ (d : ScheduledTaskDoc). not (opt_eq d.schedule t.schedule) in
      let f = reconciled t.schedule next now in
      elim (Bool-cases (opt_eq d.schedule t.schedule)) [
        | inl same ↦ (
          d,
          ap (λ r. get (r.1) t.name) (find_and_update-miss db t.name q f s' d stored (ap not same))
              ∙ stored,
          opt_eq→eq d.schedule t.schedule same,
        )
        | inr other ↦ (
          f d,
          ap (λ r. get (r.1) t.name)
                (find_and_update-match db t.name q f s' d stored (ap not other))
              ∙ get-put_self t.name (f d) s',
          refl,
        )
      ]

  -- A sync never touches runtime state. Whatever the registrations, and also where the sync is cut
  -- short by an exception of the cron library, a stored task keeps its pause switch, last run, lease
  -- and claim token.
  pub sync_tasks-SameRuntime :
      (ts : List ScheduledTask) (now : ℕ) (s : State) (k : String) (d : ScheduledTaskDoc)
      → get s k ≡ some d
      → Holds db (SameRuntime d) (sync_tasks cron db ts now s).1 k
  sync_tasks-SameRuntime ts now s k d stored =
      sync_tasks-Holds (SameRuntime d) k ts now s (all_keep ts)
        (d, stored, (refl, refl, refl, refl))
    where
      all_keep : (ts : List ScheduledTask) → All (Keeps (SameRuntime d) k) ts
      all_keep [] = tt
      all_keep (t ∷ ts) = (λ next now e same p q. same, all_keep ts)

  -- A sync leaves a stored task exactly as it is, its next run included, where no registration of
  -- its name has another schedule: restarts do not move the next run, and the document of a task
  -- that this process does not register is kept.
  pub sync_tasks-unchanged :
      (ts : List ScheduledTask) (now : ℕ) (s : State) (k : String) (d : ScheduledTaskDoc)
      → get s k ≡ some d
      → All (λ t. t.name ≡ k → t.schedule ≡ d.schedule) ts
      → get (sync_tasks cron db ts now s).1 k ≡ some d
  sync_tasks-unchanged ts now s k d stored same =
      let (e, after, eq) =
        sync_tasks-Holds (λ e. e ≡ d) k ts now s (all_keep ts same) (d, stored, refl) in
      after ∙ ap some eq
    where
      all_keep :
          (ts : List ScheduledTask)
          → All (λ t. t.name ≡ k → t.schedule ≡ d.schedule) ts
          → All (Keeps (λ e. e ≡ d) k) ts
      all_keep [] h = tt
      all_keep (t ∷ ts) (h, hs) = (
        λ next now e same p q. cc (
          q,
          opt_eq_refl d.schedule,
          ap₂ opt_eq (ap (λ (x : ScheduledTaskDoc). x.schedule) same) (h p),
        ),
        all_keep ts hs,
      )

  -- A sync that comes to its end leaves every registered task stored with the schedule of its
  -- registration, the names being distinct.
  pub sync_tasks-HasSchedule :
      (ts : List ScheduledTask) (now : ℕ) (s : State)
      → IsDistinct ts
      → (sync_tasks cron db ts now s).0 ≡ true
      → All (λ t. Holds db (λ d. d.schedule ≡ t.schedule) (sync_tasks cron db ts now s).1 t.name) ts
  unfolding sync_tasks
  sync_tasks-HasSchedule [] now s d h = tt
  sync_tasks-HasSchedule (t ∷ ts) now s (fresh, d) h =
      elim (Result-cases (compute_next_run cron t.schedule now)) [
        | inl (e, failed) ↦ absurd (ground (arith, failed))
        | inr (next, computed) ↦
            subst
              (λ (r : Bool × State).
                All (λ u. Holds db (λ d. d.schedule ≡ u.schedule) r.1 u.name) (t ∷ ts))
              (sym (sync_tasks-step t ts next now s computed))
              (
                sync_tasks-Holds (HasSchedule t.schedule) t.name ts now (sync_one t next now s)
                    (others ts fresh) (sync_one-HasSchedule t next now s),
                sync_tasks-HasSchedule ts now (sync_one t next now s) d
                    (rw (computed, sync_tasks) at h),
              )
      ]
    where
      others :
          (us : List ScheduledTask)
          → All (λ u. t.name ≢ u.name) us
          → All (Keeps (HasSchedule t.schedule) t.name) us
      others [] a = tt
      others (u ∷ us) (ne, a) = (λ next now e x p q. absurd (ne (sym p)), others us a)
