-- ===== src/Scheduler/Lease.antt =====
-- The lease of a claim: what the other runners and the operations can do while it lasts.
use spoo.Base.{
  ℕ, ◌+◌, ◌≤◌, ◌<◌, refl, sym, String, ◌≡◌, ◌≢◌, ◌∙◌, ap, Bool, true, false, Option, some, List, [],
  ◌∷◌, inl, inr, arith, any, All, str_eq, String-cases, Option-cases,
}
use spoo.Base.Collection.{ascending, find_first_and_update-some, find_first_and_update-none}
use spoo.Base.Collection.{Collection, Holds, Holds-find_and_update, Holds-find_first_and_update}
use spoo.Base.Text.{opt_eq}
use spoo.Scheduler.{ScheduledTaskDoc, TaskRunResult}
use spoo.Scheduler.Store.{
  ensure_task, reconcile_schedule, claim_due, finish_run, invoke_now, claimable, claimed, due_time,
  new_doc,
}

-- The calls that any runner or operator may make on the collection.
pub data Op : Type 0 where
  ensure : String → Option String → Bool → Option ℕ → ℕ → Op
  reconcile : String → Option String → Option ℕ → ℕ → Op
  claim : List String → ℕ → ℕ → String → Op
  finish : String → Option String → TaskRunResult → Option String → Option ℕ → ℕ → Op
  invoke : String → ℕ → Op

-- The document carries this lease.
abbrev pub HasLease : String → ℕ → ScheduledTaskDoc → Type 0
HasLease token until d = (d.claimed_until ≡ some until) × (d.claim_token ≡ some token)

-- While the lease lasts: claims before its end, and no finish with its token.
abbrev pub Before : String → ℕ → Op → Type 0
Before token until (claim names lease now t) = now < until
Before token until (finish k t r sch next now) = opt_eq (some token) t ≡ false
Before token until (ensure k sch en next now) = Unit
Before token until (reconcile k sch next now) = Unit
Before token until (invoke k now) = Unit

-- A document under a lease matches no claim before the lease ends.
claimable-HasLease :
    (names : List String) (now : ℕ) (k : String) (d : ScheduledTaskDoc) (token : String) (until : ℕ)
    → HasLease token until d
    → now < until
    → claimable names now k d ≡ false
claimable-HasLease names now k d token until h before = ground arith

module _ (db : Collection String ScheduledTaskDoc) where
  open db use {State, get, put, pick, pick-some, pick-none, get-put_ne, get-put_self}

  unfoldable pub run_op : Op → State → State
  run_op (ensure k sch en next now) s = ensure_task db k sch en next now s
  run_op (reconcile k sch next now) s = (reconcile_schedule db k sch next now s).1
  run_op (claim names lease now token) s = (claim_due db names lease now token s).1
  run_op (finish k t r sch next now) s = (finish_run db k t r sch next now s).1
  run_op (invoke k now) s = (invoke_now db k now s).1

  unfoldable pub run_ops : List Op → State → State
  run_ops [] s = s
  run_ops (o ∷ os) s = run_ops os (run_op o s)

  module _ (k token : String) (until : ℕ) where
    ensure-Holds :
        (name : String) (sch : Option String) (en : Bool) (next : Option ℕ) (now : ℕ) (s : State)
        → Holds db (HasLease token until) s k
        → Holds db (HasLease token until) (ensure_task db name sch en next now s) k
    unfolding ensure_task
    ensure-Holds name sch en next now s (d, stored, h) = elim (Option-cases (get s name)) [
      | inl e ↦ (
        d,
        ground (
          arith,
          e,
          stored,
          get-put_ne name k (new_doc sch en next now) s (λ (p : name ≡ k). cc (e, stored, p)),
        ),
        h,
      )
      | inr (d', e) ↦ (d, ground (arith, e, stored), h)
    ]

    claim-Holds :
        (names : List String) (lease now : ℕ) (t : String) (s : State)
        → now < until
        → Holds db (HasLease token until) s k
        → Holds db (HasLease token until) (claim_due db names lease now t s).1 k
    unfolding claim_due
    claim-Holds names lease now t s before h =
        Holds-find_first_and_update db ascending (claimable names now) due_time
          (claimed lease now t) s (HasLease token until) k
          (λ d p. claimable-HasLease names now k d token until p before) h

    run_op-Holds :
        (o : Op) (s : State)
        → Before token until o
        → Holds db (HasLease token until) s k
        → Holds db (HasLease token until) (run_op o s) k
    unfolding run_op reconcile_schedule finish_run invoke_now
    run_op-Holds (ensure n sch en next now) s b h = ensure-Holds n sch en next now s h
    run_op-Holds (reconcile n sch next now) s b h =
        Holds-find_and_update db (HasLease token until) n k _ _ s (String-cases n k) (λ d p q. p) h
    run_op-Holds (claim names lease now t) s b h = claim-Holds names lease now t s b h
    run_op-Holds (finish n t r sch next now) s b h =
        Holds-find_and_update db (HasLease token until) n k _ _ s (String-cases n k)
          (λ d p q. cc (p.1, q, b)) h
    run_op-Holds (invoke n now) s b h =
        Holds-find_and_update db (HasLease token until) n k _ _ s (String-cases n k) (λ d p q. p) h

  -- A claim leaves its lease on the document that it returns.
  pub claim_due-HasLease :
      (names : List String) (lease now : ℕ) (token : String) (s : State) (k : String)
      (d : ScheduledTaskDoc)
      → (claim_due db names lease now token s).0 ≡ some (k, d)
      → Holds db (HasLease token (now + lease)) (claim_due db names lease now token s).1 k
  unfolding claim_due
  claim_due-HasLease names lease now token s k d h =
      let c =
        find_first_and_update-some db ascending (claimable names now) due_time
          (claimed lease now token) s k d h in
      (
        claimed lease now token c.before,
        ap (λ x. get x k) c.contents ∙ get-put_self k (claimed lease now token c.before) s,
        (refl, refl),
      )

  run_ops-Holds :
      (k token : String) (until : ℕ) (ops : List Op) (s : State)
      → All (Before token until) ops
      → Holds db (HasLease token until) s k
      → Holds db (HasLease token until) (run_ops ops s) k
  unfolding run_ops
  run_ops-Holds k token until [] s b h = h
  run_ops-Holds k token until (o ∷ os) s (b, bs) h =
      run_ops-Holds k token until os (run_op o s) bs (run_op-Holds k token until o s b h)

  -- Mutual exclusion of runners. After a claim returned the task k, and after any calls by other
  -- runners or operators before the lease ends (claims of any tasks, registry syncs, manual
  -- invocations, and finishes under other tokens), no claim before the end of the lease returns k.
  pub claim_due_excludes :
      (names names' : List String) (lease lease' now now' : ℕ) (token token' : String) (s : State)
      (k j : String) (d e : ScheduledTaskDoc) (ops : List Op)
      → (claim_due db names lease now token s).0 ≡ some (k, d)
      → All (Before token (now + lease)) ops
      → now' < now + lease
      → (claim_due db names' lease' now' token'
          (run_ops ops (claim_due db names lease now token s).1)).0
        ≡ some (j, e)
      → j ≢ k
  unfolding claim_due
  claim_due_excludes names names' lease lease' now now' token token' s k j d e ops h b before again
        same =
      let s' = run_ops ops (claim_due db names lease now token s).1 in
      let (held, stored, p) =
        run_ops-Holds k token (now + lease) ops (claim_due db names lease now token s).1 b
          (claim_due-HasLease names lease now token s k d h) in
      let c =
        find_first_and_update-some db ascending (claimable names' now') due_time
          (claimed lease' now' token') s' j e again in
      let same_doc : some c.before ≡ some held = sym c.stored ∙ ap (get s') same ∙ stored in
      cc (claimable-HasLease names' now' j held token (now + lease) p before, c.matches, same_doc)

  -- No task is stranded. An enabled task that is due, whose lease has ended (its runner may have
  -- crashed) and that the runner has a handler for, makes the claim return a task, one that was due
  -- no later.
  pub claim_due_finds :
      (names : List String) (lease now : ℕ) (token : String) (s : State) (k : String)
      (d : ScheduledTaskDoc) (t until : ℕ)
      → get s k ≡ some d
      → any (λ n. str_eq n k) names ≡ true
      → d.enabled ≡ true
      → d.next_run_at ≡ some t
      → t ≤ now
      → d.claimed_until ≡ some until
      → until ≤ now
      → (row : String × ScheduledTaskDoc) × ((claim_due db names lease now token s).0 ≡ some row)
        × (due_time row.1 ≤ t)
  unfolding claim_due
  claim_due_finds names lease now token s k d t until stored named on next due held over =
      elim (Option-cases (claim_due db names lease now token s).0) [
        | inl missed ↦ absurd (
            cc (
              matches,
              (find_first_and_update-none db ascending (claimable names now) due_time
                    (claimed lease now token) s missed).1
                  k d stored,
            ))
        | inr ((j, e), found) ↦
            let c =
              find_first_and_update-some db ascending (claimable names now) due_time
                (claimed lease now token) s j e found in
            ((j, e), found, ground (arith, c.first k d stored matches, c.result, next))
      ]
    where
      matches : claimable names now k d ≡ true
      matches = ground arith
