-- ===== src/Webhooks/Subscriptions/Steps.antt =====
-- Every write on endpoints (services/webhooks/service.py, services/webhooks/matcher.py, and the health
-- counters of repositories/webhook_endpoint_repository.py) as a step: the cache stays right over all of
-- them.
use spoo.Base.{
  ℕ, String, Bool, true, Option, none, some, ◌==◌, ◌≡◌, inl, inr, sym, ◌∙◌, arith, Bool-cases,
  Option-cases, ltb, ◌+◌,
}
use spoo.Base.Collection.{Collection, find_and_update, unless}
use spoo.Base.KeyValue.{KeyValue}
use spoo.Webhooks.{WebhookEndpointDoc, DisabledReason}
use spoo.Webhooks.Endpoints.{
  record_success, record_exhausted, reserve_pending, release_pending, set_pending_count,
  increment_dropped, disable, succeeded, exhausted, reserved, released, now_disabled,
}
use spoo.Webhooks.Subscriptions.{DomainEvent}
use spoo.Webhooks.Subscriptions.Matcher.{active_for, get, match, after_count, find_active_for_owner}
use spoo.Webhooks.Subscriptions.Updates.{NewEndpoint, Fields}
use spoo.Webhooks.Subscriptions.Service.{
  create_endpoint, update_endpoint, delete_endpoint, delete_by_user,
}
use spoo.Webhooks.Subscriptions.Quiet.{Within, calm-Quiet, set-Quiet, find_and_update-Within}
use spoo.Webhooks.Subscriptions.Kept.{
  State, IsQuiet, create-IsQuiet, update-IsQuiet, delete-IsQuiet,
}

module _ (redis : KeyValue ℕ ℕ) (has_redis : Bool) (ttl : ℕ)
    (endpoints : Collection ℕ WebhookEndpointDoc) where
  -- The requests of owners, the matching of an event, and what deliveries write on an endpoint.
  pub data Step
      : State redis has_redis ttl endpoints → State redis has_redis ttl endpoints → Type 0 where
    creates :
        (allowed : String → Bool) (max_endpoints user id : ℕ) (new : NewEndpoint)
        (s : State redis has_redis ttl endpoints)
        → Step s
            (create_endpoint redis has_redis ttl endpoints allowed max_endpoints user id new s).1
    updates :
        (allowed : String → Bool) (id user : ℕ) (fields : Fields) (now : ℕ)
        (s : State redis has_redis ttl endpoints)
        → Step s (update_endpoint redis has_redis ttl endpoints allowed id user fields now s).1
    deletes :
        (id user : ℕ) (s : State redis has_redis ttl endpoints)
        → Step s (delete_endpoint redis has_redis ttl endpoints id user s).1
    erases :
        (user : ℕ) (s : State redis has_redis ttl endpoints)
        → Step s (delete_by_user redis has_redis ttl endpoints user s)
    matches :
        (event : DomainEvent) (s : endpoints.State) (r : redis.State)
        → Step (s, r) (s, (match redis has_redis ttl endpoints event s r).1)
    succeeds :
        (id now : ℕ) (s : endpoints.State) (r : redis.State)
        → Step (s, r) ((record_success endpoints id now s).1, r)
    exhausts :
        (id : ℕ) (reason : String) (now : ℕ) (s : endpoints.State) (r : redis.State)
        → Step (s, r) ((record_exhausted endpoints id reason now s).1, r)
    reserves :
        (id cap : ℕ) (s : endpoints.State) (r : redis.State)
        → Step (s, r) ((reserve_pending endpoints id cap s).1, r)
    releases :
        (id : ℕ) (s : endpoints.State) (r : redis.State)
        → Step (s, r) (release_pending endpoints id s, r)
    recounts :
        (id n : ℕ) (s : endpoints.State) (r : redis.State)
        → Step (s, r) ((set_pending_count endpoints id n s).1, r)
    drops :
        (id : ℕ) (s : endpoints.State) (r : redis.State)
        → Step (s, r) (increment_dropped endpoints id s, r)
    disables :
        (id : ℕ) (reason : DisabledReason) (now : ℕ) (s : endpoints.State) (r : redis.State)
        → Step (s, r) (disable endpoints id reason now s, r)

  pub data Reaches
      : State redis has_redis ttl endpoints → State redis has_redis ttl endpoints → Type 0 where
    start : (s : State redis has_redis ttl endpoints) → Reaches s s
    next : (s t u : State redis has_redis ttl endpoints) → Reaches s t → Step t u → Reaches s u

  -- A counter's write that leaves owner and status alone, or disables.
  calm :
      (k : ℕ) (q : WebhookEndpointDoc → Bool) (f : WebhookEndpointDoc → WebhookEndpointDoc)
      (s : endpoints.State) (r : redis.State)
      → ((owner : ℕ) (d : WebhookEndpointDoc)
          → active_for owner (f d) ≡ true
          → active_for owner d ≡ true)
      → IsQuiet redis has_redis ttl endpoints (s, r)
      → IsQuiet redis has_redis ttl endpoints ((find_and_update endpoints k q f s).1, r)
  calm k q f s r keeps before = λ there.
      calm-Quiet redis has_redis ttl endpoints s (find_and_update endpoints k q f s).1 r
        (find_and_update-Within redis has_redis ttl endpoints k q f s keeps) (before there)

  erase-IsQuiet :
      (user : ℕ) (s : endpoints.State) (r : redis.State)
      → IsQuiet redis has_redis ttl endpoints (s, r)
      → IsQuiet redis has_redis ttl endpoints (endpoints.delete_many (λ d. d.user_id == user) s, r)
  erase-IsQuiet user s r before = λ there.
      calm-Quiet redis has_redis ttl endpoints s (endpoints.delete_many (λ d. d.user_id == user) s)
        r within (before there)
    where
      left :
          (o : Option WebhookEndpointDoc) (d : WebhookEndpointDoc)
          → unless (λ x. x.user_id == user) o ≡ some d
          → o ≡ some d
      left none d h = cc
      left (some e) d h = ground (arith, h)

      within :
          Within redis has_redis ttl endpoints
            (λ owner. ⊥)
            s
            (endpoints.delete_many (λ d. d.user_id == user) s)
      within id owner d here t = inr (
        d,
        left (endpoints.get s id) d
            (sym (endpoints.get-delete_many (λ x. x.user_id == user) s id) ∙ here),
        t,
      )

  match-IsQuiet :
      (event : DomainEvent) (s : endpoints.State) (r : redis.State)
      → IsQuiet redis has_redis ttl endpoints (s, r)
      → IsQuiet redis has_redis ttl endpoints (s, (match redis has_redis ttl endpoints event s r).1)
  unfolding match after_count find_active_for_owner
  match-IsQuiet event s r before = elim (Option-cases (get redis has_redis ttl event.owner_id r)) [
    | inl miss ↦
        rw miss (λ there. set-Quiet redis has_redis ttl endpoints event.owner_id s r (before there))
    | inr (n, known) ↦ elim (Bool-cases (n == 0)) [
      | inl t ↦ rw (known, t) before
      | inr no_ ↦ rw (known, no_) before
    ]
  ]

  module _ (answers : (owner : ℕ) (r : redis.State) → (redis.delete owner r).0 ≡ true) where
    Step-IsQuiet :
        (s t : State redis has_redis ttl endpoints)
        → Step s t
        → IsQuiet redis has_redis ttl endpoints s
        → IsQuiet redis has_redis ttl endpoints t
    unfolding record_success record_exhausted reserve_pending release_pending set_pending_count
        increment_dropped disable delete_by_user
    Step-IsQuiet s t (creates allowed cap user id new _) before =
        create-IsQuiet redis has_redis ttl endpoints answers allowed cap user id new s.0 s.1 before
    Step-IsQuiet s t (updates allowed id user fields now _) before =
        update-IsQuiet redis has_redis ttl endpoints answers allowed id user fields now s.0 s.1
          before
    Step-IsQuiet s t (deletes id user _) before =
        delete-IsQuiet redis has_redis ttl endpoints answers id user s.0 s.1 before
    Step-IsQuiet s t (erases user _) before = erase-IsQuiet user s.0 s.1 before
    Step-IsQuiet s t (matches event e r) before = match-IsQuiet event e r before
    Step-IsQuiet s t (succeeds id now e r) before =
        calm id (λ d. true) (succeeded now) e r (λ owner d h. h) before
    Step-IsQuiet s t (exhausts id reason now e r) before =
        calm id (λ d. true) (exhausted reason now) e r (λ owner d h. h) before
    Step-IsQuiet s t (reserves id cap e r) before =
        calm id (λ d. ltb d.pending_count cap) reserved e r (λ owner d h. h) before
    Step-IsQuiet s t (releases id e r) before =
        calm id (λ d. ltb 0 d.pending_count) released e r (λ owner d h. h) before
    Step-IsQuiet s t (recounts id n e r) before =
        calm id (λ d. true) (λ d. record d { pending_count = n }) e r (λ owner d h. h) before
    Step-IsQuiet s t (drops id e r) before =
        calm id (λ d. true) (λ d. record d { dropped_count = d.dropped_count + 1 }) e r
          (λ owner d h. h) before
    Step-IsQuiet s t (disables id reason now e r) before =
        calm id (λ d. true) (now_disabled reason now) e r (λ owner d h. absurd (ground (arith, h)))
          before

    -- The cache of owners stays right: over any sequence of requests (create, update, delete,
    -- erasure), matched events and writes of deliveries, taken one at a time, with every deletion in
    -- Redis answered, an owner whose count stands as 0 in the cache has no active endpoint, if so at
    -- the start.
    pub Reaches-IsQuiet :
        (s t : State redis has_redis ttl endpoints)
        → Reaches s t
        → IsQuiet redis has_redis ttl endpoints s
        → IsQuiet redis has_redis ttl endpoints t
    Reaches-IsQuiet s t (start _) before = before
    Reaches-IsQuiet s t (next _ m _ path step) before =
        Step-IsQuiet m t step (Reaches-IsQuiet s m path before)
