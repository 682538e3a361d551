-- ===== src/Webhooks/Subscriptions/Sends.antt =====
-- services/webhooks/service.py: test sends and manual retries, each one attempt of the executor. The
-- ids of the event and of the row, the webhook id and the sample's event are arguments.
use spoo.Base.{
  ℕ, ◌==◌, String, Bool, true, false, not, Option, none, some, [], any, str_eq, if◌then◌else◌,
  Result, ok, err, ◌≡◌, refl, sym, ◌∙◌, subst, arith, if_keeps,
}
use spoo.Base.Collection.{Collection}
use spoo.Base.KeyValue.{KeyValue}
use spoo.Webhooks.{WebhookEndpointDoc, WebhookDeliveryDoc, pending, is_pending}
use spoo.Webhooks.Executor.{World, Surroundings, attempt, single_shot}
use spoo.Webhooks.SingleShot.{attempt-Settled}
use spoo.Webhooks.Subscriptions.Registry.{event_registry, names, test_event_type}
use spoo.Webhooks.Subscriptions.Updates.{
  WebhookError, endpoint_not_found, unknown_event, delivery_not_found, still_pending,
}
use spoo.Webhooks.Subscriptions.Service.{owned_by}

-- The row of a test send; no `next_attempt_at`, so that the claim loop never takes it.
abbrev pub test_row : ℕ → WebhookEndpointDoc → ℕ → String → String → WebhookDeliveryDoc
test_row endpoint_id endpoint event_oid event_type webhook_id = record {
  endpoint_id = endpoint_id;
  user_id = endpoint.user_id;
  event_oid = event_oid;
  event_type = event_type;
  webhook_id = webhook_id;
  is_test = true;
  rendered_body = none;
  dropped_since_last = 0;
  status = pending;
  attempts = [];
  attempt_count = 0;
  next_attempt_at = none;
  claimed_until = none;
  completed_at = none;
}

-- An event type that a test may send.
abbrev pub is_sendable : String → Bool
is_sendable event_type =
    if str_eq event_type test_event_type
    then true
    else any (str_eq event_type) (names event_registry)

-- `find_owned` of the deliveries, and the check of its endpoint
abbrev pub own_row : ℕ → ℕ → Option WebhookDeliveryDoc → Option WebhookDeliveryDoc
own_row endpoint_id user none = none
own_row endpoint_id user (some row) =
    if not (row.user_id == user)
    then none
    else if not (row.endpoint_id == endpoint_id)
    then none
    else some row

module _ (dd : Collection ℕ WebhookDeliveryDoc) (ed : Collection ℕ WebhookEndpointDoc)
    (max_consecutive : ℕ) where
  -- What both return at their end: the row, read again.
  abbrev pub Answer : Type 0
  Answer = Result WebhookError (Option WebhookDeliveryDoc) × World dd ed

  -- One attempt on a row that was read, and the second read.
  unfoldable pub attempt_once : ℕ → Option WebhookDeliveryDoc → Surroundings → World dd ed → Answer
  attempt_once id none w s = (ok none, s)
  attempt_once id (some row) w s =
      let s' = attempt dd ed max_consecutive id row w s in (ok (dd.get s'.0 id), s')

  -- After the endpoint was looked up, and after the row was.
  unfoldable pub test_found :
      Option WebhookEndpointDoc → ℕ → String → ℕ → ℕ → String → Surroundings → World dd ed → Answer
  unfolding attempt_once
  test_found none endpoint_id event_type event_oid row_id webhook_id w s =
      (err endpoint_not_found, s)
  test_found (some endpoint) endpoint_id event_type event_oid row_id webhook_id w
        (deliveries, eps) =
      let row = test_row endpoint_id endpoint event_oid event_type webhook_id in
      let inserted = dd.put row_id row deliveries in
      let sent = attempt_once row_id (dd.get inserted row_id) w (inserted, eps) in
      if is_sendable event_type then sent else (err (unknown_event event_type), (deliveries, eps))

  unfoldable pub retry_found : Option WebhookDeliveryDoc → ℕ → Surroundings → World dd ed → Answer
  unfolding attempt_once
  retry_found none id w s = (err delivery_not_found, s)
  retry_found (some row) id w s =
      let sent = attempt_once id (some row) w s in
      if is_pending row.status then (err still_pending, s) else sent

  module _ (redis : KeyValue ℕ ℕ) (has_redis : Bool) (ttl : ℕ) where
    unfoldable pub send_test : ℕ → ℕ → String → ℕ → ℕ → String → Surroundings → World dd ed → Answer
    unfolding test_found
    send_test endpoint_id user event_type event_oid row_id webhook_id w s =
        test_found (owned_by redis has_redis ttl ed user (ed.get s.1 endpoint_id)) endpoint_id
          event_type event_oid row_id webhook_id w s

    unfoldable pub retry_delivery : ℕ → ℕ → ℕ → Surroundings → World dd ed → Answer
    unfolding retry_found
    retry_delivery endpoint_id id user w s =
        elim (owned_by redis has_redis ttl ed user (ed.get s.1 endpoint_id)) [
          | none ↦ (err endpoint_not_found, s)
          | some endpoint ↦ retry_found (own_row endpoint_id user (dd.get s.0 id)) id w s
        ]

  -- What a caller is left with: a refusal that changed nothing, or a row that is terminal and not
  -- scheduled, with every endpoint as it was.
  abbrev pub Leaves : World dd ed → Answer → Type 0
  Leaves s (err e, s') = s' ≡ s
  Leaves s (ok none, s') = ⊥
  Leaves s (ok (some row), s') =
      (is_pending row.status ≡ false) × (row.next_attempt_at ≡ none) × (s'.1 ≡ s.1)

  attempt_once-Leaves :
      (id : ℕ) (row : WebhookDeliveryDoc) (w : Surroundings) (s t : World dd ed)
      → single_shot row ≡ true
      → dd.get s.0 id ≡ some row
      → s.1 ≡ t.1
      → Leaves t (attempt_once id (some row) w s)
  unfolding attempt_once
  attempt_once-Leaves id row w s t shot stored same =
      let ((d, here, (terminal, unscheduled)), eps) =
        attempt-Settled dd ed max_consecutive id row w s shot (row, stored, (refl, refl)) in
      rw here (terminal, unscheduled, eps ∙ same)

  test_found-Leaves :
      (o : Option WebhookEndpointDoc) (endpoint_id : ℕ) (event_type : String) (event_oid row_id : ℕ)
      (webhook_id : String) (w : Surroundings) (s : World dd ed)
      → Leaves s (test_found o endpoint_id event_type event_oid row_id webhook_id w s)
  unfolding test_found
  test_found-Leaves none endpoint_id event_type event_oid row_id webhook_id w s = refl
  test_found-Leaves (some endpoint) endpoint_id event_type event_oid row_id webhook_id w s =
      let row = test_row endpoint_id endpoint event_oid event_type webhook_id in
      let inserted = dd.put row_id row s.0 in
      let stored = dd.get-put_self row_id row s.0 in
      if_keeps (Leaves s) (is_sendable event_type) _ _
        (λ known.
          subst (λ o. Leaves s (attempt_once row_id o w (inserted, s.1))) (sym stored)
            (attempt_once-Leaves row_id row w (inserted, s.1) s refl stored refl))
        (λ unknown. refl)

  own_row-some :
      (endpoint_id user : ℕ) (o : Option WebhookDeliveryDoc) (row : WebhookDeliveryDoc)
      → own_row endpoint_id user o ≡ some row
      → o ≡ some row
  own_row-some endpoint_id user none row h = cc
  own_row-some endpoint_id user (some d) row h = ground (arith, h)

  retry_found-Leaves :
      (o : Option WebhookDeliveryDoc) (id : ℕ) (w : Surroundings) (s : World dd ed)
      → ((row : WebhookDeliveryDoc) → o ≡ some row → dd.get s.0 id ≡ some row)
      → Leaves s (retry_found o id w s)
  unfolding retry_found
  retry_found-Leaves none id w s stored = refl
  retry_found-Leaves (some row) id w s stored =
      if_keeps (Leaves s) (is_pending row.status) _ _ (λ waits. refl)
        (λ over. attempt_once-Leaves id row w s s (ground (arith, over)) (stored row refl) refl)

  module _ (redis : KeyValue ℕ ℕ) (has_redis : Bool) (ttl : ℕ) where
    -- A test send and a manual retry, whatever the endpoint's state, the rendering, the secret and
    -- the receiver's answer: a refusal leaves deliveries and endpoints as they were; else the returned
    -- row is terminal and not scheduled, and every endpoint is as it was, its streak, its counters and
    -- its status.
    pub sends-Leaves :
        (endpoint_id user : ℕ) (event_type : String) (event_oid row_id : ℕ) (webhook_id : String)
        (id : ℕ) (w : Surroundings) (s : World dd ed)
        → Leaves s (
            send_test redis has_redis ttl endpoint_id user event_type event_oid row_id webhook_id w
              s)
          × Leaves s (retry_delivery redis has_redis ttl endpoint_id id user w s)
    unfolding send_test retry_delivery
    sends-Leaves endpoint_id user event_type event_oid row_id webhook_id id w s = (
      test_found-Leaves (owned_by redis has_redis ttl ed user (ed.get s.1 endpoint_id)) endpoint_id
          event_type event_oid row_id webhook_id w s,
      retried (owned_by redis has_redis ttl ed user (ed.get s.1 endpoint_id)),
    )
      where
        retried :
            (o : Option WebhookEndpointDoc)
            → Leaves s (elim o [
              | none ↦ (err endpoint_not_found, s)
              | some endpoint ↦ retry_found (own_row endpoint_id user (dd.get s.0 id)) id w s
            ])
        retried none = refl
        retried (some endpoint) =
            retry_found-Leaves (own_row endpoint_id user (dd.get s.0 id)) id w s
              (λ row h. own_row-some endpoint_id user (dd.get s.0 id) row h)
