-- ===== src/Webhooks/SingleShot.antt =====
-- Test sends and manual retries over one attempt of services/webhooks/executor.py.
use spoo.Base.{
  ℕ, String, ◌≡◌, refl, sym, subst, Bool, true, false, not, ◌&&◌, Option, none, some, inl, arith,
  if_keeps, is_none,
}
use spoo.Base.Collection.{Collection, Holds, Holds-find_and_update, find_and_update}
use spoo.Webhooks.{
  WebhookEndpointDoc, WebhookDeliveryDoc, DeliveryAttempt, DeliveryStatus, success, failed,
  is_pending, is_disabled, is_paused,
}
use spoo.Webhooks.Deliveries.{
  mark_failed, record_attempt_and_finish, set_rendered_body, finished, no_call,
}
use spoo.Webhooks.Executor.{
  World, settle, finish, fail, settle_result, send, render_and_send, with_rendering, with_endpoint,
  attempt, attempt_of, Surroundings, Rendering, event_expired, unknown_flavor, payload_over_cap,
  rendered, is_success, has_code, single_shot,
}
use spoo.Webhooks.Balance.{finish-eq, written}

module _ (dd : Collection ℕ WebhookDeliveryDoc) (ed : Collection ℕ WebhookEndpointDoc) where
  -- The row that the executor holds agrees with the stored delivery.
  abbrev pub IsCurrent : ℕ → WebhookDeliveryDoc → World dd ed → Type 0
  IsCurrent id row s =
      Holds dd (λ d. (is_pending d.status ≡ is_pending row.status) × (d.is_test ≡ row.is_test)) s.0
        id

  -- The delivery is terminal and no longer scheduled, and the endpoints are as given.
  abbrev pub Settled : ℕ → ed.State → World dd ed → Type 0
  Settled id endpoints s =
      Holds dd (λ d. (is_pending d.status ≡ false) × (d.next_attempt_at ≡ none)) s.0 id
      × (s.1 ≡ endpoints)

  module _ (id : ℕ) (row : WebhookDeliveryDoc) (shot : single_shot row ≡ true) where
    kept :
        (was : Bool) (deliveries : dd.State) (endpoints : ed.State)
        → was ≡ is_pending row.status
        → (settle dd ed row (was, deliveries) endpoints).1 ≡ endpoints
    kept true deliveries endpoints same = ground (arith, same, shot)
    kept false deliveries endpoints same = refl

    finish-Settled :
        (a : DeliveryAttempt) (status : DeliveryStatus) (now : ℕ) (s : World dd ed)
        → is_pending status ≡ false
        → IsCurrent id row s
        → Settled id s.1 (finish dd ed id row a status now s)
    finish-Settled a status now s terminal (d, stored, (same, test)) =
        subst (Settled id s.1) (sym (finish-eq dd ed 0 0 id row d a status now s stored)) (
          (
            finished a status now d,
            dd.get-put_self id (finished a status now d) s.0,
            (terminal, refl),
          ),
          kept (is_pending d.status) (written dd ed 0 0 id row d a status now s) s.1 same,
        )

    fail-Settled :
        (reason : String) (now : ℕ) (s : World dd ed)
        → IsCurrent id row s
        → Settled id s.1 (fail dd ed id row reason now s)
    unfolding fail mark_failed finish record_attempt_and_finish
    fail-Settled reason now s stored = finish-Settled (no_call reason now) failed now s refl stored

    settle_result-Settled :
        (max_consecutive : ℕ) (w : Surroundings) (s : World dd ed)
        → IsCurrent id row s
        → Settled id s.1 (settle_result dd ed max_consecutive id row w s)
    unfolding settle_result
    settle_result-Settled max_consecutive w s stored =
        if_keeps (Settled id s.1) (is_success w.result.status_code) _ _
          (λ ok_. rw shot (finish-Settled (attempt_of w) success w.now s refl stored))
          (λ failed_.
            if_keeps (Settled id s.1) (has_code w.result.status_code 429 && not (single_shot row)) _
              _ (λ limited. absurd (ground (arith, limited, shot)))
              (λ hard. rw shot (finish-Settled (attempt_of w) failed w.now s refl stored)))

    send-Settled :
        (max_consecutive : ℕ) (w : Surroundings) (s : World dd ed)
        → IsCurrent id row s
        → Settled id s.1 (send dd ed max_consecutive id row w s)
    unfolding send
    send-Settled max_consecutive w s stored =
        if_keeps (Settled id s.1) w.secret_readable _ _
          (λ readable. settle_result-Settled max_consecutive w s stored)
          (λ unreadable. rw shot (fail-Settled "secret_unreadable" w.now s stored))

    with_rendering-Settled :
        (r : Rendering) (max_consecutive : ℕ) (w : Surroundings) (s : World dd ed)
        → IsCurrent id row s
        → Settled id s.1 (with_rendering dd ed r max_consecutive id row w s)
    unfolding with_rendering set_rendered_body
    with_rendering-Settled event_expired max_consecutive w s stored =
        fail-Settled "event_expired" w.now s stored
    with_rendering-Settled (unknown_flavor reason) max_consecutive w s stored =
        fail-Settled reason w.now s stored
    with_rendering-Settled payload_over_cap max_consecutive w s stored =
        fail-Settled "payload_over_cap" w.now s stored
    with_rendering-Settled (rendered body) max_consecutive w s stored =
        let q = λ (d : WebhookDeliveryDoc). is_none d.rendered_body in
        let f = λ (d : WebhookDeliveryDoc). record d { rendered_body = some body } in
        send-Settled max_consecutive w ((find_and_update dd id q f s.0).1, s.1)
          (Holds-find_and_update dd
            (λ d. (is_pending d.status ≡ is_pending row.status) × (d.is_test ≡ row.is_test)) id id q
            f s.0 (inl refl) (λ d x m. x) stored)

    with_endpoint-Settled :
        (o : Option WebhookEndpointDoc) (max_consecutive : ℕ) (w : Surroundings) (s : World dd ed)
        → IsCurrent id row s
        → Settled id s.1 (with_endpoint dd ed o max_consecutive id row w s)
    unfolding with_endpoint render_and_send
    with_endpoint-Settled none max_consecutive w s stored =
        fail-Settled "endpoint_inactive" w.now s stored
    with_endpoint-Settled (some p) max_consecutive w s stored =
        if_keeps (Settled id s.1) (is_disabled p.status) _ _
          (λ off. fail-Settled "endpoint_inactive" w.now s stored)
          (λ on.
            if_keeps (Settled id s.1) (is_paused p.status && not (single_shot row)) _ _
              (λ held. absurd (ground (arith, held, shot)))
              (λ go.
                if_keeps (Settled id s.1) (is_none row.rendered_body) _ _
                  (λ first. with_rendering-Settled w.rendering max_consecutive w s stored)
                  (λ frozen. send-Settled max_consecutive w s stored)))

  -- An attempt on a test send or on a delivery that was no longer pending, whatever the endpoint's
  -- state, the rendering, the secret and the receiver's answer, leaves the delivery terminal and
  -- unscheduled, and leaves every endpoint as it was: its streak, its counters and its status.
  pub attempt-Settled :
      (max_consecutive id : ℕ) (row : WebhookDeliveryDoc) (w : Surroundings) (s : World dd ed)
      → single_shot row ≡ true
      → IsCurrent id row s
      → Settled id s.1 (attempt dd ed max_consecutive id row w s)
  unfolding attempt
  attempt-Settled max_consecutive id row w s shot stored =
      with_endpoint-Settled id row shot (ed.get s.1 row.endpoint_id) max_consecutive w s stored
