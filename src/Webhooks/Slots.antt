-- ===== src/Webhooks/Slots.antt =====
-- The pending slots over one attempt of services/webhooks/executor.py.
use spoo.Base.{
  ℕ, ◌+◌, ◌≡◌, refl, true, not, ◌&&◌, Option, none, some, inl, leb, if_keeps, is_none, length,
}
use spoo.Base.Collection.{Collection, Holds-find_and_update, find_and_update}
use spoo.Webhooks.{
  WebhookEndpointDoc, WebhookDeliveryDoc, success, failed, gone, consecutive_failures,
  secret_unreadable, is_disabled, is_paused,
}
use spoo.Webhooks.Endpoints.{
  record_success, record_exhausted, disable, succeeded, exhausted, now_disabled,
}
use spoo.Webhooks.Deliveries.{
  record_attempt_and_reschedule, defer, set_rendered_body, rescheduled, deferred,
}
use spoo.Webhooks.Executor.{
  World, finish, fail, exhaust, settle_result, send, render_and_send, with_rendering, with_endpoint,
  attempt, attempt_of, Surroundings, Rendering, event_expired, unknown_flavor, payload_over_cap,
  rendered, is_success, has_code, single_shot, retry_schedule_seconds, get_or, rate_limit_delay,
}
use spoo.Webhooks.Balance.{
  Balanced, IsStored, Balanced-deliveries, Balanced-endpoints, finish-Balanced, fail-Balanced,
}

module _ (dd : Collection ℕ WebhookDeliveryDoc) (ed : Collection ℕ WebhookEndpointDoc) where
  module _ (e drift : ℕ) where
    exhaust-Balanced :
        (max_consecutive id : ℕ) (row : WebhookDeliveryDoc) (w : Surroundings) (s : World dd ed)
        → IsStored dd ed id row s
        → Balanced dd ed e drift s
        → Balanced dd ed e drift (exhaust dd ed max_consecutive id row w s)
    unfolding exhaust record_exhausted disable
    exhaust-Balanced max_consecutive id row w s stored h =
        let s1 = finish dd ed id row (attempt_of w) failed w.now s in
        let grown =
          Balanced-endpoints dd ed e drift row.endpoint_id (exhausted w.failure w.now) s1
            (λ p. refl)
            (finish-Balanced dd ed e drift id row (attempt_of w) failed w.now s refl stored h) in
        if_keeps (λ x. Balanced dd ed e drift (s1.0, x))
          (leb max_consecutive (record_exhausted ed row.endpoint_id w.failure w.now s1.1).0) _ _
          (λ long.
            Balanced-endpoints dd ed e drift row.endpoint_id
              (now_disabled consecutive_failures w.now)
              (s1.0, (record_exhausted ed row.endpoint_id w.failure w.now s1.1).1) (λ p. refl)
              grown)
          (λ short. grown)

    settle_result-Balanced :
        (max_consecutive id : ℕ) (row : WebhookDeliveryDoc) (w : Surroundings) (s : World dd ed)
        → IsStored dd ed id row s
        → Balanced dd ed e drift s
        → Balanced dd ed e drift (settle_result dd ed max_consecutive id row w s)
    unfolding settle_result record_success defer disable record_attempt_and_reschedule
    settle_result-Balanced max_consecutive id row w s stored h =
        let a = attempt_of w in
        if_keeps (Balanced dd ed e drift) (is_success w.result.status_code) _ _
          (λ ok_.
            if_keeps (Balanced dd ed e drift) (single_shot row) _ _
              (λ shot. finish-Balanced dd ed e drift id row a success w.now s refl stored h)
              (λ ladder.
                Balanced-endpoints dd ed e drift row.endpoint_id (succeeded w.now)
                  (finish dd ed id row a success w.now s) (λ p. refl)
                  (finish-Balanced dd ed e drift id row a success w.now s refl stored h)))
          (λ failed_.
            if_keeps (Balanced dd ed e drift)
              (has_code w.result.status_code 429 && not (single_shot row)) _ _
              (λ limited.
                Balanced-deliveries dd ed e drift id (λ d. true)
                  (deferred (rate_limit_delay w.result.retry_after_seconds) w.now) s (λ d. refl) h)
              (λ hard.
                if_keeps (Balanced dd ed e drift) (single_shot row) _ _
                  (λ shot. finish-Balanced dd ed e drift id row a failed w.now s refl stored h)
                  (λ ladder.
                    if_keeps (Balanced dd ed e drift) (has_code w.result.status_code 410) _ _
                      (λ removed.
                        Balanced-endpoints dd ed e drift row.endpoint_id (now_disabled gone w.now)
                          (finish dd ed id row a failed w.now s) (λ p. refl)
                          (finish-Balanced dd ed e drift id row a failed w.now s refl stored h))
                      (λ retried.
                        if_keeps (Balanced dd ed e drift)
                          (leb (length retry_schedule_seconds) (row.attempt_count + 1)) _ _
                          (λ last. exhaust-Balanced max_consecutive id row w s stored h)
                          (λ more.
                            Balanced-deliveries dd ed e drift id (λ d. true)
                              (rescheduled a
                                (w.now + get_or retry_schedule_seconds (row.attempt_count + 1) 0))
                              s (λ d. refl) h)))))

    send-Balanced :
        (max_consecutive id : ℕ) (row : WebhookDeliveryDoc) (w : Surroundings) (s : World dd ed)
        → IsStored dd ed id row s
        → Balanced dd ed e drift s
        → Balanced dd ed e drift (send dd ed max_consecutive id row w s)
    unfolding send disable
    send-Balanced max_consecutive id row w s stored h =
        let ended = fail-Balanced dd ed e drift id row "secret_unreadable" w.now s stored h in
        if_keeps (Balanced dd ed e drift) w.secret_readable _ _
          (λ readable. settle_result-Balanced max_consecutive id row w s stored h)
          (λ unreadable.
            if_keeps (Balanced dd ed e drift) (single_shot row) _ _ (λ shot. ended)
              (λ ladder.
                Balanced-endpoints dd ed e drift row.endpoint_id
                  (now_disabled secret_unreadable w.now)
                  (fail dd ed id row "secret_unreadable" w.now s) (λ p. refl) ended))

    with_rendering-Balanced :
        (r : Rendering) (max_consecutive id : ℕ) (row : WebhookDeliveryDoc) (w : Surroundings)
        (s : World dd ed)
        → IsStored dd ed id row s
        → Balanced dd ed e drift s
        → Balanced dd ed e drift (with_rendering dd ed r max_consecutive id row w s)
    unfolding with_rendering set_rendered_body
    with_rendering-Balanced event_expired max_consecutive id row w s stored h =
        fail-Balanced dd ed e drift id row "event_expired" w.now s stored h
    with_rendering-Balanced (unknown_flavor reason) max_consecutive id row w s stored h =
        fail-Balanced dd ed e drift id row reason w.now s stored h
    with_rendering-Balanced payload_over_cap max_consecutive id row w s stored h =
        fail-Balanced dd ed e drift id row "payload_over_cap" w.now s stored h
    with_rendering-Balanced (rendered body) max_consecutive id row w s stored h =
        let q = λ (d : WebhookDeliveryDoc). is_none d.rendered_body in
        let f = λ (d : WebhookDeliveryDoc). record d { rendered_body = some body } in
        send-Balanced max_consecutive id row w ((find_and_update dd id q f s.0).1, s.1)
          (Holds-find_and_update dd
            (λ d. (d.endpoint_id ≡ row.endpoint_id) × (d.is_test ≡ row.is_test)) id id q f s.0
            (inl refl) (λ d x m. x) stored)
          (Balanced-deliveries dd ed e drift id q f s (λ d. refl) h)

    render_and_send-Balanced :
        (max_consecutive id : ℕ) (row : WebhookDeliveryDoc) (w : Surroundings) (s : World dd ed)
        → IsStored dd ed id row s
        → Balanced dd ed e drift s
        → Balanced dd ed e drift (render_and_send dd ed max_consecutive id row w s)
    unfolding render_and_send
    render_and_send-Balanced max_consecutive id row w s stored h =
        if_keeps (Balanced dd ed e drift) (is_none row.rendered_body) _ _
          (λ first. with_rendering-Balanced w.rendering max_consecutive id row w s stored h)
          (λ frozen. send-Balanced max_consecutive id row w s stored h)

    with_endpoint-Balanced :
        (o : Option WebhookEndpointDoc) (max_consecutive id : ℕ) (row : WebhookDeliveryDoc)
        (w : Surroundings) (s : World dd ed)
        → IsStored dd ed id row s
        → Balanced dd ed e drift s
        → Balanced dd ed e drift (with_endpoint dd ed o max_consecutive id row w s)
    unfolding with_endpoint defer
    with_endpoint-Balanced none max_consecutive id row w s stored h =
        fail-Balanced dd ed e drift id row "endpoint_inactive" w.now s stored h
    with_endpoint-Balanced (some p) max_consecutive id row w s stored h =
        if_keeps (Balanced dd ed e drift) (is_disabled p.status) _ _
          (λ off. fail-Balanced dd ed e drift id row "endpoint_inactive" w.now s stored h)
          (λ on.
            if_keeps (Balanced dd ed e drift) (is_paused p.status && not (single_shot row)) _ _
              (λ held.
                Balanced-deliveries dd ed e drift id (λ d. true) (deferred 300 w.now) s (λ d. refl)
                  h)
              (λ go. render_and_send-Balanced max_consecutive id row w s stored h))

  -- Slot accounting. One attempt on a stored delivery, whatever the endpoint's state, the rendering,
  -- the secret and the receiver's answer, keeps every endpoint's pending counter at the number of
  -- its deliveries that hold a slot, plus the same drift: a slot is given back exactly when its
  -- delivery leaves the pending state.
  pub attempt-Balanced :
      (e drift max_consecutive id : ℕ) (row : WebhookDeliveryDoc) (w : Surroundings)
      (s : World dd ed)
      → IsStored dd ed id row s
      → Balanced dd ed e drift s
      → Balanced dd ed e drift (attempt dd ed max_consecutive id row w s)
  unfolding attempt
  attempt-Balanced e drift max_consecutive id row w s stored h =
      with_endpoint-Balanced e drift (ed.get s.1 row.endpoint_id) max_consecutive id row w s stored
        h
