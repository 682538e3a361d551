-- ===== src/Webhooks/Ladder.antt =====
-- The retry ladder of services/webhooks/executor.py: one attempt on a pending delivery.
use spoo.Base.{
  ℕ, ◌+◌, ◌≤◌, ◌<◌, String, ◌≡◌, ◌∙◌, refl, sym, subst, ap, Bool, true, false, not, ◌&&◌, ◌||◌,
  Option, none, some, inl, arith, leb, if_keeps, is_none, length,
}
use spoo.Base.Collection.{
  Collection, Holds, Holds-find_and_update, find_and_update, find_and_update-match,
}
use spoo.Webhooks.{
  WebhookEndpointDoc, WebhookDeliveryDoc, DeliveryAttempt, DeliveryStatus, success, failed,
  is_pending, is_disabled, is_paused,
}
use spoo.Webhooks.Deliveries.{
  mark_failed, record_attempt_and_finish, set_rendered_body, finished, no_call, defer, deferred,
  record_attempt_and_reschedule, rescheduled,
}
use spoo.Webhooks.Executor.{
  World, finish, fail, exhaust, settle_result, send, render_and_send, with_rendering, with_endpoint,
  attempt, attempt_of, Surroundings, Rendering, event_expired, unknown_flavor, payload_over_cap,
  rendered, Float, ratio, infinity, is_success, has_code, single_shot, rate_limit_delay,
  retry_schedule_seconds, get_or,
}
use spoo.Webhooks.Balance.{finish-eq}

-- The endpoint is paused, or the receiver answers 429.
abbrev pub is_held : Option WebhookEndpointDoc → Surroundings → Bool
is_held none w = has_code w.result.status_code 429
is_held (some p) w = is_paused p.status || has_code w.result.status_code 429

-- What an attempt on `row` makes of its delivery `d`.
pub data Progress (held_back : Bool) (now : ℕ) (row d : WebhookDeliveryDoc) : Type 0 where
  over : is_pending d.status ≡ false → Progress held_back now row d
  held :
      (delay : ℕ)
      → held_back ≡ true
      → delay ≤ 900
      → is_pending d.status ≡ true
      → d.attempt_count ≡ row.attempt_count
      → d.next_attempt_at ≡ some (now + delay)
      → Progress held_back now row d
  retried :
      is_pending d.status ≡ true
      → d.is_test ≡ row.is_test
      → d.attempt_count ≡ row.attempt_count + 1
      → d.attempt_count < 7
      → d.next_attempt_at ≡ some (now + get_or retry_schedule_seconds d.attempt_count 0)
      → Progress held_back now row d

module _ (dd : Collection ℕ WebhookDeliveryDoc) (ed : Collection ℕ WebhookEndpointDoc) where
  -- The stored delivery is pending, and agrees with the row on what an attempt does not change.
  abbrev pub IsRow : ℕ → WebhookDeliveryDoc → World dd ed → Type 0
  IsRow id row s =
      Holds dd
        (λ d.
          (is_pending d.status ≡ true)
          × (d.is_test ≡ row.is_test)
          × (d.attempt_count ≡ row.attempt_count))
        s.0 id

  module _ (id : ℕ) (row : WebhookDeliveryDoc) where
    abbrev Advanced : Bool → ℕ → World dd ed → Type 0
    Advanced held_back now s = Holds dd (Progress held_back now row) s.0 id

    finish-Advanced :
        (held_back : Bool) (a : DeliveryAttempt) (status : DeliveryStatus) (now : ℕ)
        (s : World dd ed)
        → is_pending status ≡ false
        → IsRow id row s
        → Advanced held_back now (finish dd ed id row a status now s)
    finish-Advanced held_back a status now s terminal (d, stored, same) =
        subst (Advanced held_back now) (sym (finish-eq dd ed 0 0 id row d a status now s stored))
          (finished a status now d, dd.get-put_self id (finished a status now d) s.0, over terminal)

    fail-Advanced :
        (held_back : Bool) (reason : String) (now : ℕ) (s : World dd ed)
        → IsRow id row s
        → Advanced held_back now (fail dd ed id row reason now s)
    unfolding fail mark_failed finish record_attempt_and_finish
    fail-Advanced held_back reason now s stored =
        finish-Advanced held_back (no_call reason now) failed now s refl stored

    defer-Advanced :
        (held_back : Bool) (delay now : ℕ) (s : World dd ed)
        → held_back ≡ true
        → delay ≤ 900
        → IsRow id row s
        → Advanced held_back now (defer dd id delay now s.0, s.1)
    unfolding defer
    defer-Advanced held_back delay now s back high (d, stored, (p, test, same)) = (
      deferred delay now d,
      ap (λ r. dd.get (r.1) id)
            (find_and_update-match dd id (λ d. true) (deferred delay now) s.0 d stored refl)
          ∙ dd.get-put_self id (deferred delay now d) s.0,
      held delay back high p same refl,
    )

    retry-Advanced :
        (held_back : Bool) (a : DeliveryAttempt) (now : ℕ) (s : World dd ed)
        → leb 7 (row.attempt_count + 1) ≡ false
        → IsRow id row s
        → Advanced held_back now (
          record_attempt_and_reschedule dd id a
              (now + get_or retry_schedule_seconds (row.attempt_count + 1) 0)
              s.0,
          s.1,
        )
    unfolding record_attempt_and_reschedule
    retry-Advanced held_back a now s short (d, stored, (p, test, same)) =
        let next = now + get_or retry_schedule_seconds (row.attempt_count + 1) 0 in
        (
          rescheduled a next d,
          ap (λ r. dd.get (r.1) id)
                (find_and_update-match dd id (λ d. true) (rescheduled a next) s.0 d stored refl)
              ∙ dd.get-put_self id (rescheduled a next d) s.0,
          retried p test (ap (λ n. n + 1) same) (ground (arith, same, short))
              (ap (λ n. some (now + get_or retry_schedule_seconds (n + 1) 0)) (sym same)),
        )

    delay-bound : (r : Option Float) → rate_limit_delay r ≤ 900
    delay-bound none = omega arith
    delay-bound (some infinity) = omega arith
    delay-bound (some (ratio n d)) = ground arith

    settle_result-Advanced :
        (held_back : Bool) (max_consecutive : ℕ) (w : Surroundings) (s : World dd ed)
        → (has_code w.result.status_code 429 ≡ true → held_back ≡ true)
        → IsRow id row s
        → Advanced held_back w.now (settle_result dd ed max_consecutive id row w s)
    unfolding settle_result exhaust
    settle_result-Advanced held_back max_consecutive w s limit stored =
        let P = Advanced held_back w.now in
        let a = attempt_of w in
        let failed_ = finish-Advanced held_back a failed w.now s refl stored in
        let sent = finish-Advanced held_back a success w.now s refl stored in
        let high = delay-bound w.result.retry_after_seconds in
        if_keeps P (is_success w.result.status_code) _ _
          (λ good. if_keeps P (single_shot row) _ _ (λ shot. sent) (λ ladder. sent))
          (λ bad.
            if_keeps P (has_code w.result.status_code 429 && not (single_shot row)) _ _
              (λ limited.
                defer-Advanced held_back (rate_limit_delay w.result.retry_after_seconds) w.now s
                  (limit (ground (arith, limited))) high stored)
              (λ hard.
                if_keeps P (single_shot row) _ _ (λ shot. failed_)
                  (λ ladder.
                    if_keeps P (has_code w.result.status_code 410) _ _ (λ removed. failed_)
                      (λ kept.
                        if_keeps P (leb (length retry_schedule_seconds) (row.attempt_count + 1)) _ _
                          (λ last. failed_)
                          (λ more. retry-Advanced held_back a w.now s more stored)))))

    send-Advanced :
        (held_back : Bool) (max_consecutive : ℕ) (w : Surroundings) (s : World dd ed)
        → (has_code w.result.status_code 429 ≡ true → held_back ≡ true)
        → IsRow id row s
        → Advanced held_back w.now (send dd ed max_consecutive id row w s)
    unfolding send
    send-Advanced held_back max_consecutive w s limit stored =
        let unsigned = fail-Advanced held_back "secret_unreadable" w.now s stored in
        if_keeps (Advanced held_back w.now) w.secret_readable _ _
          (λ readable. settle_result-Advanced held_back max_consecutive w s limit stored)
          (λ unreadable.
            if_keeps (Advanced held_back w.now) (single_shot row) _ _ (λ shot. unsigned)
              (λ ladder. unsigned))

    with_rendering-Advanced :
        (r : Rendering) (held_back : Bool) (max_consecutive : ℕ) (w : Surroundings)
        (s : World dd ed)
        → (has_code w.result.status_code 429 ≡ true → held_back ≡ true)
        → IsRow id row s
        → Advanced held_back w.now (with_rendering dd ed r max_consecutive id row w s)
    unfolding with_rendering set_rendered_body
    with_rendering-Advanced event_expired held_back max_consecutive w s limit stored =
        fail-Advanced held_back "event_expired" w.now s stored
    with_rendering-Advanced (unknown_flavor reason) held_back max_consecutive w s limit stored =
        fail-Advanced held_back reason w.now s stored
    with_rendering-Advanced payload_over_cap held_back max_consecutive w s limit stored =
        fail-Advanced held_back "payload_over_cap" w.now s stored
    with_rendering-Advanced (rendered body) held_back max_consecutive w s limit stored =
        let q = λ (d : WebhookDeliveryDoc). is_none d.rendered_body in
        let f = λ (d : WebhookDeliveryDoc). record d { rendered_body = some body } in
        send-Advanced held_back max_consecutive w ((find_and_update dd id q f s.0).1, s.1) limit
          (Holds-find_and_update dd
            (λ d.
              (is_pending d.status ≡ true)
              × (d.is_test ≡ row.is_test)
              × (d.attempt_count ≡ row.attempt_count))
            id id q f s.0 (inl refl) (λ d x m. x) stored)

    with_endpoint-Advanced :
        (o : Option WebhookEndpointDoc) (max_consecutive : ℕ) (w : Surroundings) (s : World dd ed)
        → IsRow id row s
        → Advanced (is_held o w) w.now (with_endpoint dd ed o max_consecutive id row w s)
    unfolding with_endpoint render_and_send
    with_endpoint-Advanced none max_consecutive w s stored =
        fail-Advanced (is_held none w) "endpoint_inactive" w.now s stored
    with_endpoint-Advanced (some p) max_consecutive w s stored =
        let back = is_held (some p) w in
        let limit : has_code w.result.status_code 429 ≡ true → back ≡ true =
          λ limited. ground (arith, limited) in
        if_keeps (Advanced back w.now) (is_disabled p.status) _ _
          (λ off. fail-Advanced back "endpoint_inactive" w.now s stored)
          (λ on.
            if_keeps (Advanced back w.now) (is_paused p.status && not (single_shot row)) _ _
              (λ paused_.
                defer-Advanced back 300 w.now s (ground (arith, paused_)) (omega arith) stored)
              (λ go.
                if_keeps (Advanced back w.now) (is_none row.rendered_body) _ _
                  (λ first.
                    with_rendering-Advanced w.rendering back max_consecutive w s limit stored)
                  (λ frozen. send-Advanced back max_consecutive w s limit stored)))

  -- An attempt on a pending delivery has one of three outcomes, whatever the endpoint's state, the
  -- rendering, the secret and the receiver's answer. The delivery is terminal; or the endpoint is
  -- paused or answers 429, and the delivery is due again within 900 seconds with the same count of
  -- attempts; or the count grows by one, stays below seven, and the delivery is due again after the
  -- delay that the schedule has for that count.
  pub attempt-Progress :
      (max_consecutive id : ℕ) (row : WebhookDeliveryDoc) (w : Surroundings) (s : World dd ed)
      → IsRow id row s
      → Holds dd
          (Progress (is_held (ed.get s.1 row.endpoint_id) w) w.now row)
          (attempt dd ed max_consecutive id row w s).0
          id
  unfolding attempt
  attempt-Progress max_consecutive id row w s stored =
      with_endpoint-Advanced id row (ed.get s.1 row.endpoint_id) max_consecutive w s stored
