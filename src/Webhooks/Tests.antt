-- ===== src/Webhooks/Tests.antt =====
-- Tests of the deliveries, and their theorems at concrete inputs.
use spoo.Base.{
  ℕ, ◌⊎◌, ◌≤◌, ◌≡◌, refl, true, false, none, some, List, [], ◌∷◌, inl, inr, arith, ℕ-cases,
}
use spoo.Base.Collection.{Collection, Holds, find_and_update}
use spoo.Base.Memory.{by_id}
use spoo.Webhooks.{
  WebhookEndpointDoc, WebhookDeliveryDoc, active, pending, raw, is_pending, disabled,
  consecutive_failures,
}
use spoo.Webhooks.Deliveries.{count_pending, set_rendered_body, record_attempt_and_finish}
use spoo.Webhooks.Endpoints.{
  reserve_pending, set_pending_count, release_pending, record_exhausted, disable,
}
use spoo.Webhooks.Dispatcher.{
  Target, Throttle, dispatch, reserve_all, reserve_slot, recount, reserve_recounted, queue,
  insert_many_rows,
}
use spoo.Webhooks.Inserted.{IsNear, dispatch-Capped}
use spoo.Webhooks.Executor.{
  rate_limit_delay, ratio, infinity, World, Surroundings, rendered, attempt, with_endpoint,
  render_and_send, send, settle_result, exhaust, finish,
}
use spoo.Webhooks.Balance.{Balanced}
use spoo.Webhooks.Slots.{attempt-Balanced}
use spoo.Webhooks.Ladder.{Progress, is_held, attempt-Progress}
use spoo.Webhooks.Rounds.{Round, rounds, rounds-IsOver}
use spoo.Webhooks.Claims.{Loop, Reaches, at_start, after, asks, gets, ask, answer, saturated}
use spoo.Webhooks.Saturated.{working, working_for}
use spoo.Webhooks.Concurrency.{Reaches-working}

abbrev dd : Collection ℕ WebhookDeliveryDoc
dd = by_id {D = WebhookDeliveryDoc}

abbrev ed : Collection ℕ WebhookEndpointDoc
ed = by_id {D = WebhookEndpointDoc}

abbrev endpoint : WebhookEndpointDoc
endpoint = record {
  user_id = 1;
  url = "https://hooks.example/a";
  events = "link.*" ∷ [];
  links = none;
  flavor = raw;
  status = active;
  disabled_reason = none;
  consecutive_failures = 9;
  dropped_count = 0;
  pending_count = 1;
  total_deliveries = 5;
  total_successes = 4;
  last_delivery_at = none;
  last_success_at = none;
  last_failure_reason = none;
  updated_at = none;
}

abbrev delivery : WebhookDeliveryDoc
delivery = record {
  endpoint_id = 3;
  user_id = 1;
  event_oid = 40;
  event_type = "link.created";
  webhook_id = "msg_1";
  is_test = false;
  rendered_body = none;
  dropped_since_last = 0;
  status = pending;
  attempts = [];
  attempt_count = 6;
  next_attempt_at = some 100;
  claimed_until = some 160;
  completed_at = none;
}

abbrev refused : Surroundings
refused = record {
  rendering = rendered "{}";
  secret_readable = true;
  result = record {
    status_code = some 500;
    error = none;
    body_snippet = none;
    retry_after_seconds = none;
  };
  duration_ms = 12;
  now = 101;
  failure = "status 500";
}

abbrev endpoints : ed.State
endpoints = ((3, endpoint) ∷ [], (refl, tt))

abbrev world : World dd ed
world = (((8, delivery) ∷ [], (refl, tt)), endpoints)

abbrev test_send : WebhookDeliveryDoc
test_send = record delivery { is_test = true; attempt_count = 0 }

abbrev test_world : World dd ed
test_world = (((8, test_send) ∷ [], (refl, tt)), endpoints)

-- The seventh failure disables an endpoint whose streak becomes ten.
exhausted_test :
    ed.get (attempt dd ed 10 8 delivery refused world).1 3
    ≡ some (record endpoint {
      consecutive_failures = 10;
      pending_count = 0;
      last_delivery_at = some 101;
      last_failure_reason = some "status 500";
      status = disabled;
      disabled_reason = some consecutive_failures;
      updated_at = some 101;
    })
unfolding attempt with_endpoint render_and_send send settle_result exhaust finish
    record_attempt_and_finish find_and_update release_pending record_exhausted disable
    set_rendered_body
exhausted_test = refl

saturated_test : saturated 2 (5 ∷ 3 ∷ 5 ∷ 4 ∷ 3 ∷ 5 ∷ []) ≡ 5 ∷ 3 ∷ []
saturated_test = refl

attempt-Balanced_example : Balanced dd ed 3 0 (attempt dd ed 10 8 delivery refused world)
attempt-Balanced_example =
    attempt-Balanced dd ed 3 0 10 8 delivery refused world (delivery, refl, (refl, refl))
      (endpoint, refl, refl)

attempt-Progress_example :
    Holds dd (Progress false 101 delivery) (attempt dd ed 10 8 delivery refused world).0 8
attempt-Progress_example =
    attempt-Progress dd ed 10 8 delivery refused world (delivery, refl, (refl, refl, refl))

abbrev one_round : List (Round dd ed)
one_round = record { endpoints = endpoints; surroundings = refused } ∷ []

one_round-IsFirm : (e : ℕ) → is_held (ed.get endpoints e) refused ≡ false
one_round-IsFirm e = elim (ℕ-cases 3 e) [ inl p ↦ ground (arith, p) | inr n ↦ ground (arith, n) ]

rounds-IsOver_example :
    Holds dd (λ e. is_pending e.status ≡ false) (rounds dd ed 10 8 one_round world).0 8
rounds-IsOver_example =
    rounds-IsOver dd ed 10 8 one_round delivery world refl (omega arith) (omega arith)
      (one_round-IsFirm, tt)

abbrev idle : Loop dd
idle = record { slots = 1; in_flight = []; asked = none; deliveries = world.0 }

abbrev waiting : Loop dd
waiting = record idle { slots = 0; asked = some [] }

claims_test : Reaches dd 1 60 idle (answer dd 60 [] 200 waiting)
unfolding ask
claims_test = after (after at_start (asks (omega arith) refl refl)) (gets [] 200 refl refl)

Reaches-working_example :
    (working (answer dd 60 [] 200 waiting).in_flight ≤ 1)
    × (working_for 3 (answer dd 60 [] 200 waiting).in_flight ≤ 1)
Reaches-working_example =
    Reaches-working dd 1 1 60 3 (world.0) (answer dd 60 [] 200 waiting) (omega arith) claims_test

abbrev target : Target
target = record {
  endpoint_id = 3;
  endpoint = endpoint;
  row_id = 9;
  webhook_id = "msg_2";
  now = 300;
  monotonic = 50;
}

-- The counter says 5 and the cap is 2: the recount finds one delivery, and the slot is given.
abbrev drifted : ed.State
drifted = ((3, record endpoint { pending_count = 5 }) ∷ [], (refl, tt))

abbrev dispatched : Throttle × dd.State × ed.State
dispatched = dispatch dd ed 2 30 41 "link.created" (target ∷ []) (λ x. 0) (world.0, drifted)

recount_test : count_pending dd 3 (dispatched.1) ≡ 2
unfolding dispatch reserve_all reserve_slot recount reserve_recounted queue insert_many_rows
    count_pending reserve_pending set_pending_count find_and_update
recount_test = refl

dispatch-Capped_example :
    IsNear dd ed 2 30 (world.0) 3 4 (dispatched.1) (dispatched.2)
    × ((count_pending dd 3 (dispatched.1) ≡ count_pending dd 3 (world.0))
        ⊎ (count_pending dd 3 (dispatched.1) ≤ 2))
unfolding count_pending
dispatch-Capped_example =
    dispatch-Capped dd ed 2 30 (world.0) 41 "link.created" 3 4 (target ∷ []) (λ x. 0) drifted
      (omega arith) (refl, tt, tt)
      (record endpoint { pending_count = 5 }, refl, (omega arith, omega arith))

-- A part of a second is dropped, and a long wait is cut.
delay_test :
    (rate_limit_delay (some (ratio 1 1)) ≡ 0)
    × (rate_limit_delay (some (ratio 0 0)) ≡ 60)
    × (rate_limit_delay (some (ratio 7 1)) ≡ 3)
    × (rate_limit_delay (some infinity) ≡ 900)
delay_test = (refl, refl, refl, refl)
