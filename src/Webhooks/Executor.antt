-- ===== src/Webhooks/Executor.antt =====
-- services/webhooks/executor.py: one attempt. What other parts answer is an argument: the event and
-- the renderer's text (`rendering`), whether the stored secret can be read, the HTTP result and the
-- clock, read once. Logging and the notification of the owner on a disabled endpoint are left out.
use spoo.Base.{
  ℕ, zero, suc, ◌+◌, ◌/◌, String, Bool, false, ◌&&◌, ◌||◌, not, Option, none, some, List, [], ◌∷◌,
  leb, ltb, ◌==◌, if◌then◌else◌, length, is_none,
}
use Prim.Native.Nat.{min}
use spoo.Base.Collection.{Collection}
use spoo.Webhooks.{
  WebhookEndpointDoc, WebhookDeliveryDoc, DeliveryAttempt, DeliveryStatus, success, failed, gone,
  consecutive_failures, secret_unreadable, is_pending, is_disabled, is_paused,
}
use spoo.Webhooks.Endpoints.{record_success, record_exhausted, release_pending, disable}
use spoo.Webhooks.Deliveries.{
  record_attempt_and_finish, record_attempt_and_reschedule, defer, mark_failed, set_rendered_body,
}

abbrev pub retry_schedule_seconds : List ℕ
retry_schedule_seconds = 0 ∷ 5 ∷ 300 ∷ 1800 ∷ 7200 ∷ 18000 ∷ 36000 ∷ []

-- `RETRY_SCHEDULE_SECONDS[n]`, read within the bounds.
abbrev pub get_or : List ℕ → ℕ → ℕ → ℕ
get_or [] n d = d
get_or (x ∷ xs) zero d = x
get_or (x ∷ xs) (suc n) d = get_or xs n d

abbrev pub rate_limit_fallback_seconds : ℕ
rate_limit_fallback_seconds = 60

abbrev pub rate_limit_max_defer_seconds : ℕ
rate_limit_max_defer_seconds = 900

-- A non-negative float, as `float.as_integer_ratio` gives it: `n / (d + 1)`, or infinity.
pub data Float : Type 0 where
  ratio : ℕ → ℕ → Float
  infinity : Float

-- What `post_public` returns.
pub record PostResult : Type 0 where
  pub status_code : Option ℕ
  pub error : Option String
  pub body_snippet : Option String
  pub retry_after_seconds : Option Float

-- What `_render` comes to where the row has no frozen body.
pub data Rendering : Type 0 where
  event_expired payload_over_cap : Rendering
  unknown_flavor : String → Rendering
  rendered : String → Rendering

pub record Surroundings : Type 0 where
  pub rendering : Rendering
  pub secret_readable : Bool
  pub result : PostResult
  pub duration_ms : ℕ
  pub now : ℕ
  -- `result.error or f"status {result.status_code}"`
  pub failure : String

-- `int(min(retry_after_seconds or FALLBACK, MAX))`: zero is falsy. The maximum is whole, so that the
-- part of a second may be dropped before the comparison.
abbrev pub rate_limit_delay : Option Float → ℕ
rate_limit_delay none = min rate_limit_fallback_seconds rate_limit_max_defer_seconds
rate_limit_delay (some infinity) = rate_limit_max_defer_seconds
rate_limit_delay (some (ratio n d)) =
    if n == 0
    then min rate_limit_fallback_seconds rate_limit_max_defer_seconds
    else min (n / (d + 1)) rate_limit_max_defer_seconds

abbrev pub is_success : Option ℕ → Bool
is_success none = false
is_success (some c) = leb 200 c && ltb c 300

abbrev pub has_code : Option ℕ → ℕ → Bool
has_code none n = false
has_code (some c) n = c == n

abbrev pub single_shot : WebhookDeliveryDoc → Bool
single_shot row = row.is_test || not (is_pending row.status)

abbrev pub attempt_of : Surroundings → DeliveryAttempt
attempt_of w = record {
  attempted_at = w.now;
  status_code = w.result.status_code;
  duration_ms = some w.duration_ms;
  error = w.result.error;
  response_body = w.result.body_snippet;
}

module _ (dd : Collection ℕ WebhookDeliveryDoc) (ed : Collection ℕ WebhookEndpointDoc) where
  -- The contents of the two collections.
  abbrev pub World : Type 0
  World = dd.State × ed.State

  -- `if await ...: await self._release_slot(row)`
  abbrev pub settle : WebhookDeliveryDoc → Bool × dd.State → ed.State → World
  settle row (was, deliveries) endpoints = (
    deliveries,
    if was
        then if row.is_test then endpoints else release_pending ed row.endpoint_id endpoints
        else endpoints,
  )

  unfoldable pub finish :
      ℕ → WebhookDeliveryDoc → DeliveryAttempt → DeliveryStatus → ℕ → World → World
  finish id row a status now (deliveries, endpoints) =
      settle row (record_attempt_and_finish dd id a status now deliveries) endpoints

  unfoldable pub fail : ℕ → WebhookDeliveryDoc → String → ℕ → World → World
  fail id row reason now (deliveries, endpoints) =
      settle row (mark_failed dd id reason now deliveries) endpoints

  abbrev pub on_endpoints : (ed.State → ed.State) → World → World
  on_endpoints f (deliveries, endpoints) = (deliveries, f endpoints)

  abbrev pub on_deliveries : (dd.State → dd.State) → World → World
  on_deliveries f (deliveries, endpoints) = (f deliveries, endpoints)

  -- The end of the ladder: the row fails, the streak grows, and a long streak disables the endpoint.
  unfoldable pub exhaust : ℕ → ℕ → WebhookDeliveryDoc → Surroundings → World → World
  unfolding finish
  exhaust max_consecutive id row w s =
      let (deliveries, endpoints) = finish id row (attempt_of w) failed w.now s in
      let (streak, endpoints') = record_exhausted ed row.endpoint_id w.failure w.now endpoints in
      (
        deliveries,
        if leb max_consecutive streak
            then disable ed row.endpoint_id consecutive_failures w.now endpoints'
            else endpoints',
      )

  -- After the call, in the order of the code.
  unfoldable pub settle_result : ℕ → ℕ → WebhookDeliveryDoc → Surroundings → World → World
  unfolding finish exhaust
  settle_result max_consecutive id row w s =
      if is_success w.result.status_code
      then (if single_shot row
          then finish id row (attempt_of w) success w.now s
          else on_endpoints (λ e. (record_success ed row.endpoint_id w.now e).1)
              (finish id row (attempt_of w) success w.now s))
      else if has_code w.result.status_code 429 && not (single_shot row)
      then on_deliveries (defer dd id (rate_limit_delay w.result.retry_after_seconds) w.now) s
      else if single_shot row
      then finish id row (attempt_of w) failed w.now s
      else if has_code w.result.status_code 410
      then on_endpoints (disable ed row.endpoint_id gone w.now)
          (finish id row (attempt_of w) failed w.now s)
      else if leb (length retry_schedule_seconds) (row.attempt_count + 1)
      then exhaust max_consecutive id row w s
      else on_deliveries
          (record_attempt_and_reschedule dd id (attempt_of w)
            (w.now + get_or retry_schedule_seconds (row.attempt_count + 1) 0))
          s

  -- From the body on: an unreadable secret ends the row, and disables the endpoint of a normal one.
  unfoldable pub send : ℕ → ℕ → WebhookDeliveryDoc → Surroundings → World → World
  unfolding settle_result fail
  send max_consecutive id row w s =
      if w.secret_readable
      then settle_result max_consecutive id row w s
      else if single_shot row
      then fail id row "secret_unreadable" w.now s
      else on_endpoints (disable ed row.endpoint_id secret_unreadable w.now)
          (fail id row "secret_unreadable" w.now s)

  -- `_render`: a terminal failure, or a body that is frozen on the row and sent.
  unfoldable pub with_rendering :
      Rendering → ℕ → ℕ → WebhookDeliveryDoc → Surroundings → World → World
  unfolding send fail
  with_rendering event_expired max_consecutive id row w s = fail id row "event_expired" w.now s
  with_rendering (unknown_flavor reason) max_consecutive id row w s = fail id row reason w.now s
  with_rendering payload_over_cap max_consecutive id row w s =
      fail id row "payload_over_cap" w.now s
  with_rendering (rendered body) max_consecutive id row w s =
      send max_consecutive id row w (on_deliveries (set_rendered_body dd id body) s)

  unfoldable pub render_and_send : ℕ → ℕ → WebhookDeliveryDoc → Surroundings → World → World
  unfolding with_rendering
  render_and_send max_consecutive id row w s =
      if is_none row.rendered_body
      then with_rendering w.rendering max_consecutive id row w s
      else send max_consecutive id row w s

  -- After the endpoint was looked up.
  unfoldable pub with_endpoint :
      Option WebhookEndpointDoc → ℕ → ℕ → WebhookDeliveryDoc → Surroundings → World → World
  unfolding render_and_send fail
  with_endpoint none max_consecutive id row w s = fail id row "endpoint_inactive" w.now s
  with_endpoint (some endpoint) max_consecutive id row w s =
      if is_disabled endpoint.status
      then fail id row "endpoint_inactive" w.now s
      else if is_paused endpoint.status && not (single_shot row)
      then on_deliveries (defer dd id 300 w.now) s
      else render_and_send max_consecutive id row w s

  unfoldable pub attempt : ℕ → ℕ → WebhookDeliveryDoc → Surroundings → World → World
  unfolding with_endpoint
  attempt max_consecutive id row w s =
      with_endpoint (ed.get s.1 row.endpoint_id) max_consecutive id row w s
