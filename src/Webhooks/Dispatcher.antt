-- ===== src/Webhooks/Dispatcher.antt =====
-- services/webhooks/dispatcher.py: an event becomes one delivery for each matched endpoint, under the
-- pending cap. The new `_id`s and webhook ids and the two clocks are arguments.
use spoo.Base.{
  ℕ, ◌+◌, String, Bool, true, false, none, some, List, [], ◌∷◌, ◌++◌, ltb, leb, ◌==◌, if◌then◌else◌,
}
use spoo.Base.Collection.{Collection}
use spoo.Webhooks.{WebhookEndpointDoc, WebhookDeliveryDoc, pending}
use spoo.Webhooks.Deliveries.{count_pending}
use spoo.Webhooks.Endpoints.{reserve_pending, set_pending_count, increment_dropped}

-- A matched endpoint as the matcher read it, with what the loop draws for it: the row's `_id` and
-- webhook id, the wall clock, and the monotonic clock.
pub record Target : Type 0 where
  pub endpoint_id : ℕ
  pub endpoint : WebhookEndpointDoc
  pub row_id : ℕ
  pub webhook_id : String
  pub now : ℕ
  pub monotonic : ℕ

abbrev pub make_delivery_row : ℕ → String → Target → WebhookDeliveryDoc
make_delivery_row event_oid event_type t = record {
  endpoint_id = t.endpoint_id;
  user_id = t.endpoint.user_id;
  event_oid = event_oid;
  event_type = event_type;
  webhook_id = t.webhook_id;
  is_test = false;
  rendered_body = none;
  dropped_since_last = t.endpoint.dropped_count;
  status = pending;
  attempts = [];
  attempt_count = 0;
  next_attempt_at = some t.now;
  claimed_until = none;
  completed_at = none;
}

-- `_recount_not_before`: a key that is not there reads as 0.
abbrev pub Throttle : Type 0
Throttle = ℕ → ℕ

module _ (dd : Collection ℕ WebhookDeliveryDoc) where
  -- `insert_many_rows`
  unfoldable pub insert_many_rows : ℕ → String → List Target → dd.State → dd.State
  insert_many_rows event_oid event_type [] deliveries = deliveries
  insert_many_rows event_oid event_type (t ∷ ts) deliveries =
      insert_many_rows event_oid event_type ts
        (dd.put t.row_id (make_delivery_row event_oid event_type t) deliveries)

module _ (dd : Collection ℕ WebhookDeliveryDoc) (ed : Collection ℕ WebhookEndpointDoc)
    (max_pending recount_interval : ℕ) where
  -- The throttle and the endpoints. The loop only counts deliveries.
  abbrev pub Reserved : Type 0
  Reserved = Throttle × ed.State

  -- After the counter has been set to the real count.
  unfoldable pub reserve_recounted : ℕ → ℕ → ed.State → Bool × ed.State
  reserve_recounted id counted endpoints =
      if leb max_pending counted
      then (false, endpoints)
      else reserve_pending ed id max_pending endpoints

  -- The recount, once the throttle lets it pass.
  unfoldable pub recount : ℕ → dd.State → ed.State → Bool × ed.State
  unfolding reserve_recounted
  recount id deliveries endpoints =
      let counted = count_pending dd id deliveries in
      let (previous, repaired) = set_pending_count ed id counted endpoints in
      reserve_recounted id counted repaired

  unfoldable pub reserve_slot : ℕ → ℕ → dd.State → Reserved → Bool × Reserved
  unfolding recount
  reserve_slot id now deliveries (throttle, endpoints) =
      let (free, taken) = reserve_pending ed id max_pending endpoints in
      if free
      then (true, (throttle, taken))
      else if ltb now (throttle id)
      then (false, (throttle, taken))
      else let (done, settled) = recount id deliveries taken in
        (done, ((λ x. if x == id then now + recount_interval else throttle x), settled))

  -- What the loop does with the answer: a row more, or a drop counted.
  unfoldable pub queue : Target → Bool × Reserved → List Target × Reserved
  queue t (reserved, (throttle, endpoints)) =
      if reserved
      then (t ∷ [], (throttle, endpoints))
      else ([], (throttle, increment_dropped ed t.endpoint_id endpoints))

  -- The loop over the matched endpoints: those that get a row, in order.
  unfoldable pub reserve_all : List Target → dd.State → Reserved → List Target × Reserved
  unfolding reserve_slot queue
  reserve_all [] deliveries s = ([], s)
  reserve_all (t ∷ ts) deliveries s =
      let (row, s') = queue t (reserve_slot t.endpoint_id t.monotonic deliveries s) in
      let (rows, s'') = reserve_all ts deliveries s' in (row ++ rows, s'')

  unfoldable pub dispatch :
      ℕ → String → List Target → Throttle → dd.State × ed.State → Throttle × dd.State × ed.State
  unfolding reserve_all insert_many_rows
  dispatch event_oid event_type targets throttle (deliveries, endpoints) =
      let (rows, (throttle', endpoints')) = reserve_all targets deliveries (throttle, endpoints) in
      (throttle', insert_many_rows dd event_oid event_type rows deliveries, endpoints')
