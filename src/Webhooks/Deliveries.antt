-- ===== src/Webhooks/Deliveries.antt =====
-- repositories/webhook_delivery_repository.py: the executor's claim and the writes on one delivery.
use spoo.Base.{
  ℕ, ◌+◌, String, Bool, true, false, ◌&&◌, not, Option, none, some, List, [], ◌∷◌, ◌++◌, any,
  is_none, leb, ◌==◌,
}
use spoo.Base.Collection.{Collection, ascending, find_and_update, find_first_and_update}
use spoo.Webhooks.{WebhookDeliveryDoc, DeliveryAttempt, DeliveryStatus, failed, is_pending}

-- `{"$lte": now}`; null never matches. And the `$or` over `claimed_until`.
abbrev pub is_due : ℕ → Option ℕ → Bool
is_due now none = false
is_due now (some t) = leb t now

abbrev pub is_free : ℕ → Option ℕ → Bool
is_free now none = true
is_free now (some t) = leb t now

-- The query of `claim_due`; an empty list of endpoints adds no clause.
abbrev pub claimable : List ℕ → ℕ → WebhookDeliveryDoc → Bool
claimable exclude now d =
    is_pending d.status
    && (is_due now d.next_attempt_at
        && (is_free now d.claimed_until && not (any (λ e. e == d.endpoint_id) exclude)))

abbrev pub due_time : WebhookDeliveryDoc → ℕ
due_time d = elim d.next_attempt_at [ none ↦ 0 | some t ↦ t ]

-- A delivery that holds a pending slot of the endpoint: the query of `count_pending`.
abbrev pub holds_slot : ℕ → WebhookDeliveryDoc → Bool
holds_slot endpoint d = d.endpoint_id == endpoint && (is_pending d.status && not d.is_test)

abbrev pub rescheduled : DeliveryAttempt → ℕ → WebhookDeliveryDoc → WebhookDeliveryDoc
rescheduled a next d = record d {
  attempts = d.attempts ++ a ∷ [];
  attempt_count = d.attempt_count + 1;
  next_attempt_at = some next;
  claimed_until = none;
}

abbrev pub finished : DeliveryAttempt → DeliveryStatus → ℕ → WebhookDeliveryDoc → WebhookDeliveryDoc
finished a status now d = record d {
  attempts = d.attempts ++ a ∷ [];
  attempt_count = d.attempt_count + 1;
  status = status;
  completed_at = some now;
  next_attempt_at = none;
  claimed_until = none;
}

abbrev pub deferred : ℕ → ℕ → WebhookDeliveryDoc → WebhookDeliveryDoc
deferred delay now d = record d { next_attempt_at = some (now + delay); claimed_until = none }

-- The attempt that `mark_failed` records: no call was made.
abbrev pub no_call : String → ℕ → DeliveryAttempt
no_call reason now = record {
  attempted_at = now;
  status_code = none;
  duration_ms = none;
  error = some reason;
  response_body = none;
}

module _ (db : Collection ℕ WebhookDeliveryDoc) where
  open db use {State, count}

  unfoldable pub count_pending : ℕ → State → ℕ
  count_pending endpoint s = count (holds_slot endpoint) s

  unfoldable pub claim_due : ℕ → List ℕ → ℕ → State → Option (ℕ × WebhookDeliveryDoc) × State
  claim_due lease exclude now s =
      find_first_and_update db ascending (λ k d. claimable exclude now d) due_time
        (λ d. record d { claimed_until = some (now + lease) }) s

  unfoldable pub set_rendered_body : ℕ → String → State → State
  set_rendered_body id body s =
      (find_and_update db id (λ d. is_none d.rendered_body)
        (λ d. record d { rendered_body = some body }) s).1

  unfoldable pub record_attempt_and_reschedule : ℕ → DeliveryAttempt → ℕ → State → State
  record_attempt_and_reschedule id a next s =
      (find_and_update db id (λ d. true) (rescheduled a next) s).1

  -- `_finish`: whether the document was pending before.
  abbrev pub was_pending : Option WebhookDeliveryDoc → Bool
  was_pending none = false
  was_pending (some d) = is_pending d.status

  unfoldable pub record_attempt_and_finish :
      ℕ → DeliveryAttempt → DeliveryStatus → ℕ → State → Bool × State
  record_attempt_and_finish id a status now s =
      let (before, s') = find_and_update db id (λ d. true) (finished a status now) s in
      (was_pending before, s')

  unfoldable pub defer : ℕ → ℕ → ℕ → State → State
  defer id delay now s = (find_and_update db id (λ d. true) (deferred delay now) s).1

  unfoldable pub mark_failed : ℕ → String → ℕ → State → Bool × State
  mark_failed id reason now s =
      let (before, s') =
        find_and_update db id (λ d. true) (finished (no_call reason now) failed now) s in
      (was_pending before, s')
