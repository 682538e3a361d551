-- ===== src/Webhooks.antt =====
-- Webhook deliveries (services/webhooks, repositories/webhook_endpoint_repository.py,
-- repositories/webhook_delivery_repository.py, schemas/models/webhook.py, schemas/enums/webhook.py):
-- the documents. `Endpoints` and `Deliveries` have the two repositories, `Executor` one attempt,
-- `Claims` the claim loop, and the other modules the proofs.
pub mod Endpoints
pub mod Deliveries
pub mod Executor
pub mod Claims
pub mod Saturated
pub mod Concurrency
pub mod Dispatcher
pub mod Balance
pub mod Slots
pub mod Reserve
pub mod Capped
pub mod Inserted
pub mod SingleShot
pub mod Ladder
pub mod Rounds
pub mod Subscriptions
mod Tests
use spoo.Base.{ℕ, Bool, true, false, Option, String, List}

pub data WebhookStatus : Type 0 where
  active paused disabled : WebhookStatus

pub data DeliveryStatus : Type 0 where
  pending success failed : DeliveryStatus

pub data WebhookFlavor : Type 0 where
  raw discord slack : WebhookFlavor

pub data DisabledReason : Type 0 where
  gone consecutive_failures secret_unreadable admin : DisabledReason

-- `status == DeliveryStatus.PENDING`
abbrev pub is_pending : DeliveryStatus → Bool
is_pending pending = true
is_pending success = false
is_pending failed = false

-- `status == WebhookStatus.DISABLED`, and the same for PAUSED
abbrev pub is_disabled : WebhookStatus → Bool
is_disabled active = false
is_disabled paused = false
is_disabled disabled = true

abbrev pub is_paused : WebhookStatus → Bool
is_paused active = false
is_paused paused = true
is_paused disabled = false

-- An endpoint, but for what only the API shows: description, the secret's prefix and the dates of
-- creation. Its `_id` is its key in the collection. Times are seconds since the epoch.
pub record WebhookEndpointDoc : Type 0 where
  pub user_id : ℕ
  pub url : String
  -- patterns, and the scope: no list stands for "all"
  pub events : List String
  pub links : Option (List ℕ)
  pub flavor : WebhookFlavor
  pub status : WebhookStatus
  pub disabled_reason : Option DisabledReason
  pub consecutive_failures : ℕ
  pub dropped_count : ℕ
  pub pending_count : ℕ
  pub total_deliveries : ℕ
  pub total_successes : ℕ
  pub last_delivery_at : Option ℕ
  pub last_success_at : Option ℕ
  pub last_failure_reason : Option String
  pub updated_at : Option ℕ

pub record DeliveryAttempt : Type 0 where
  pub attempted_at : ℕ
  pub status_code : Option ℕ
  pub duration_ms : Option ℕ
  pub error : Option String
  pub response_body : Option String

pub record WebhookDeliveryDoc : Type 0 where
  pub endpoint_id : ℕ
  pub user_id : ℕ
  pub event_oid : ℕ
  pub event_type : String
  pub webhook_id : String
  pub is_test : Bool
  pub rendered_body : Option String
  pub dropped_since_last : ℕ
  pub status : DeliveryStatus
  pub attempts : List DeliveryAttempt
  pub attempt_count : ℕ
  pub next_attempt_at : Option ℕ
  pub claimed_until : Option ℕ
  pub completed_at : Option ℕ
