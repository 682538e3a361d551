-- ===== src/Webhooks/Endpoints.antt =====
-- repositories/webhook_endpoint_repository.py: the health counters and the pending slots.
use spoo.Base.{ℕ, ◌+◌, ◌-◌, String, Bool, true, not, none, some, is_none, ltb}
use spoo.Base.Collection.{Collection, find_and_update}
use spoo.Webhooks.{WebhookEndpointDoc, DisabledReason, disabled}

abbrev pub succeeded : ℕ → WebhookEndpointDoc → WebhookEndpointDoc
succeeded now e = record e {
  consecutive_failures = 0;
  dropped_count = 0;
  last_delivery_at = some now;
  last_success_at = some now;
  total_successes = e.total_successes + 1;
}

abbrev pub exhausted : String → ℕ → WebhookEndpointDoc → WebhookEndpointDoc
exhausted reason now e = record e {
  last_delivery_at = some now;
  last_failure_reason = some reason;
  consecutive_failures = e.consecutive_failures + 1;
}

abbrev pub reserved : WebhookEndpointDoc → WebhookEndpointDoc
reserved e = record e {
  pending_count = e.pending_count + 1;
  total_deliveries = e.total_deliveries + 1;
}

abbrev pub released : WebhookEndpointDoc → WebhookEndpointDoc
released e = record e { pending_count = e.pending_count - 1 }

abbrev pub now_disabled : DisabledReason → ℕ → WebhookEndpointDoc → WebhookEndpointDoc
now_disabled reason now e = record e {
  status = disabled;
  disabled_reason = some reason;
  updated_at = some now;
}

module _ (db : Collection ℕ WebhookEndpointDoc) where
  open db use {State}

  -- The drained `dropped_count`.
  unfoldable pub record_success : ℕ → ℕ → State → ℕ × State
  record_success id now s =
      let (before, s') = find_and_update db id (λ e. true) (succeeded now) s in
      (elim before [ none ↦ 0 | some e ↦ e.dropped_count ], s')

  -- The new streak.
  unfoldable pub record_exhausted : ℕ → String → ℕ → State → ℕ × State
  record_exhausted id reason now s =
      let (before, s') = find_and_update db id (λ e. true) (exhausted reason now) s in
      (elim before [ none ↦ 0 | some e ↦ e.consecutive_failures + 1 ], s')

  unfoldable pub reserve_pending : ℕ → ℕ → State → Bool × State
  reserve_pending id cap s =
      let (before, s') = find_and_update db id (λ e. ltb e.pending_count cap) reserved s in
      (not (is_none before), s')

  unfoldable pub release_pending : ℕ → State → State
  release_pending id s = (find_and_update db id (λ e. ltb 0 e.pending_count) released s).1

  -- The counter that was replaced.
  unfoldable pub set_pending_count : ℕ → ℕ → State → ℕ × State
  set_pending_count id n s =
      let (before, s') =
        find_and_update db id (λ e. true) (λ e. record e { pending_count = n }) s in
      (elim before [ none ↦ 0 | some e ↦ e.pending_count ], s')

  unfoldable pub increment_dropped : ℕ → State → State
  increment_dropped id s =
      (find_and_update db id (λ e. true) (λ e. record e { dropped_count = e.dropped_count + 1 })
        s).1

  unfoldable pub disable : ℕ → DisabledReason → ℕ → State → State
  disable id reason now s = (find_and_update db id (λ e. true) (now_disabled reason now) s).1
