-- ===== src/Webhooks/Subscriptions/Matcher.antt =====
-- services/webhooks/matcher.py: the endpoints that an event goes to, with the count of active
-- endpoints that Redis keeps for each owner, under the owner's id.
use spoo.Base.{
  ℕ, ◌==◌, Bool, true, false, ◌&&◌, not, Option, none, some, List, [], ◌∷◌, length, any, str_eq,
  if◌then◌else◌,
}
use spoo.Base.Text.{starts_with}
use spoo.Base.Collection.{Collection}
use spoo.Base.KeyValue.{KeyValue}
use spoo.Webhooks.{WebhookEndpointDoc, WebhookStatus, active, paused, disabled}
use spoo.Webhooks.Subscriptions.{RawId, object_id, malformed, DomainEvent}
use spoo.Webhooks.Subscriptions.Registry.{event_registry, expand}

-- `status == WebhookStatus.ACTIVE`
abbrev pub is_active : WebhookStatus → Bool
is_active active = true
is_active paused = false
is_active disabled = false

-- The filter of `find_active_for_owner`
abbrev pub active_for : ℕ → WebhookEndpointDoc → Bool
active_for owner d = d.user_id == owner && is_active d.status

-- `ObjectId(raw)` where it is valid
abbrev pub valid : RawId → Option ℕ
valid (object_id n) = some n
valid malformed = none

-- `event_link_id`
abbrev pub event_link_id : DomainEvent → Option ℕ
event_link_id event = elim event.data_link_id [
  | some raw ↦ valid raw
  | none ↦ elim event.data_link [ none ↦ none | some none ↦ none | some (some raw) ↦ valid raw ]
]

-- `WebhookScope.matches_link`
abbrev pub matches_link : Option (List ℕ) → Option ℕ → Bool
matches_link none link = true
matches_link (some ids) none = false
matches_link (some ids) (some id) = any (λ i. id == i) ids

-- The two `continue` of the loop.
abbrev pub is_matched : DomainEvent → ℕ × WebhookEndpointDoc → Bool
is_matched event (id, ep) =
    if not (any (str_eq event.event_type) (expand event_registry ep.events))
    then false
    else if starts_with event.event_type "link."
        && not (matches_link ep.links (event_link_id event))
    then false
    else true

-- The loop over the endpoints.
unfoldable pub matched : DomainEvent → List (ℕ × WebhookEndpointDoc) → List (ℕ × WebhookEndpointDoc)
matched event [] = []
matched event (ep ∷ eps) =
    let rest = matched event eps in if is_matched event ep then ep ∷ rest else rest

-- What a read of the cache comes to: an error is a miss.
abbrev pub or_miss : Option (Option ℕ) → Option ℕ
or_miss none = none
or_miss (some raw) = raw

module _ (redis : KeyValue ℕ ℕ) (has_redis : Bool) (ttl : ℕ) where
  -- `OwnerSubscriptionCache`
  unfoldable pub get : ℕ → redis.State → Option ℕ
  get owner r = if has_redis then or_miss (redis.get owner r) else none

  unfoldable pub set : ℕ → ℕ → redis.State → redis.State
  set owner count r = if has_redis then (redis.setex owner ttl count r).1 else r

  unfoldable pub invalidate : ℕ → redis.State → redis.State
  invalidate owner r = if has_redis then (redis.delete owner r).1 else r

  module _ (endpoints : Collection ℕ WebhookEndpointDoc) where
    unfoldable pub find_active_for_owner : ℕ → endpoints.State → List (ℕ × WebhookEndpointDoc)
    find_active_for_owner owner s = endpoints.find (active_for owner) s

    -- After the cache has answered.
    unfoldable pub after_count :
        Option ℕ
        → DomainEvent
        → endpoints.State
        → redis.State
        → List (ℕ × WebhookEndpointDoc) × redis.State
    unfolding find_active_for_owner
    after_count none event s r =
        let found = find_active_for_owner event.owner_id s in
        (matched event found, set event.owner_id (length found) r)
    after_count (some n) event s r =
        if n == 0 then ([], r) else (matched event (find_active_for_owner event.owner_id s), r)

    -- `SubscriptionMatcher.match`
    unfoldable pub match :
        DomainEvent → endpoints.State → redis.State → List (ℕ × WebhookEndpointDoc) × redis.State
    unfolding after_count
    match event s r = after_count (get event.owner_id r) event s r
