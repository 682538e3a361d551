-- ===== src/Webhooks/Subscriptions/Service.antt =====
-- services/webhooks/service.py: what changes endpoints. The new `_id` and the clock are arguments.
-- Test sends and manual retries are in Sends; the signing secret and the delivery log are left out.
use spoo.Base.{
  ℕ, ◌==◌, String, Bool, true, Option, none, some, List, [], ◌∷◌, leb, if◌then◌else◌, Result, ok,
  err, raise_if, ◌>>◌,
}
use spoo.Base.Collection.{Collection, find_and_update}
use spoo.Base.KeyValue.{KeyValue}
use spoo.Webhooks.{WebhookEndpointDoc}
use spoo.Webhooks.Subscriptions.Matcher.{invalidate}
use spoo.Webhooks.Subscriptions.Updates.{
  Fields, NewEndpoint, Update, WebhookError, known_patterns, new_endpoint, scope_from_links,
  updated_fields, updates_of, validate_url, endpoint_limit, endpoint_not_found,
}

module _ (redis : KeyValue ℕ ℕ) (has_redis : Bool) (ttl : ℕ)
    (endpoints : Collection ℕ WebhookEndpointDoc) where
  -- The collection and the cache.
  abbrev pub Site : Type 0
  Site = endpoints.State × redis.State

  -- `find_owned`, and `get_endpoint`, which raises where there is none
  abbrev pub owned_by : ℕ → Option WebhookEndpointDoc → Option WebhookEndpointDoc
  owned_by user none = none
  owned_by user (some d) = if d.user_id == user then some d else none

  unfoldable pub find_owned : ℕ → ℕ → endpoints.State → Option WebhookEndpointDoc
  find_owned id user s = owned_by user (endpoints.get s id)

  abbrev pub or_not_found : Option WebhookEndpointDoc → Result WebhookError WebhookEndpointDoc
  or_not_found none = err endpoint_not_found
  or_not_found (some d) = ok d

  unfoldable pub get_endpoint : ℕ → ℕ → endpoints.State → Result WebhookError WebhookEndpointDoc
  unfolding find_owned
  get_endpoint id user s = or_not_found (find_owned id user s)

  -- The checks of `create_endpoint`, in their order.
  unfoldable pub checked_scope :
      (String → Bool)
      → ℕ
      → ℕ
      → NewEndpoint
      → endpoints.State
      → Result WebhookError (Option (List ℕ))
  checked_scope allowed max_endpoints user new s =
      validate_url allowed new.url
      >> known_patterns new.events
      >> raise_if (leb max_endpoints (endpoints.count (λ d. d.user_id == user) s)) endpoint_limit
      >> scope_from_links new.scope_links

  -- After the checks: the insert.
  unfoldable pub insert :
      Result WebhookError (Option (List ℕ))
      → ℕ
      → ℕ
      → NewEndpoint
      → Site
      → Result WebhookError WebhookEndpointDoc × Site
  insert (err e) user id new (s, r) = (err e, (s, r))
  insert (ok links) user id new (s, r) =
      let doc = new_endpoint user new links in
      (ok doc, (endpoints.put id doc s, invalidate redis has_redis ttl user r))

  unfoldable pub create_endpoint :
      (String → Bool)
      → ℕ
      → ℕ
      → ℕ
      → NewEndpoint
      → Site
      → Result WebhookError WebhookEndpointDoc × Site
  unfolding checked_scope insert
  create_endpoint allowed max_endpoints user id new (s, r) =
      insert (checked_scope allowed max_endpoints user new s) user id new (s, r)

  -- The writes of `update_endpoint`: none where nothing is to change.
  unfoldable pub write : List Update → ℕ → ℕ → ℕ → Site → Site
  write [] id user now (s, r) = (s, r)
  write (u ∷ us) id user now (s, r) = (
    (find_and_update endpoints id (λ d. true) (updated_fields (u ∷ us) now) s).1,
    invalidate redis has_redis ttl user r,
  )

  -- After the updates have been computed.
  unfoldable pub store :
      Result WebhookError (List Update)
      → ℕ
      → ℕ
      → ℕ
      → Site
      → Result WebhookError WebhookEndpointDoc × Site
  unfolding write get_endpoint
  store (err e) id user now site = (err e, site)
  store (ok updates) id user now site =
      let site' = write updates id user now site in (get_endpoint id user site'.0, site')

  -- After the endpoint was looked up.
  unfoldable pub update_found :
      Result WebhookError WebhookEndpointDoc
      → (String → Bool)
      → ℕ
      → ℕ
      → Fields
      → ℕ
      → Site
      → Result WebhookError WebhookEndpointDoc × Site
  unfolding store updates_of
  update_found (err e) allowed id user fields now site = (err e, site)
  update_found (ok doc) allowed id user fields now site =
      store (updates_of allowed doc fields) id user now site

  unfoldable pub update_endpoint :
      (String → Bool) → ℕ → ℕ → Fields → ℕ → Site → Result WebhookError WebhookEndpointDoc × Site
  unfolding update_found get_endpoint
  update_endpoint allowed id user fields now site =
      update_found (get_endpoint id user site.0) allowed id user fields now site

  -- `delete_endpoint` of the service, over `delete_one` on `{"_id": ..., "user_id": ...}`.
  unfoldable pub delete_found :
      Option WebhookEndpointDoc → ℕ → ℕ → Site → Result WebhookError (Unit {0}) × Site
  delete_found none id user site = (err endpoint_not_found, site)
  delete_found (some d) id user (s, r) =
      (ok tt, (endpoints.delete id s, invalidate redis has_redis ttl user r))

  unfoldable pub delete_endpoint : ℕ → ℕ → Site → Result WebhookError (Unit {0}) × Site
  unfolding delete_found find_owned
  delete_endpoint id user site = delete_found (find_owned id user site.0) id user site

  -- `delete_by_user` of the repository: the erasure of an account, past the cache.
  unfoldable pub delete_by_user : ℕ → Site → Site
  delete_by_user user (s, r) = (endpoints.delete_many (λ d. d.user_id == user) s, r)
