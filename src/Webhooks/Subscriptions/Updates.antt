-- ===== src/Webhooks/Subscriptions/Updates.antt =====
-- services/webhooks/service.py: the checks of a request and what it is to write, before the endpoints
-- are touched. Whether the network allows a URL (`validate_public_https_url`) is an argument.
use spoo.Base.{
  ℕ, String, Bool, ◌&&◌, not, Option, none, some, List, [], ◌∷◌, ◌++◌, str_eq, ltb, if◌then◌else◌,
  Result, ok, err, raise_if, ◌>>=◌, ◌>>◌,
}
use spoo.Base.Text.{len}
use spoo.Webhooks.{WebhookEndpointDoc, WebhookFlavor, WebhookStatus, active, is_disabled}
use spoo.Webhooks.Subscriptions.{RawId, object_id, malformed}
use spoo.Webhooks.Subscriptions.Registry.{event_registry, validate_patterns}
use spoo.Webhooks.Subscriptions.Matcher.{is_active}

pub data WebhookError : Type 0 where
  url_too_long url_rejected endpoint_limit invalid_scope_id empty_scope system_set : WebhookError
  endpoint_not_found delivery_not_found still_pending : WebhookError
  unknown_event : String → WebhookError

-- A call's error as one of the service.
abbrev pub known_patterns : List String → Result WebhookError (Unit {0})
known_patterns patterns = elim (validate_patterns event_registry patterns) [
  | ok passed ↦ ok tt
  | err pattern ↦ err (unknown_event pattern)
]

-- `_scope_from_links`: the loop, and the whole
abbrev pub scope_ids : List RawId → Result WebhookError (List ℕ)
scope_ids [] = ok []
scope_ids (malformed ∷ raws) = err invalid_scope_id
scope_ids (object_id n ∷ raws) = scope_ids raws >>= λ ids. ok (n ∷ ids)

abbrev pub non_empty : List ℕ → Result WebhookError (Option (List ℕ))
non_empty [] = err empty_scope
non_empty (n ∷ ids) = ok (some (n ∷ ids))

abbrev pub scope_from_links : Option (List RawId) → Result WebhookError (Option (List ℕ))
scope_from_links none = ok none
scope_from_links (some raws) = scope_ids raws >>= non_empty

-- `_validate_url`
abbrev pub validate_url : (String → Bool) → String → Result WebhookError (Unit {0})
validate_url allowed url =
    raise_if (ltb 2048 (len url)) url_too_long >> raise_if (not (allowed url)) url_rejected

-- The request of `create_endpoint`, and the fields that `update_endpoint` is given.
pub record NewEndpoint : Type 0 where
  pub url : String
  pub events : List String
  pub scope_links : Option (List RawId)
  pub flavor : WebhookFlavor

pub record Fields : Type 0 where
  pub url : Option String
  pub events : Option (List String)
  pub scope_links : Option (Option (List RawId))
  pub has_description : Bool
  pub flavor : Option WebhookFlavor
  pub status : Option WebhookStatus

-- An entry of `updates`; `set_description` writes a field that the model leaves out.
pub data Update : Type 0 where
  set_url : String → Update
  set_events : List String → Update
  set_scope : Option (List ℕ) → Update
  set_description clear_failures : Update
  set_flavor : WebhookFlavor → Update
  set_status : WebhookStatus → Update

abbrev pub apply_update : Update → WebhookEndpointDoc → WebhookEndpointDoc
apply_update (set_url url) d = record d { url = url }
apply_update (set_events events) d = record d { events = events }
apply_update (set_scope links) d = record d { links = links }
apply_update set_description d = d
apply_update clear_failures d = record d {
  disabled_reason = none;
  consecutive_failures = 0;
  dropped_count = 0;
}
apply_update (set_flavor flavor) d = record d { flavor = flavor }
apply_update (set_status status) d = record d { status = status }

abbrev pub apply_all : List Update → WebhookEndpointDoc → WebhookEndpointDoc
apply_all [] d = d
apply_all (u ∷ us) d = apply_all us (apply_update u d)

-- `_status_transition`
abbrev pub status_transition :
    WebhookEndpointDoc → WebhookStatus → Result WebhookError (List Update)
status_transition doc status =
    if is_disabled status
    then err system_set
    else if is_active status && is_disabled doc.status
    then ok (set_status status ∷ clear_failures ∷ [])
    else ok (set_status status ∷ [])

-- The six `if` of `update_endpoint`, each with what it adds.
abbrev pub url_updates :
    (String → Bool) → WebhookEndpointDoc → Option String → Result WebhookError (List Update)
url_updates allowed doc none = ok []
url_updates allowed doc (some url) =
    if str_eq url doc.url then ok [] else validate_url allowed url >> ok (set_url url ∷ [])

abbrev pub events_updates : Option (List String) → Result WebhookError (List Update)
events_updates none = ok []
events_updates (some events) = known_patterns events >> ok (set_events events ∷ [])

abbrev pub scope_updates : Option (Option (List RawId)) → Result WebhookError (List Update)
scope_updates none = ok []
scope_updates (some links) = scope_from_links links >>= λ ids. ok (set_scope ids ∷ [])

abbrev pub flavor_updates : Option WebhookFlavor → List Update
flavor_updates none = []
flavor_updates (some flavor) = set_flavor flavor ∷ []

abbrev pub status_updates :
    WebhookEndpointDoc → Option WebhookStatus → Result WebhookError (List Update)
status_updates doc none = ok []
status_updates doc (some status) = status_transition doc status

unfoldable pub updates_of :
    (String → Bool) → WebhookEndpointDoc → Fields → Result WebhookError (List Update)
updates_of allowed doc fields = url_updates allowed doc fields.url >>= λ urls.
    events_updates fields.events >>= λ events. scope_updates fields.scope_links >>= λ scopes.
    status_updates doc fields.status >>= λ statuses. ok (
      urls
      ++ events
      ++ scopes
      ++ (if fields.has_description then set_description ∷ [] else [])
      ++ flavor_updates fields.flavor
      ++ statuses)

-- The document of a new endpoint.
abbrev pub new_endpoint : ℕ → NewEndpoint → Option (List ℕ) → WebhookEndpointDoc
new_endpoint user new links = record {
  user_id = user;
  url = new.url;
  events = new.events;
  links = links;
  flavor = new.flavor;
  status = active;
  disabled_reason = none;
  consecutive_failures = 0;
  dropped_count = 0;
  pending_count = 0;
  total_deliveries = 0;
  total_successes = 0;
  last_delivery_at = none;
  last_success_at = none;
  last_failure_reason = none;
  updated_at = none;
}

-- The changes of `update_fields`.
abbrev pub updated_fields : List Update → ℕ → WebhookEndpointDoc → WebhookEndpointDoc
updated_fields updates now d = record (apply_all updates d) { updated_at = some now }
