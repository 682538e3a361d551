-- ===== src/Webhooks/Subscriptions/Tests.antt =====
-- Tests of the webhook subscriptions, and their theorems at concrete inputs.
use spoo.Base.{
  ℕ, ◌==◌, ==_iff, String, Bool, true, false, none, some, List, [], ◌∷◌, ◌≡◌, ◌↔◌, refl, ok, err,
  Listed,
}
use spoo.Base.Collection.{Collection, find_and_update}
use spoo.Base.Memory.{by_id}
use spoo.Base.KeyValue.{KeyValue, in_memory}
use spoo.Webhooks.Executor.{World, Surroundings, rendered}
use spoo.Webhooks.Subscriptions.Sends.{test_row, Leaves, send_test, retry_delivery, sends-Leaves}
use spoo.Webhooks.{
  WebhookDeliveryDoc, DeliveryStatus, WebhookEndpointDoc, raw, active, disabled, gone,
}
use spoo.Webhooks.Endpoints.{disable}
use spoo.Webhooks.Subscriptions.{DomainEvent, object_id}
use spoo.Webhooks.Subscriptions.Registry.{event_registry, expand, expand_from, validate_patterns}
use spoo.Webhooks.Subscriptions.Matcher.{
  match, after_count, matched, get, set, invalidate, find_active_for_owner,
}
use spoo.Webhooks.Subscriptions.Updates.{
  NewEndpoint, Fields, new_endpoint, updates_of, unknown_event, empty_scope, endpoint_limit,
  system_set, endpoint_not_found,
}
use spoo.Webhooks.Subscriptions.Service.{
  create_endpoint, update_endpoint, update_found, store, write, insert, checked_scope, get_endpoint,
  find_owned,
}
use spoo.Webhooks.Subscriptions.Kept.{State, IsQuiet}
use spoo.Webhooks.Subscriptions.Steps.{start, next, creates, matches, disables, Reaches-IsQuiet}
use spoo.Webhooks.Subscriptions.Matched.{Wants, match-Wants}

abbrev redis : KeyValue ℕ ℕ
redis = in_memory ◌==◌ ==_iff

abbrev db : Collection ℕ WebhookEndpointDoc
db = by_id {D = WebhookEndpointDoc}

abbrev new : List String → NewEndpoint
new events = record {
  url = "https://example.com/hook";
  events = events;
  scope_links = some (object_id 5 ∷ []);
  flavor = raw;
}

abbrev allowed : String → Bool
allowed url = true

abbrev empty : State redis true 60 db
empty = (([], tt), λ owner. none)

abbrev click_on : ℕ → DomainEvent
click_on link = record {
  event_type = "link.clicked";
  owner_id = 7;
  data_link_id = some (object_id link);
  data_link = none;
}

expand_test :
    (expand event_registry ("link.created" ∷ "nothing" ∷ []) ≡ "link.created" ∷ [])
    × (expand event_registry ("link.*" ∷ []) ≡ expand event_registry ("*" ∷ "link.created" ∷ []))
    × (expand event_registry ("other.*" ∷ []) ≡ [])
    × (validate_patterns event_registry ("link.*" ∷ "webhook.test" ∷ []) ≡ err "webhook.test")
unfolding expand expand_from validate_patterns
expand_test = (refl, refl, refl, refl)

-- An owner without endpoints is matched, which leaves 0 in the cache; then creates one.
abbrev silent : State redis true 60 db
silent = (empty.0, (match redis true 60 db (click_on 5) empty.0 empty.1).1)

abbrev with_one : State redis true 60 db
with_one = (create_endpoint redis true 60 db allowed 5 7 1 (new ("link.*" ∷ [])) silent).1

create_test :
    (redis.value silent.1 7 ≡ some 0)
    × (redis.value with_one.1 7 ≡ none)
    × ((match redis true 60 db (click_on 5) with_one.0 with_one.1).0
        ≡ (1, new_endpoint 7 (new ("link.*" ∷ [])) (some (5 ∷ []))) ∷ [])
    × ((match redis true 60 db (click_on 6) with_one.0 with_one.1).0 ≡ [])
    × ((create_endpoint redis true 60 db allowed 5 7 2 (new ("links.*" ∷ [])) with_one).0
        ≡ err (unknown_event "links.*"))
    × ((create_endpoint redis true 60 db allowed 1 7 2 (new ("*" ∷ [])) with_one).0
        ≡ err endpoint_limit)
unfolding match after_count matched get set invalidate find_active_for_owner create_endpoint insert
    checked_scope expand expand_from validate_patterns
create_test = (refl, refl, refl, refl, refl, refl)

abbrev nothing : Fields
nothing = record {
  url = none;
  events = none;
  scope_links = none;
  has_description = false;
  flavor = none;
  status = none;
}

abbrev failed : State redis true 60 db
failed = (disable db 1 gone 40 with_one.0, with_one.1)

update_test :
    ((update_endpoint redis true 60 db allowed 1 7
        (record nothing { status = some disabled })
        50
        with_one).0
      ≡ err system_set)
    × ((update_endpoint redis true 60 db allowed 1 8 nothing 50 with_one).0
        ≡ err endpoint_not_found)
    × ((update_endpoint redis true 60 db allowed 1 7
          (record nothing { scope_links = some (some []) })
          50
          with_one).0
        ≡ err empty_scope)
    × ((update_endpoint redis true 60 db allowed 1 7
          (record nothing { status = some active })
          50
          failed).0
        ≡ ok (record (new_endpoint 7 (new ("link.*" ∷ [])) (some (5 ∷ []))) {
          updated_at = some 50;
        }))
unfolding match after_count matched get set invalidate find_active_for_owner create_endpoint insert
    checked_scope expand expand_from validate_patterns update_endpoint update_found updates_of store
    write get_endpoint find_owned disable find_and_update
update_test = (refl, refl, refl, refl)

empty-IsQuiet : IsQuiet redis true 60 db empty
empty-IsQuiet = λ there owner h id d here. cc

Reaches-IsQuiet_example : IsQuiet redis true 60 db failed
Reaches-IsQuiet_example =
    Reaches-IsQuiet redis true 60 db (λ owner r. refl) empty failed
      (next empty with_one failed
        (next empty silent with_one
          (next empty empty silent (start empty) (matches (click_on 5) empty.0 empty.1))
          (creates allowed 5 7 1 (new ("link.*" ∷ [])) silent))
        (disables 1 gone 40 with_one.0 with_one.1))
      empty-IsQuiet

with_one-IsQuiet : IsQuiet redis true 60 db with_one
with_one-IsQuiet =
    Reaches-IsQuiet redis true 60 db (λ owner r. refl) empty with_one
      (next empty silent with_one
        (next empty empty silent (start empty) (matches (click_on 5) empty.0 empty.1))
        (creates allowed 5 7 1 (new ("link.*" ∷ [])) silent))
      empty-IsQuiet

match-Wants_example :
    Listed
      (1, new_endpoint 7 (new ("link.*" ∷ [])) (some (5 ∷ [])))
      (match redis true 60 db (click_on 5) with_one.0 with_one.1).0
    ↔ Wants redis true 60 db
        (click_on 5)
        with_one.0
        1
        (new_endpoint 7 (new ("link.*" ∷ [])) (some (5 ∷ [])))
match-Wants_example =
    match-Wants redis true 60 db (click_on 5) with_one.0 with_one.1 with_one-IsQuiet 1
      (new_endpoint 7 (new ("link.*" ∷ [])) (some (5 ∷ [])))

-- A receiver that answers 500, and one delivery of the log that has failed.
abbrev refusing : Surroundings
refusing = record {
  rendering = rendered "{}";
  secret_readable = true;
  result = record {
    status_code = some 500;
    error = none;
    body_snippet = none;
    retry_after_seconds = none;
  };
  duration_ms = 12;
  now = 101;
  failure = "status 500";
}

abbrev deliveries : Collection ℕ WebhookDeliveryDoc
deliveries = by_id {D = WebhookDeliveryDoc}

abbrev logged : WebhookDeliveryDoc
logged = record (test_row 1 (new_endpoint 7 (new ("link.*" ∷ [])) none) 40 "link.created" "msg_1") {
  is_test = false;
  status = DeliveryStatus.failed;
  attempt_count = 7;
}

abbrev world : World deliveries db
world = (((8, logged) ∷ [], (refl, tt)), with_one.0)

sends-Leaves_example :
    Leaves deliveries db 10 world
      (send_test deliveries db 10 redis true 60 1 7 "link.clicked" 41 9 "msg_2" refusing world)
    × Leaves deliveries db 10 world
        (retry_delivery deliveries db 10 redis true 60 1 8 7 refusing world)
sends-Leaves_example =
    sends-Leaves deliveries db 10 redis true 60 1 7 "link.clicked" 41 9 "msg_2" 8 refusing world
