-- ===== src/Lib.antt =====
-- Verification of the spoo.me URL shortener (the Python service under app/).
--
-- The service turns short codes into destinations, records clicks, sends webhooks to the owners
-- of links, signs accounts in and runs background tasks. Six parts of it are modelled, each by a
-- module of this library with its children; they share only the database and Redis.
--
-- Links (app/services/url_service.py, app/services/public_link_resolver.py,
-- app/shared/alias_dispatch.py, app/shared/ab_variants.py, app/schemas/models/url.py,
-- app/infrastructure/cache/url_cache.py, app/repositories/url_repository.py,
-- app/services/click/handlers.py). Links/Status has `effective_status` and its database filter;
-- Links/Alias the order of the generations; Links/Cached the projection that the cache keeps and
-- the tests on it; Links/Resolve `UrlService.resolve` and `PublicLinkResolver.resolve`;
-- Links/Clicks and Links/Handler the count of a click and the expiry by it; Links/Variants
-- `pick_variant`; Links/Redirect the answer to a request (app/routes/redirect_routes.py). The
-- proofs are in Links/Same (both resolvers), Links/Live and Links/Served (links of the second
-- generation), Links/Coherent and Links/Requests (the cache), Links/Visits (the answer) and
-- Links/Legacy (the older links). Links/Edit has what changes links (`create`, `update`,
-- `delete`, `claim` of app/services/url_service.py), the requests of
-- app/schemas/dto/requests/url.py, the shape of aliases (app/shared/validators.py,
-- app/shared/emoji_policy.py, app/shared/reserved_aliases.py), and the steps of all of these; its
-- own proofs are named in Links/Edit. The state `Site` has the collection of links, what a read
-- of the two old collections finds, and the cache.
--
-- Webhooks (app/services/webhooks/dispatcher.py, app/services/webhooks/executor.py,
-- app/repositories/webhook_delivery_repository.py,
-- app/repositories/webhook_endpoint_repository.py, app/schemas/models/webhook.py).
-- Webhooks/Dispatcher turns an event into deliveries, Webhooks/Executor is one attempt of a
-- delivery, Webhooks/Claims the loop that claims deliveries, and Webhooks/Endpoints and
-- Webhooks/Deliveries the two repositories. The dispatcher reserves the pending slots that the
-- executor gives back: Webhooks/Balance and Webhooks/Slots follow the slots through an attempt,
-- Webhooks/Reserve, Webhooks/Capped and Webhooks/Inserted through a dispatch. Webhooks/Ladder and
-- Webhooks/Rounds are about retries, Webhooks/SingleShot about test sends and manual retries,
-- Webhooks/Saturated and Webhooks/Concurrency about the bounds of the loop.
-- Webhooks/Subscriptions has, in its children, which endpoints an event goes to and what owners
-- do with endpoints (app/services/webhooks/registry.py, app/services/webhooks/matcher.py,
-- app/services/webhooks/service.py).
--
-- Scheduler (app/services/scheduler/registry.py, app/services/scheduler/runner.py,
-- app/repositories/scheduled_task_repository.py). Scheduler/Registry has the registrations,
-- Scheduler/Store the repository, Scheduler/Runner the sync and a run. Scheduler/Lease,
-- Scheduler/Fence, Scheduler/Sync and Scheduler/Names have the proofs.
--
-- Auth (app/services/auth/otp.py, app/services/auth/password.py,
-- app/services/auth/verification.py, app/services/auth/device.py,
-- app/repositories/token_repository.py). Auth/Tokens is the repository, Auth/Otp the one-time
-- codes, Auth/Requests the two flows that ask for a code, Auth/Accounts those that a code
-- completes, with the rules for passwords (app/shared/validators.py) in Auth/Passwords, and
-- Auth/Device the codes that apps exchange for tokens. Auth/Consume, Auth/Verify, Auth/Guesses,
-- Auth/Created and Auth/Limits have the proofs on codes, Auth/Guesses and Auth/Created with the
-- reads and writes of many requests interleaved; Auth/Authorised those on resets, and
-- Auth/Issued, Auth/Exchanged, Auth/Once and Auth/Minted those on device codes.
--
-- Safety (app/services/safety/admission.py, app/infrastructure/cache/web_risk_budget.py).
-- Safety/Counters is the interface to counters in Redis, with the call that both budgets make;
-- Safety/Admission decides which events are investigated, Safety/WebRisk which lookups the URL
-- expander may make. Safety/Budget and Safety/Admitted have the proofs.
--
-- Flags (app/services/feature_flag_service.py, app/infrastructure/cache/feature_flag_cache.py,
-- app/schemas/models/feature_flag.py). Flags/Stored reads the documents of the collection,
-- Flags/Cache is the cache in Redis, Flags/Service the service, Flags/Admits who a rollout lets
-- in, and Flags/Granted the proofs.
--
-- Base has what they share. Base/Collection is the interface to a MongoDB collection: the
-- operations that the repositories call and what the driver documents of them, as laws. A
-- document update with a filter is atomic there, as it is in the server; interleavings of
-- processes are sequences of such operations. Base/Memory fills the interface with a list, which
-- the tests use. Base/KeyValue is the same for the keys of Redis that hold one value.
--
-- How the code is read. A repository call is a function on the contents of a collection, a
-- handler a function on what it reads and writes, a raised exception a value of a result type.
-- The clock, new `_id`s, random codes and tokens, hashes, the answers of mail and HTTP services,
-- the cron library and the emoji library are arguments. Times are seconds since the epoch, in
-- Links milliseconds on documents and seconds in the cache, as `to_unix_timestamp` makes them.
-- Numbers are unbounded, as in Python. No function here needs fuel: loops run over lists, and the
-- endless loops of the scheduler and of the webhook executor are modelled by their steps.
--
-- Not modelled: bulk operations on links, the rendering of pages, the analysis of destinations,
-- custom domains, OAuth, statistics, erasure of accounts, the edge cache, and the routes, schemas
-- and clients of outside services. Of the modelled parts, logging, the notices sent by mail or as
-- events, and listing queries are left out.
pub mod Base
pub mod Scheduler
pub mod Auth
pub mod Webhooks
pub mod Flags
pub mod Links
pub mod Safety
