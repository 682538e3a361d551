-- ===== src/Webhooks/Subscriptions.antt =====
-- Webhook subscriptions: the event catalog (`Registry`, services/webhooks/registry.py), the matcher
-- with its cache (`Matcher`, services/webhooks/matcher.py), the service over the endpoints (`Updates`,
-- `Service` and `Sends`, services/webhooks/service.py), and the proofs: what patterns cover (`Covers`),
-- what the cache says (`Quiet`), that the service's writes keep it (`Kept`), the steps (`Steps`) and
-- the matched endpoints (`Matched`).
pub mod Registry
pub mod Matcher
pub mod Updates
pub mod Service
pub mod Sends
pub mod Covers
pub mod Quiet
pub mod Kept
pub mod Steps
pub mod Matched
mod Tests
use spoo.Base.{ℕ, Option, String}

-- A link id in the data of an event or in a request: a valid `ObjectId`, or any other value.
pub data RawId : Type 0 where
  object_id : ℕ → RawId
  malformed : RawId

-- What the matcher reads of a `DomainEvent`: its data may have a `link_id`, and a `link` that may
-- have one.
pub record DomainEvent : Type 0 where
  pub event_type : String
  pub owner_id : ℕ
  pub data_link_id : Option RawId
  pub data_link : Option (Option RawId)
