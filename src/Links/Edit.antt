-- ===== src/Links/Edit.antt =====
-- Creation, edits, claims and deletion of links (services/url_service.py,
-- schemas/dto/requests/url.py): the requests and what the service is configured with. `Values` has
-- the tests on what a request carries, `Availability` when an alias is free, `Handlers`, `Labels` and `Chain`
-- the field handlers of an edit, `Update` the edit, `Create` the creation, `Remove` deletion, `Claim` the claim
-- of anonymous links, and the other modules the proofs. Left out: logging, the parsed parts of a
-- destination (`dest`), the counters of created destinations, and the contents of events.
pub mod Values
pub mod Availability
pub mod Handlers
pub mod Labels
pub mod Chain
pub mod Update
pub mod Create
pub mod Claim
pub mod Remove
pub mod Keyed
pub mod Counted
pub mod Claimed
pub mod Built
pub mod Unique
pub mod Keys
pub mod Fresh
pub mod Others
pub mod Steps
pub mod First
pub mod RoundTrip
pub mod Owners
pub mod Reactivated
pub mod Checked
mod Tests
use spoo.Base.{ℕ, Bool, Option, String, List, Result}
use spoo.Links.{UrlV2Doc, UrlStatus, UrlCacheData, LegacyUrlDoc, AbVariant}

-- A field of an edit: not in the request (`model_fields_set`), null, or a value.
pub data Field {ℓ} (A : Type ℓ) : Type ℓ where
  absent null : Field A
  given : A → Field A

pub record MetaTagsRequest : Type 0 where
  pub title : String
  pub description : Option String
  pub image : Option String
  pub color : Option String

-- Of `long_url`, `alias` and `status`, null counts as not given.
pub record UpdateUrlRequest : Type 0 where
  pub long_url : Option String
  pub alias : Option String
  pub domain : Field String
  pub password : Field String
  pub max_clicks : Field ℕ
  pub expire_after : Field ℕ
  pub starts_at : Field ℕ
  pub pre_start_url : Field String
  pub block_bots : Field Bool
  pub private_stats : Field Bool
  pub status : Option UrlStatus
  pub geo_rules : Field (List (String × String))
  pub tag_ids : Field (List ℕ)
  pub ab_variants : Field (List AbVariant)
  pub expired_redirect_url : Field String
  pub meta_tags : Field MetaTagsRequest

-- `emoji_alias` stands for the alias type of a generated alias.
pub record CreateUrlRequest : Type 0 where
  pub long_url : String
  pub alias : Option String
  pub emoji_alias : Bool
  pub password : Option String
  pub block_bots : Option Bool
  pub max_clicks : Option ℕ
  pub expire_after : Option ℕ
  pub starts_at : Option ℕ
  pub pre_start_url : Option String
  pub private_stats : Option Bool
  pub geo_rules : Option (List (String × String))
  pub tag_ids : Option (List ℕ)
  pub ab_variants : Option (List AbVariant)
  pub expired_redirect_url : Option String
  pub meta_tags : Option MetaTagsRequest

-- The exceptions, a ValidationError with its field.
pub data EditError : Type 0 where
  url_not_found access_denied blocked_link claim_limit_reached : EditError
  alias_taken aliases_exhausted : EditError
  invalid invalid_country : String → EditError
  invalid_variant : ℕ → EditError

pub data EmojiVerdict : Type 0 where
  accepted empty_alias too_long unsupported : EmojiVerdict

-- The collaborators of the service and its settings.
pub record Rules : Type 0 where
  -- `UrlPolicyService.check` refuses the destination
  pub rejects : String → Bool
  -- the blocked patterns match
  pub is_blocked_text : String → Bool
  pub is_country : String → Bool
  -- `check_emoji_alias` with the configured caps
  pub check_emoji : String → EmojiVerdict
  pub is_emoji_only : String → Bool
  -- `check_exists_vs16_insensitive` on the collection of emoji links
  pub emoji_exists : (String → Option LegacyUrlDoc) → String → Bool
  pub hash_password : String → String
  pub hash_token : String → String
  -- `ingest_meta_image` for an image and an owner: the URL, whether it was uploaded, what is known
  pub ingest : String → ℕ → Result EditError (String × Bool × Option String)
  pub has_tag_service : Bool
  pub owns_tags : ℕ → List ℕ → Bool
  pub geo_rules_enabled : Bool
  pub geo_rules_max_countries : ℕ
  pub ab_variants_enabled : Bool
  pub ab_variants_max : ℕ
  pub has_writethrough : Bool
  pub has_edge_kv : Bool
  pub has_image_sink : Bool

-- What an operation asks of the edge, the image validator and the webhooks, all best effort.
pub data Effect : Type 0 where
  og_synced : UrlCacheData → Effect
  og_removed edge_purged : String → String → Effect
  image_queued : ℕ → String → Effect
  link_event : String → UrlV2Doc → Effect
