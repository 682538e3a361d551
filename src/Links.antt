-- ===== src/Links.antt =====
-- Short links (schemas/models/url.py, infrastructure/cache/url_cache.py): the documents of the three
-- generations, and what the cache keeps. `Status` has the effective status, `Alias` the order of the
-- generations, `Cached` the projection to the cache, `Resolve` the lookup of a code, `Clicks` and
-- `Handler` what a click writes, `Variants` the split between destinations, `Redirect` the answer to
-- a request, and the other modules the proofs. Times of documents are milliseconds.
pub mod Status
pub mod Alias
pub mod Cached
pub mod Resolve
pub mod Same
pub mod Live
pub mod Served
pub mod Coherent
pub mod Requests
pub mod Legacy
pub mod Clicks
pub mod Handler
pub mod Variants
pub mod Redirect
pub mod Visits
pub mod Edit
mod Tests
use spoo.Base.{ℕ, Bool, true, false, Option, String, List}

pub data UrlStatus : Type 0 where
  active inactive expired blocked scheduled : UrlStatus

pub data SchemaVersion : Type 0 where
  v2 v1 emoji : SchemaVersion

-- `status is UrlStatus.…`
abbrev pub is_active : UrlStatus → Bool
is_active active = true
is_active inactive = false
is_active expired = false
is_active blocked = false
is_active scheduled = false

abbrev pub is_blocked : UrlStatus → Bool
is_blocked active = false
is_blocked inactive = false
is_blocked expired = false
is_blocked blocked = true
is_blocked scheduled = false

abbrev pub is_expired : UrlStatus → Bool
is_expired active = false
is_expired inactive = false
is_expired expired = true
is_expired blocked = false
is_expired scheduled = false

abbrev pub is_inactive : UrlStatus → Bool
is_inactive active = false
is_inactive inactive = true
is_inactive expired = false
is_inactive blocked = false
is_inactive scheduled = false

abbrev pub is_v2 : SchemaVersion → Bool
is_v2 v2 = true
is_v2 v1 = false
is_v2 emoji = false

abbrev pub is_v1 : SchemaVersion → Bool
is_v1 v2 = false
is_v1 v1 = true
is_v1 emoji = false

pub record AbVariant : Type 0 where
  pub url : String
  pub weight : ℕ

-- A custom preview. What is known of an uploaded image is kept as it is.
pub record LinkMetaTags : Type 0 where
  pub title : String
  pub description : Option String
  pub image : Option String
  pub color : Option String
  pub image_meta : Option String
  pub updated_at : Option ℕ
  pub updated_ip : Option String

-- ANONYMOUS_OWNER_ID, the owner of the links that were made without an account.
abbrev pub anonymous_owner_id : ℕ
anonymous_owner_id = 0

-- The fields that requests, clicks and edits read or write; a domain is in its normal form, in lower
-- case. Its `_id` is its key in the collection.
pub record UrlV2Doc : Type 0 where
  pub alias : String
  pub owner_id : ℕ
  pub domain : String
  pub long_url : String
  pub password : Option String
  pub block_bots : Option Bool
  pub max_clicks : Option ℕ
  pub expire_after : Option ℕ
  pub starts_at : Option ℕ
  pub pre_start_url : Option String
  pub geo_rules : Option (List (String × String))
  pub tag_ids : List ℕ
  pub ab_variants : Option (List AbVariant)
  pub expired_redirect_url : Option String
  pub status : UrlStatus
  pub private_stats : Option Bool
  pub meta_tags : Option LinkMetaTags
  pub total_clicks : ℕ
  pub last_click : Option ℕ
  pub updated_at : Option ℕ
  pub claim_token_hash : Option String
  pub claimed_at : Option ℕ

-- A stored date, which may lack its time zone.
pub record Stamp : Type 0 where
  pub at : ℕ
  pub aware : Bool

-- A document of `urls` or `emojis`; its `_id` is the short code.
pub record LegacyUrlDoc : Type 0 where
  pub url : String
  pub password : Option String
  pub blocked : Bool
  pub max_clicks : Option ℕ
  pub total_clicks : ℕ
  pub block_bots : Option Bool
  pub expiration_time : Option Stamp

-- What the cache keeps. `id` is the `_id` of a v2 document. Times are seconds.
pub record UrlCacheData : Type 0 where
  pub id : ℕ
  pub alias : String
  pub long_url : String
  pub block_bots : Bool
  pub password_hash : Option String
  pub expiration_time : Option ℕ
  pub max_clicks : Option ℕ
  pub url_status : UrlStatus
  pub schema_version : SchemaVersion
  pub total_clicks : ℕ
  pub owner_id : Option ℕ
  pub domain : String
  pub geo_rules : Option (List (String × String))
  pub expired_redirect_url : Option String
  pub ab_variants : Option (List AbVariant)
  pub meta_title : Option String
  pub meta_description : Option String
  pub meta_image : Option String
  pub meta_color : Option String
  pub start_time : Option ℕ
  pub pre_start_url : Option String
