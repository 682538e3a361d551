-- ===== src/Links/Cached.antt =====
-- What the cache keeps of a link, and what `resolve` reads off it: infrastructure/cache/url_cache.py,
-- shared/datetime_utils.py and the helpers of services/url_service.py.
use spoo.Base.{
  ℕ, ◌+◌, ◌*◌, ◌/◌, String, Bool, false, ◌&&◌, ◌||◌, Option, none, some, leb, ltb, str_eq,
  if◌then◌else◌,
}
use spoo.Links.{
  UrlV2Doc, LegacyUrlDoc, UrlCacheData, SchemaVersion, v2, active, blocked, is_v2, is_v1,
  is_blocked, is_expired, is_inactive, Stamp,
}

-- An optional text as a condition: the empty text is falsy.
abbrev pub truthy : Option String → Option String
truthy none = none
truthy (some s) = if str_eq s "" then none else some s

-- `to_unix_timestamp`, and the same rounded up
abbrev pub to_unix_timestamp : Option ℕ → Option ℕ
to_unix_timestamp none = none
to_unix_timestamp (some t) = some (t / 1000)

abbrev pub to_unix_timestamp_ceil : Option ℕ → Option ℕ
to_unix_timestamp_ceil none = none
to_unix_timestamp_ceil (some t) = some ((t + 999) / 1000)

-- `bool(block_bots)`
abbrev pub truth : Option Bool → Bool
truth none = false
truth (some b) = b

-- Only a date with a time zone expires a legacy link.
abbrev pub legacy_expiration : Option Stamp → Option ℕ
legacy_expiration none = none
legacy_expiration (some s) = if s.aware then some (s.at / 1000) else none

unfoldable pub from_v2_doc : ℕ → UrlV2Doc → UrlCacheData
from_v2_doc id d = record {
  id = id;
  alias = d.alias;
  long_url = d.long_url;
  block_bots = truth d.block_bots;
  password_hash = d.password;
  expiration_time = to_unix_timestamp d.expire_after;
  max_clicks = d.max_clicks;
  url_status = d.status;
  schema_version = v2;
  total_clicks = 0;
  owner_id = some d.owner_id;
  domain = d.domain;
  geo_rules = d.geo_rules;
  expired_redirect_url = d.expired_redirect_url;
  ab_variants = d.ab_variants;
  meta_title = elim d.meta_tags [ none ↦ none | some m ↦ some m.title ];
  meta_description = elim d.meta_tags [ none ↦ none | some m ↦ m.description ];
  meta_image = elim d.meta_tags [ none ↦ none | some m ↦ m.image ];
  meta_color = elim d.meta_tags [ none ↦ none | some m ↦ m.color ];
  start_time = to_unix_timestamp_ceil d.starts_at;
  pre_start_url = d.pre_start_url;
}

-- `_legacy_doc_to_cache` and `_emoji_doc_to_cache`
unfoldable pub legacy_doc_to_cache : String → LegacyUrlDoc → String → SchemaVersion → UrlCacheData
legacy_doc_to_cache code d system_domain schema = record {
  id = 0;
  alias = code;
  long_url = d.url;
  block_bots = truth d.block_bots;
  password_hash = d.password;
  expiration_time = legacy_expiration d.expiration_time;
  max_clicks = d.max_clicks;
  url_status = if d.blocked then blocked else active;
  schema_version = schema;
  total_clicks = d.total_clicks;
  owner_id = none;
  domain = system_domain;
  geo_rules = none;
  expired_redirect_url = none;
  ab_variants = none;
  meta_title = none;
  meta_description = none;
  meta_image = none;
  meta_color = none;
  start_time = none;
  pre_start_url = none;
}

abbrev pub is_not_yet_live : UrlCacheData → ℕ → Bool
is_not_yet_live link now = elim link.start_time [ none ↦ false | some t ↦ ltb now (t * 1000) ]

abbrev pub is_time_expired : UrlCacheData → ℕ → Bool
is_time_expired link now = elim link.expiration_time [ none ↦ false | some t ↦ leb (t * 1000) now ]

pub data ResolveError : Type 0 where
  not_found blocked_url gone : ResolveError
  expired_redirect : String → ResolveError
  not_yet_live : Option String → ResolveError

-- `raise ExpiredRedirectError` with a fallback, else `raise GoneError`
abbrev pub gone_to : Option String → ResolveError
gone_to url = elim (truthy url) [ none ↦ gone | some u ↦ expired_redirect u ]

abbrev pub raise_for_status : UrlCacheData → ResolveError
raise_for_status link =
    if is_blocked link.url_status
    then blocked_url
    else if is_expired link.url_status
    then gone_to link.expired_redirect_url
    else gone

-- BLOCKED counts for every generation, the other two for v2.
abbrev pub is_non_active : UrlCacheData → SchemaVersion → Bool
is_non_active link schema =
    is_blocked link.url_status
    || (is_v2 schema && (is_expired link.url_status || is_inactive link.url_status))

abbrev pub clicks_exhausted : UrlCacheData → SchemaVersion → Bool
clicks_exhausted link schema =
    is_v1 schema && elim link.max_clicks [ none ↦ false | some m ↦ leb m link.total_clicks ]

-- services/public_link_resolver.py, `v1_is_expired`, on the stored fields: what a public page says.
abbrev pub v1_is_expired : LegacyUrlDoc → ℕ → Bool
v1_is_expired d now =
    elim d.max_clicks [ none ↦ false | some m ↦ leb m d.total_clicks ]
    || elim d.expiration_time [ none ↦ false | some t ↦ t.aware && leb t.at now ]
