-- ===== src/Links/Resolve.antt =====
-- The lookup of a code: services/url_service.py, `resolve` and what it calls, and
-- services/public_link_resolver.py, `PublicLinkResolver.resolve`. The moment is read once, in
-- milliseconds. Left out: logging, the event of an expiry, and the decoding of percent signs.
use spoo.Base.{
  ℕ, String, Bool, true, false, ◌&&◌, ◌||◌, not, Option, none, some, List, [], ◌∷◌, Result, ok, err,
  str_eq, is_none, if◌then◌else◌,
}
use spoo.Base.Collection.{Collection, ascending, find_and_update}
use spoo.Links.{
  UrlV2Doc, LegacyUrlDoc, UrlCacheData, SchemaVersion, v2, v1, emoji, expired, is_v2, is_v1,
  is_active,
}
use spoo.Links.Status.{time_passed}
use spoo.Links.Alias.{EmojiPolicy, resolution_order, v2_lookup_code, emoji_lookup_candidates}
use spoo.Links.Cached.{
  truthy, from_v2_doc, legacy_doc_to_cache, is_not_yet_live, is_time_expired, gone_to,
  raise_for_status, is_non_active, clicks_exhausted, ResolveError, not_found, gone, not_yet_live,
}

-- What a public page says of a code: the generation and the document.
pub data PublicLink : Type 0 where
  found_v2 : ℕ → UrlV2Doc → PublicLink
  found_legacy : SchemaVersion → String → LegacyUrlDoc → PublicLink

-- `find_by_id` on each candidate, the first that is there.
abbrev pub first_found :
    (String → Option LegacyUrlDoc) → List String → Option (String × LegacyUrlDoc)
first_found find [] = none
first_found find (c ∷ cs) = elim (find c) [ none ↦ first_found find cs | some d ↦ some (c, d) ]

abbrev pub has_emoji : List SchemaVersion → Bool
has_emoji [] = false
has_emoji (v2 ∷ order) = has_emoji order
has_emoji (v1 ∷ order) = has_emoji order
has_emoji (emoji ∷ order) = true

-- `order[0] == SchemaVersion.V1`
abbrev pub starts_with_v1 : List SchemaVersion → Bool
starts_with_v1 [] = false
starts_with_v1 (s ∷ order) = is_v1 s

abbrev pub Answer : Type 0
Answer = Option UrlCacheData × SchemaVersion

abbrev pub v2_or : Option (ℕ × UrlV2Doc) → Answer → Answer
v2_or none other = other
v2_or (some (id, d)) other = (some (from_v2_doc id d), v2)

abbrev pub v2_link_or : Option (ℕ × UrlV2Doc) → Option PublicLink → Option PublicLink
v2_link_or none other = other
v2_link_or (some (id, d)) other = some (found_v2 id d)

abbrev pub legacy_link_or :
    Option (String × LegacyUrlDoc) → SchemaVersion → Option PublicLink → Option PublicLink
legacy_link_or none schema other = other
legacy_link_or (some (code, d)) schema other = some (found_legacy schema code d)

-- What a deployment brings: the links collection, the emoji library and its own domain.
pub record Deployment : Type 1 where
  pub db : Collection ℕ UrlV2Doc
  pub policy : EmojiPolicy
  pub system_domain : String

module _ (app : Deployment) where
  open app use {db, policy, system_domain}

  -- The collections, the legacy ones as what a read finds, and the cache by domain and code.
  pub record Site : Type 0 where
    pub urls : db.State
    pub legacy : String → Option LegacyUrlDoc
    pub emojis : String → Option LegacyUrlDoc
    -- Whether there is a Redis client, and whether Redis answers it.
    pub caching : Bool
    pub redis_up : Bool
    pub cache : String → String → Option UrlCacheData

  abbrev pub at_alias : String → String → ℕ → UrlV2Doc → Bool
  at_alias code domain k d = str_eq d.alias code && str_eq d.domain domain

  unfoldable pub find_by_alias : String → String → Site → Option (ℕ × UrlV2Doc)
  find_by_alias code domain s = db.pick ascending (at_alias code domain) (λ d. 0) s.urls

  -- Every error of Redis is swallowed: a read is then a miss, and a write changes nothing.
  abbrev pub is_answered : Site → Bool
  is_answered s = s.caching && s.redis_up

  unfoldable pub cache_get : String → String → Site → Option UrlCacheData
  cache_get code domain s = if is_answered s then s.cache domain code else none

  unfoldable pub cache_put : String → String → Option UrlCacheData → Site → Site
  cache_put code domain entry s =
      if is_answered s
      then record s {
        cache = λ dom c. if str_eq dom domain && str_eq c code then entry else s.cache dom c;
      }
      else s

  abbrev pub legacy_or : Option (String × LegacyUrlDoc) → SchemaVersion → Answer → Answer
  legacy_or none schema other = other
  legacy_or (some (code, d)) schema other =
      (some (legacy_doc_to_cache code d system_domain schema), schema)

  abbrev pub find_legacy : String → Site → Option (String × LegacyUrlDoc)
  find_legacy code s = first_found s.legacy (code ∷ [])

  unfoldable pub try_v2_then_v1 : String → Site → Answer
  unfolding find_by_alias
  try_v2_then_v1 code s =
      v2_or (find_by_alias code system_domain s) (legacy_or (find_legacy code s) v1 (none, v2))

  unfoldable pub try_v1_then_v2 : String → Site → Answer
  unfolding find_by_alias
  try_v1_then_v2 code s =
      legacy_or (find_legacy code s) v1 (v2_or (find_by_alias code system_domain s) (none, v2))

  unfoldable pub dispatch_by : List SchemaVersion → String → String → Site → Answer
  unfolding try_v2_then_v1 try_v1_then_v2 find_by_alias
  dispatch_by order code raw s =
      if has_emoji order
      then v2_or (find_by_alias code system_domain s) (
          legacy_or (first_found s.emojis (emoji_lookup_candidates policy raw)) emoji (none, emoji))
      else if starts_with_v1 order
      then try_v1_then_v2 code s
      else try_v2_then_v1 code s

  unfoldable pub dispatch : String → String → Site → Answer
  unfolding dispatch_by
  dispatch code raw s = dispatch_by (resolution_order policy raw) code raw s

  unfoldable pub dispatch_custom_domain : String → String → Site → Answer
  unfolding find_by_alias
  dispatch_custom_domain code domain s = v2_or (find_by_alias code domain s) (none, v2)

  -- `PublicLinkResolver.resolve`, along the order: a generation that has the code answers.
  unfoldable pub public_in : List SchemaVersion → String → Site → Option PublicLink
  unfolding find_by_alias
  public_in [] code s = none
  public_in (v2 ∷ order) code s =
      v2_link_or (find_by_alias (v2_lookup_code policy code) system_domain s)
        (public_in order code s)
  public_in (emoji ∷ order) code s =
      legacy_link_or (first_found s.emojis (emoji_lookup_candidates policy code)) emoji
        (public_in order code s)
  public_in (v1 ∷ order) code s = legacy_link_or (find_legacy code s) v1 (public_in order code s)

  unfoldable pub resolve_public : String → Site → Option PublicLink
  unfolding public_in
  resolve_public code s = public_in (resolution_order policy code) code s

  -- v2 is cached, v1 without a limit of clicks too.
  unfoldable pub populate_cache : String → UrlCacheData → SchemaVersion → Site → Site
  unfolding cache_put
  populate_cache code link schema s =
      if is_v2 schema || (is_v1 schema && is_none link.max_clicks)
      then cache_put code link.domain (some link) s
      else s

  unfoldable pub expire_if_time_reached : ℕ → ℕ → db.State → Bool × db.State
  expire_if_time_reached id now urls =
      let (before, urls') =
        find_and_update db id (λ d. is_active d.status && time_passed d.expire_after now)
          (λ d. record d { status = expired }) urls in
      (not (is_none before), urls')

  -- The flip of an ACTIVE v2 link, and the cache entry that goes with it.
  unfoldable pub flip : UrlCacheData → SchemaVersion → String → ℕ → Site → Site
  unfolding expire_if_time_reached cache_put
  flip link schema code now s =
      if is_v2 schema && is_active link.url_status
      then (let (flipped, urls) = expire_if_time_reached link.id now s.urls in
          let s' : Site = record s { urls = urls } in
          if flipped then cache_put code link.domain none s' else s')
      else s

  abbrev pub Outcome : Type 0
  Outcome = Result ResolveError (UrlCacheData × SchemaVersion) × Site

  -- `_raise_if_time_expired`, `_raise_if_not_yet_live`, and the return.
  unfoldable pub check_live : UrlCacheData → SchemaVersion → String → ℕ → Site → Outcome
  unfolding flip
  check_live link schema code now s =
      if is_time_expired link now
      then (err (gone_to link.expired_redirect_url), flip link schema code now s)
      else if is_not_yet_live link now
      then (err (not_yet_live link.pre_start_url), s)
      else (ok (link, schema), s)

  unfoldable pub resolved : Answer → String → ℕ → Site → Outcome
  unfolding check_live populate_cache
  resolved (none, schema) code now s = (err not_found, s)
  resolved (some link, schema) code now s =
      let s' = populate_cache code link schema s in
      if is_non_active link schema
      then (err (raise_for_status link), s')
      else if clicks_exhausted link schema
      then (err gone, s')
      else check_live link schema code now s'

  unfoldable pub look_up : Option UrlCacheData → String → String → String → ℕ → Site → Outcome
  unfolding check_live resolved dispatch dispatch_custom_domain
  look_up (some link) code raw scope now s =
      if is_non_active link link.schema_version
      then (err (raise_for_status link), s)
      else check_live link link.schema_version code now s
  look_up none code raw scope now s =
      resolved
        (if str_eq scope system_domain
          then dispatch code raw s
          else dispatch_custom_domain code scope s)
        code now s

  unfoldable pub resolve : String → Option String → ℕ → Site → Outcome
  unfolding look_up cache_get
  resolve raw domain now s =
      let scope : String = elim (truthy domain) [ none ↦ system_domain | some d ↦ d ] in
      let code = v2_lookup_code policy raw in look_up (cache_get code scope s) code raw scope now s
