-- ===== src/Links/Redirect.antt =====
-- routes/redirect_routes.py, `redirect_url`: what a request is answered once its code is resolved.
-- The user agent matchers, the check of an argon2 hash, the country lookup, the roll and what the
-- click sink answers are arguments; the country of the header comes stripped and in capitals.
-- Left out: rendering of the pages and headers other than Cache-Control.
use spoo.Base.{
  ℕ, zero, suc, String, Bool, true, false, ◌&&◌, ◌||◌, not, Option, none, some, List, [], ◌∷◌,
  Result, ok, err, str_eq, is_none, if◌then◌else◌,
}
use spoo.Links.{UrlCacheData, AbVariant, SchemaVersion, is_v2}
use spoo.Links.Cached.{
  truthy, ResolveError, not_found, blocked_url, gone, expired_redirect, not_yet_live,
}
use spoo.Links.Variants.{pick_variant}

pub record Visit : Type 0 where
  pub method : String
  pub user_agent : String
  pub bot_param : Bool
  pub password : Option String
  pub header_country : Option String
  pub roll : ℕ

pub record Classifiers : Type 0 where
  pub is_preview_agent : String → Bool
  pub is_bot_request : String → Bool
  pub verify_hash : String → String → Bool
  pub country_of_ip : Option String
  -- the inline sink raised ForbiddenError
  pub sink_forbids : Bool

-- The pages by their status, the two fallbacks, and the redirect with whether it may be stored.
pub data Response : Type 0 where
  not_found_page blocked_page gone_page not_yet_live_page password_page preview_page
        forbidden_page :
      Response
  fallback : String → Response
  redirect : String → Bool → Response

unfoldable pub on_error : ResolveError → Response
on_error not_found = not_found_page
on_error blocked_url = blocked_page
on_error gone = gone_page
on_error (expired_redirect url) = fallback url
on_error (not_yet_live url) = elim (truthy url) [ none ↦ not_yet_live_page | some u ↦ fallback u ]

-- `verify_password`: argon2 for v2, plain text before.
unfoldable pub verify_password : (String → String → Bool) → UrlCacheData → Option String → Bool
verify_password verify_hash link password = elim (truthy link.password_hash) [
  | none ↦ true
  | some hash ↦ elim password [
    | none ↦ false
    | some p ↦ if is_v2 link.schema_version then verify_hash p hash else str_eq p hash
  ]
]

unfoldable pub wants_preview : Classifiers → Visit → Bool
wants_preview c v =
    (v.bot_param || str_eq v.method "HEAD")
    || (not (str_eq v.user_agent "") && c.is_preview_agent v.user_agent)

abbrev pub is_untracked : String → Bool
is_untracked method = str_eq method "HEAD" || str_eq method "OPTIONS"

unfoldable pub should_block_bot : Classifiers → Visit → UrlCacheData → SchemaVersion → Bool
should_block_bot c v link schema =
    not (is_untracked v.method)
    && (not (str_eq v.user_agent "")
        && (link.block_bots && (not (is_v2 schema) && c.is_bot_request v.user_agent)))

-- An entry of a dictionary.
abbrev pub entry : List (String × String) → String → Option String
entry [] k = none
entry ((j, u) ∷ rules) k = if str_eq j k then some u else entry rules k

abbrev pub rules_of : UrlCacheData → List (String × String)
rules_of link = elim link.geo_rules [ none ↦ [] | some rules ↦ rules ]

abbrev pub variants_of : UrlCacheData → List AbVariant
variants_of link = elim link.ab_variants [ none ↦ [] | some vs ↦ vs ]

-- The header's country, else the one of the address.
abbrev pub country : Classifiers → Visit → Option String
country c v = elim (truthy v.header_country) [ none ↦ truthy c.country_of_ip | some k ↦ some k ]

-- The rule of the visitor's country.
abbrev pub matched_rule : List (String × String) → Option String → Option String
matched_rule rules none = none
matched_rule rules (some k) = entry rules k

abbrev pub url_at : List AbVariant → ℕ → String → String
url_at [] n default_url = default_url
url_at (v ∷ vs) zero default_url = v.url
url_at (v ∷ vs) (suc n) default_url = url_at vs n default_url

-- A chosen variant's destination, else the default one.
abbrev pub split : List AbVariant → Option ℕ → String → String
split vs none default_url = default_url
split vs (some n) default_url = url_at vs n default_url

-- A matched country decides; the split is for the others.
abbrev pub destination_of : Option String → UrlCacheData → ℕ → String
destination_of (some url) link roll = url
destination_of none link roll =
    split (variants_of link) (pick_variant (variants_of link) roll) link.long_url

unfoldable pub destination : Classifiers → Visit → UrlCacheData → String
destination c v link = destination_of (matched_rule (rules_of link) (country c v)) link v.roll

abbrev pub is_empty {ℓ} : {A : Type ℓ} → List A → Bool
is_empty [] = true
is_empty (x ∷ xs) = false

-- A resolved link: the preview before the password, the password before the bots, and the click
-- before the redirect.
unfoldable pub serve : Classifiers → Visit → UrlCacheData → SchemaVersion → Response
serve c v link schema =
    if not (is_none link.meta_title) && (is_v2 schema && wants_preview c v)
    then preview_page
    else if not (verify_password c.verify_hash link v.password)
    then password_page
    else if should_block_bot c v link schema
    then forbidden_page
    else if not (is_untracked v.method) && c.sink_forbids
    then forbidden_page
    else redirect (destination c v link) (is_empty (rules_of link) && is_empty (variants_of link))

unfoldable pub redirect_url :
    Classifiers → Visit → Result ResolveError (UrlCacheData × SchemaVersion) → Response
unfolding serve on_error
redirect_url c v (err e) = on_error e
redirect_url c v (ok (link, schema)) = serve c v link schema
