-- ===== src/Links/Tests.antt =====
-- Tests of the short links, and their theorems at concrete inputs.
use spoo.Base.{
  str_eq, Result, ℕ, ◌≡◌, ◌≢◌, ◌↔◌, ℕ-cases, refl, true, false, none, some, List, [], ◌∷◌, inl, inr,
  arith, is_none, ok, err,
}
use spoo.Base.Collection.{Collection, Holds}
use spoo.Base.Memory.{by_id}
use spoo.Links.{
  SchemaVersion, UrlCacheData, UrlV2Doc, LegacyUrlDoc, AbVariant, v2, v1, active, blocked, expired,
  scheduled,
}
use spoo.Links.Status.{effective_status, effective_status_clause, effective_status_clause_iff}
use spoo.Links.Alias.{EmojiPolicy, v2_lookup_code}
use spoo.Links.Cached.{
  ResolveError, from_v2_doc, legacy_doc_to_cache, v1_is_expired, expired_redirect,
}
use spoo.Links.Resolve.{
  Deployment, Site, dispatch, resolve_public, resolve, look_up, dispatch_by, resolved, check_live,
  find_by_alias, try_v2_then_v1, cache_get,
}
use spoo.Links.Same.{answer_link, public_link, dispatch-resolve_public}
use spoo.Links.Served.{IsCoherent, resolve-IsLive}
use spoo.Links.Live.{IsLive}
use spoo.Links.Coherent.{IsKeyed}
use spoo.Links.Redirect.{
  Visit, Classifiers, redirect, redirect_url, serve, destination, verify_password, should_block_bot,
}
use spoo.Links.Visits.{Meets, IsDestination, redirect_url-IsDestination}
use spoo.Links.Legacy.{resolved-v1_is_expired}
use spoo.Links.Handler.{handle, handle-Expired}
use spoo.Links.Variants.{pick_variant, count_rolls, is_choice, pick_variant-weight_at}

abbrev pub db : Collection ℕ UrlV2Doc
db = by_id {D = UrlV2Doc}

abbrev pub plain_text : EmojiPolicy
plain_text = record { is_emoji_alias = λ c. false; canonicalize = λ c. c }

abbrev pub app : Deployment
app = record { db = db; policy = plain_text; system_domain = "spoo.me" }

abbrev pub link : UrlV2Doc
link = record {
  alias = "summer-drop";
  owner_id = 1;
  domain = "spoo.me";
  long_url = "https://example.com/a";
  password = none;
  block_bots = none;
  max_clicks = some 3;
  expire_after = some 5000;
  starts_at = none;
  pre_start_url = none;
  geo_rules = none;
  ab_variants = none;
  expired_redirect_url = some "https://example.com/over";
  status = active;
  tag_ids = [];
  private_stats = none;
  meta_tags = none;
  total_clicks = 2;
  last_click = none;
  updated_at = none;
  claim_token_hash = none;
  claimed_at = none;
}

abbrev old : LegacyUrlDoc
old = record {
  url = "https://example.com/old";
  password = none;
  blocked = false;
  max_clicks = some 2;
  total_clicks = 2;
  block_bots = none;
  expiration_time = none;
}

abbrev pub site : Site app
site = record {
  urls = ((7, link) ∷ [], (refl, tt));
  legacy = λ c. none;
  emojis = λ c. none;
  caching = false;
  redis_up = true;
  cache = λ d c. none;
}

-- After its date the link is flipped to EXPIRED, and its fallback is served.
expired_test :
    (resolve app "summer-drop" none 5000 site).0 ≡ err (expired_redirect "https://example.com/over")
unfolding resolve look_up dispatch dispatch_by resolved check_live find_by_alias try_v2_then_v1
    cache_get from_v2_doc
expired_test = refl

served_test : (resolve app "summer-drop" none 4999 site).0 ≡ ok (from_v2_doc 7 link, v2)
unfolding resolve look_up dispatch dispatch_by resolved check_live find_by_alias try_v2_then_v1
    cache_get from_v2_doc
served_test = refl

effective_status_clause_iff_example :
    (effective_status_clause expired 5000 link ≡ true) ↔ (effective_status link 5000 ≡ expired)
effective_status_clause_iff_example = effective_status_clause_iff expired 5000 link (λ p. cc)

dispatch-resolve_public_example :
    answer_link app (dispatch app (v2_lookup_code plain_text "summer-drop") "summer-drop" site)
    ≡ public_link app (resolve_public app "summer-drop" site)
dispatch-resolve_public_example = dispatch-resolve_public app "summer-drop" site

site-IsCoherent : IsCoherent app site
unfolding cache_get
site-IsCoherent domain code l h two = absurd (ground (arith, h))

site-unscheduled : (id : ℕ) (d : UrlV2Doc) → db.get site.urls id ≡ some d → d.status ≢ scheduled
site-unscheduled id d h = elim (ℕ-cases 7 id) [
  | inl same ↦ ground (arith, same, h)
  | inr other ↦ absurd (ground (arith, other, h))
]

resolve-IsLive_example :
    (id : ℕ) × (d : UrlV2Doc) × (db.get site.urls id ≡ some d)
    × (from_v2_doc 7 link ≡ from_v2_doc id d)
    × IsLive 4999 d
resolve-IsLive_example =
    resolve-IsLive app "summer-drop" none 4999 site (from_v2_doc 7 link) v2 site-IsCoherent
      site-unscheduled served_test refl

resolved-v1_is_expired_example :
    ((resolved app (some (legacy_doc_to_cache "abcdef" old "spoo.me" v1), v1) "abcdef" 9000 site).0
      ≡ ok (legacy_doc_to_cache "abcdef" old "spoo.me" v1, v1))
    ↔ (v1_is_expired old 9000 ≡ false)
resolved-v1_is_expired_example = resolved-v1_is_expired app "abcdef" old 9000 site refl (λ t h. cc)

abbrev taken_down : Site app
taken_down = record site { urls = ((7, record link { status = blocked }) ∷ [], (refl, tt)) }

handle-Expired_example :
    Holds db
      (λ e. (e.total_clicks ≡ 3) × (e.status ≡ expired))
      (handle app "summer-drop" (from_v2_doc 7 link) false 4000 taken_down).urls
      7
unfolding from_v2_doc
handle-Expired_example =
    handle-Expired app "summer-drop" (from_v2_doc 7 link) false 4000 3 taken_down
      (record link { status = blocked }) refl refl (omega arith) refl

abbrev halves : List AbVariant
halves = record { url = "https://a"; weight = 30 } ∷ record { url = "https://b"; weight = 50 } ∷ []

pick_variant-weight_at_example :
    (count_rolls (λ r. is_choice 1 (pick_variant halves r)) 100 ≡ 50)
    × (count_rolls (λ r. is_none (pick_variant halves r)) 100 ≡ 20)
pick_variant-weight_at_example = pick_variant-weight_at halves 1 (omega arith)

abbrev pub cached_site : Site app
cached_site = record site { caching = true }

pub cached_site-IsKeyed : IsKeyed app cached_site
unfolding cache_get
cached_site-IsKeyed domain code l h two = absurd (ground (arith, h))

abbrev visit : Visit
visit = record {
  method = "GET";
  user_agent = "Mozilla/5.0";
  bot_param = false;
  password = some "open";
  header_country = some "DE";
  roll = 7;
}

abbrev classifiers : Classifiers
classifiers = record {
  is_preview_agent = λ a. false;
  is_bot_request = λ a. false;
  verify_hash = λ p hash. str_eq p hash;
  country_of_ip = none;
  sink_forbids = false;
}

abbrev guarded : UrlCacheData
guarded =
    from_v2_doc 7
      (record link { password = some "open"; geo_rules = some (("DE", "https://example.de") ∷ []) })

geo_test : redirect_url classifiers visit (ok (guarded, v2)) ≡ redirect "https://example.de" false
unfolding redirect_url serve destination verify_password should_block_bot from_v2_doc
geo_test = refl

redirect_url-IsDestination_example :
    (l : UrlCacheData) × (schema : SchemaVersion) × (◌≡◌
      {A = Result ResolveError (UrlCacheData × SchemaVersion)}
      (ok (guarded, v2))
      (ok (l, schema)))
    × IsDestination "https://example.de" l
    × (verify_password classifiers.verify_hash l visit.password ≡ true)
    × Meets classifiers visit l schema (redirect "https://example.de" false)
    × (false ≡ true → "https://example.de" ≡ l.long_url)
redirect_url-IsDestination_example =
    redirect_url-IsDestination classifiers visit (ok (guarded, v2)) "https://example.de" false
      geo_test
