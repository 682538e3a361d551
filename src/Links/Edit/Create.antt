-- ===== src/Links/Edit/Create.antt =====
-- services/url_service.py, `create` and the generators of aliases. The ten random codes, the claim
-- token, the new `_id` and the moment are arguments.
use spoo.Base.{
  ℕ, zero, suc, ◌==◌, String, Bool, true, ◌&&◌, not, Option, none, some, List, [], ◌∷◌, ◌++◌,
  Result, ok, err, ◌>>=◌, ◌>>◌, raise_if, leb, str_eq, if◌then◌else◌,
}
use spoo.Links.{UrlV2Doc, active, LinkMetaTags, AbVariant, anonymous_owner_id}
use spoo.Links.Cached.{truthy, from_v2_doc}
use spoo.Links.Resolve.{Deployment, Site}
use spoo.Links.Edit.{
  Rules, EditError, invalid, alias_taken, aliases_exhausted, CreateUrlRequest, MetaTagsRequest,
  Effect, og_synced,
}
use spoo.Links.Edit.Values.{is_reserved_alias, has_items}
use spoo.Links.Edit.Availability.{
  check_alias_available, check_alias_exists, canonical_alias, scope_of,
}
use spoo.Links.Edit.Handlers.{
  from, validate_geo_rules_shape, check_geo_destinations, validate_ab_variants_shape,
  check_variant_destinations, check_start_before_expiry,
}
use spoo.Links.Edit.Labels.{
  resolve_meta_image, validate_meta_tags, resolve_tag_ids, stored_meta_tags,
}
use spoo.Links.Edit.Update.{is_some, image_effects, link_effects}

-- A list that may be missing; an empty one counts as missing.
abbrev pub items {ℓ} : {A : Type ℓ} → Option (List A) → List A
items l = from l []

abbrev pub some_items {ℓ} : {A : Type ℓ} → Option (List A) → Option (List A)
some_items l = if has_items l then l else none

-- The same date rule as for an edit.
abbrev pub check_future : String → Option ℕ → ℕ → Result EditError (Unit {0})
check_future field none now = ok tt
check_future field (some t) now = raise_if (leb t now) (invalid field)

module _ (rules : Rules) where
  abbrev pub check_destination : String → Option String → Result EditError (Unit {0})
  check_destination field none = ok tt
  check_destination field (some url) = raise_if (rules.rejects url) (invalid field)

  -- The request's preview, once its image is resolved and its texts are checked.
  unfoldable pub created_meta_tags :
      Option MetaTagsRequest → ℕ → String → String → ℕ → Result EditError (Option LinkMetaTags)
  unfolding resolve_meta_image validate_meta_tags
  created_meta_tags none owner long_url ip now = ok none
  created_meta_tags (some r) owner long_url ip now = do
    (m, known) ← resolve_meta_image rules r owner
    validate_meta_tags rules m long_url
    ok (some (stored_meta_tags rules m known now (some ip)))

  abbrev pub check_geo : List (String × String) → Result EditError (Unit {0})
  check_geo [] = ok tt
  check_geo (e ∷ geo) = do
    validate_geo_rules_shape rules (e ∷ geo)
    check_geo_destinations rules (e ∷ geo)

  abbrev pub check_variants : List AbVariant → Result EditError (Unit {0})
  check_variants [] = ok tt
  check_variants (v ∷ vs) = do
    validate_ab_variants_shape rules (v ∷ vs)
    check_variant_destinations rules 0 (v ∷ vs)

  -- Everything that is checked before the alias; the result is the preview.
  unfoldable pub check_request :
      CreateUrlRequest → ℕ → String → ℕ → Result EditError (Option LinkMetaTags)
  unfolding created_meta_tags validate_geo_rules_shape check_geo_destinations
      validate_ab_variants_shape check_variant_destinations check_start_before_expiry
  check_request r owner ip now = do
    raise_if (rules.rejects r.long_url) (invalid "long_url")
    check_geo (items r.geo_rules)
    check_variants (items r.ab_variants)
    check_destination "expired_redirect_url" (truthy r.expired_redirect_url)
    meta ← created_meta_tags r.meta_tags owner r.long_url ip now
    check_future "expire_after" r.expire_after now
    check_future "starts_at" r.starts_at now
    check_start_before_expiry r.starts_at r.expire_after
    check_destination "pre_start_url" (truthy r.pre_start_url)
    ok meta

  -- `owner_id if owner_id is not None else ANONYMOUS_OWNER_ID`
  abbrev pub owner_of : Option ℕ → ℕ
  owner_of owner = from owner anonymous_owner_id

  unfoldable pub new_doc :
      CreateUrlRequest
      → Option ℕ
      → String
      → String
      → List ℕ
      → Option LinkMetaTags
      → String
      → UrlV2Doc
  new_doc r owner alias domain tags meta token = record {
    alias = alias;
    owner_id = owner_of owner;
    domain = domain;
    long_url = r.long_url;
    password = elim (truthy r.password) [ none ↦ none | some p ↦ some (rules.hash_password p) ];
    block_bots = r.block_bots;
    max_clicks = r.max_clicks;
    expire_after = r.expire_after;
    starts_at = r.starts_at;
    pre_start_url = truthy r.pre_start_url;
    geo_rules = some_items r.geo_rules;
    tag_ids = tags;
    ab_variants = some_items r.ab_variants;
    expired_redirect_url = truthy r.expired_redirect_url;
    status = active;
    private_stats = elim r.private_stats [
      | some b ↦ some b
      | none ↦ if is_some owner then some true else none
    ];
    meta_tags = meta;
    total_clicks = 0;
    last_click = none;
    updated_at = none;
    claim_token_hash =
        if owner_of owner == anonymous_owner_id then some (rules.hash_token token) else none;
    claimed_at = none;
  }

module _ (app : Deployment) (rules : Rules) where
  open app use {db, system_domain}

  -- `draw n` is the code that is drawn when `n` tries are left after it.
  unfoldable pub generate_unique_alias :
      ℕ → (ℕ → String) → String → Site app → Result EditError String
  unfolding check_alias_exists
  generate_unique_alias zero draw target s = err aliases_exhausted
  generate_unique_alias (suc n) draw target s =
      let rest = generate_unique_alias n draw target s in
      if not (check_alias_exists app rules (draw n) target s) then ok (draw n) else rest

  unfoldable pub generate_unique_emoji_alias :
      ℕ → (ℕ → String) → String → Site app → Result EditError String
  unfolding check_alias_available
  generate_unique_emoji_alias zero draw target s = err aliases_exhausted
  generate_unique_emoji_alias (suc n) draw target s =
      let rest = generate_unique_emoji_alias n draw target s in
      if check_alias_available app rules (draw n) target s then ok (draw n) else rest

  unfoldable pub custom_alias : String → String → Site app → Result EditError String
  unfolding canonical_alias is_reserved_alias check_alias_available
  custom_alias alias target s = do
    new ← canonical_alias app rules alias
    raise_if (str_eq target system_domain && is_reserved_alias new) (invalid "alias")
    raise_if (not (check_alias_available app rules new target s)) alias_taken
    ok new

  unfoldable pub choose_alias :
      Option String → Bool → (ℕ → String) → String → Site app → Result EditError String
  unfolding custom_alias generate_unique_alias generate_unique_emoji_alias
  choose_alias none emoji_alias draw target s =
      if emoji_alias
      then generate_unique_emoji_alias 10 draw target s
      else generate_unique_alias 10 draw target s
  choose_alias (some alias) emoji_alias draw target s = custom_alias alias target s

  -- The document that a request makes.
  unfoldable pub created_doc :
      CreateUrlRequest
      → Option ℕ
      → String
      → Option String
      → (ℕ → String)
      → String
      → ℕ
      → Site app
      → Result EditError UrlV2Doc
  unfolding check_request choose_alias resolve_tag_ids new_doc
  created_doc r owner ip domain draw token now s = do
    let target = scope_of app rules domain
    meta ← check_request rules r (owner_of rules owner) ip now
    alias ← choose_alias (truthy r.alias) r.emoji_alias draw target s
    tags ← resolve_tag_ids rules (items r.tag_ids) owner
    ok (new_doc rules r owner alias target tags meta token)

  -- The document and, for an anonymous link, the claim token.
  abbrev pub Created : Type 0
  Created = Result EditError (UrlV2Doc × Option String) × Site app × List Effect

  unfoldable pub insert : ℕ → UrlV2Doc → Site app → Site app
  insert id d s = record s { urls = db.put id d s.urls }

  unfoldable pub store : Result EditError UrlV2Doc → String → ℕ → Site app → Created
  unfolding insert from_v2_doc
  store (err e) token id s = (err e, s, [])
  store (ok d) token id s = (
    ok (d, if d.owner_id == anonymous_owner_id then some token else none),
    insert id d s,
    (if is_some d.meta_tags && rules.has_writethrough
          then og_synced (from_v2_doc id d) ∷ []
          else [])
        ++ image_effects rules.has_image_sink id d.meta_tags
        ++ link_effects "link.created" d,
  )

  unfoldable pub create :
      CreateUrlRequest
      → Option ℕ
      → String
      → Option String
      → (ℕ → String)
      → String
      → ℕ
      → ℕ
      → Site app
      → Created
  unfolding created_doc store
  create r owner ip domain draw token id now s =
      store (created_doc r owner ip domain draw token now s) token id s
