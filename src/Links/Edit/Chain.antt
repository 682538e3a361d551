-- ===== src/Links/Edit/Chain.antt =====
-- The two field handlers that read the collections, and all of them in the order of FIELD_HANDLERS
-- (services/url_service.py).
use spoo.Base.{
  ℕ, String, ◌&&◌, not, Option, none, some, Result, ok, err, ◌>>=◌, str_eq, if◌then◌else◌,
}
use spoo.Links.{UrlV2Doc}
use spoo.Links.Resolve.{Deployment, Site}
use spoo.Links.Edit.{
  Field, absent, null, given, Rules, EditError, invalid, alias_taken, UpdateUrlRequest,
}
use spoo.Links.Edit.Values.{is_reserved_alias}
use spoo.Links.Edit.Availability.{check_alias_available, canonical_alias, scope_of}
use spoo.Links.Edit.Handlers.{
  Ops, from, Write, unchanged, write, handle_long_url, handle_password, handle_max_clicks,
  handle_date, handle_destination, handle_simple, handle_status, handle_geo_rules,
  handle_ab_variants,
}
use spoo.Links.Edit.Labels.{handle_tag_ids, handle_meta_tags}

module _ (app : Deployment) (rules : Rules) where
  open app use {system_domain}

  -- `request.domain or self._system_default_domain`
  abbrev pub target_of : Field String → String
  target_of absent = system_domain
  target_of null = system_domain
  target_of (given d) = scope_of app rules (some d)

  -- The domain that the new alias has to be free on.
  abbrev pub alias_scope : Field String → String → String
  alias_scope absent current = current
  alias_scope null current = system_domain
  alias_scope (given d) current = target_of (given d)

  unfoldable pub handle_alias : Option String → Field String → UrlV2Doc → Site app → Write String
  unfolding canonical_alias check_alias_available is_reserved_alias
  handle_alias none domain d s = unchanged
  handle_alias (some alias) domain d s = do
    new ← canonical_alias app rules alias
    if str_eq new d.alias
        then unchanged
        else if str_eq (alias_scope domain d.domain) system_domain && is_reserved_alias new
        then err (invalid "alias")
        else if not (check_alias_available app rules new (alias_scope domain d.domain) s)
        then err alias_taken
        else write new

  -- A move to another domain, after the alias has been handled.
  abbrev pub move_to : String → Option String → UrlV2Doc → Site app → Write String
  move_to target alias d s =
      if str_eq target d.domain
      then unchanged
      else if str_eq target system_domain && is_reserved_alias (from alias d.alias)
      then err (invalid "domain")
      else elim alias [
        | some a ↦ write target
        | none ↦
            if not (check_alias_available app rules d.alias target s)
            then err alias_taken
            else write target
      ]

  unfoldable pub handle_domain : Field String → Option String → UrlV2Doc → Site app → Write String
  unfolding check_alias_available is_reserved_alias
  handle_domain absent alias d s = unchanged
  handle_domain null alias d s = move_to system_domain alias d s
  handle_domain (given t) alias d s = move_to (target_of (given t)) alias d s

  unfoldable pub build_ops :
      UpdateUrlRequest → UrlV2Doc → ℕ → Option String → Site app → Result EditError Ops
  unfolding handle_long_url handle_alias handle_domain handle_password handle_max_clicks handle_date
      handle_destination handle_geo_rules handle_tag_ids handle_ab_variants handle_meta_tags
  build_ops r d now ip s = do
    long_url ← handle_long_url rules r.long_url d.long_url
    alias ← handle_alias r.alias r.domain d s
    domain ← handle_domain r.domain alias d s
    password ← handle_password rules r.password d.password
    max_clicks ← handle_max_clicks r.max_clicks d.max_clicks
    expire_after ← handle_date "expire_after" r.expire_after d.expire_after now
    starts_at ← handle_date "starts_at" r.starts_at d.starts_at now
    pre_start_url ← handle_destination rules "pre_start_url" r.pre_start_url d.pre_start_url
    block_bots ← handle_simple r.block_bots d.block_bots
    private_stats ← handle_simple r.private_stats d.private_stats
    status ← handle_status r.status d.status
    geo_rules ← handle_geo_rules rules r.geo_rules d.geo_rules
    tag_ids ← handle_tag_ids rules r.tag_ids d.tag_ids d.owner_id
    ab_variants ← handle_ab_variants rules r.ab_variants d.ab_variants
    expired_redirect_url ←
        handle_destination rules "expired_redirect_url" r.expired_redirect_url
          d.expired_redirect_url
    meta_tags ←
        handle_meta_tags rules r.meta_tags d.meta_tags d.owner_id (from long_url d.long_url) now ip
    ok (record {
      long_url = long_url;
      alias = alias;
      domain = domain;
      password = password;
      max_clicks = max_clicks;
      expire_after = expire_after;
      starts_at = starts_at;
      pre_start_url = pre_start_url;
      block_bots = block_bots;
      private_stats = private_stats;
      status = status;
      geo_rules = geo_rules;
      tag_ids = tag_ids;
      ab_variants = ab_variants;
      expired_redirect_url = expired_redirect_url;
      meta_tags = meta_tags;
    })
