-- ===== src/Links/Edit/Update.antt =====
-- services/url_service.py, `update`: an edit by the owner, with its writes to the collection and the
-- cache, and what it asks of the edge and the webhooks. Between the read and the write of one edit
-- nothing else runs here; the writes of others stand between operations.
use spoo.Base.{
  ℕ, ◌==◌, String, Bool, true, false, ◌&&◌, ◌||◌, not, Option, none, some, List, [], ◌∷◌, ◌++◌,
  Result, ok, err, ◌>>=◌, ◌>>◌, is_none, ltb, str_eq, if◌then◌else◌,
}
use spoo.Base.Collection.{find_and_update}
use spoo.Links.{
  UrlV2Doc, active, is_blocked, is_expired, is_inactive, LinkMetaTags, anonymous_owner_id,
}
use spoo.Links.Cached.{from_v2_doc}
use spoo.Links.Resolve.{Deployment, Site, cache_put}
use spoo.Links.Edit.{
  Rules, EditError, url_not_found, access_denied, blocked_link, UpdateUrlRequest, Effect, og_synced,
  og_removed, edge_purged, image_queued, link_event,
}
use spoo.Links.Edit.Handlers.{Ops, from, check_start_before_expiry}
use spoo.Links.Edit.Chain.{build_ops}

abbrev pub is_some {ℓ} : {A : Type ℓ} → Option A → Bool
is_some o = not (is_none o)

-- Whether a requested change improves a condition of expiry: a limit of clicks that is cleared or
-- above the clicks, a date that is cleared or ahead.
abbrev pub clicks_improved : Option (Option ℕ) → ℕ → Bool
clicks_improved none clicks = false
clicks_improved (some none) clicks = true
clicks_improved (some (some m)) clicks = ltb clicks m

abbrev pub expiry_improved : Option (Option ℕ) → ℕ → Bool
expiry_improved none now = false
expiry_improved (some none) now = true
expiry_improved (some (some t)) now = ltb now t

-- `_auto_reactivate`
unfoldable pub auto_reactivate : UrlV2Doc → Ops → ℕ → Ops
auto_reactivate d ops now =
    if not (is_expired d.status)
    then ops
    else if is_some ops.status
    then ops
    else if clicks_improved ops.max_clicks d.total_clicks || expiry_improved ops.expire_after now
    then record ops { status = some active }
    else ops

-- `not update_ops`
abbrev pub is_empty : Ops → Bool
is_empty o = not (
    is_some o.long_url
    || is_some o.alias
    || is_some o.domain
    || is_some o.password
    || is_some o.max_clicks
    || is_some o.expire_after
    || is_some o.starts_at
    || is_some o.pre_start_url
    || is_some o.block_bots
    || is_some o.private_stats
    || is_some o.status
    || is_some o.geo_rules
    || is_some o.tag_ids
    || is_some o.ab_variants
    || is_some o.expired_redirect_url
    || is_some o.meta_tags)

-- `$set` of what was collected, and of `updated_at`.
unfoldable pub apply : Ops → ℕ → UrlV2Doc → UrlV2Doc
apply o now d = record d {
  long_url = from o.long_url d.long_url;
  alias = from o.alias d.alias;
  domain = from o.domain d.domain;
  password = from o.password d.password;
  max_clicks = from o.max_clicks d.max_clicks;
  expire_after = from o.expire_after d.expire_after;
  starts_at = from o.starts_at d.starts_at;
  pre_start_url = from o.pre_start_url d.pre_start_url;
  block_bots = from o.block_bots d.block_bots;
  private_stats = from o.private_stats d.private_stats;
  status = from o.status d.status;
  geo_rules = from o.geo_rules d.geo_rules;
  tag_ids = from o.tag_ids d.tag_ids;
  ab_variants = from o.ab_variants d.ab_variants;
  expired_redirect_url = from o.expired_redirect_url d.expired_redirect_url;
  meta_tags = from o.meta_tags d.meta_tags;
  updated_at = some now;
}

-- `_maybe_emit_image_validation`: an image that was not uploaded here.
abbrev pub image_effects : Bool → ℕ → Option LinkMetaTags → List Effect
image_effects has_sink id none = []
image_effects has_sink id (some m) = elim m.image [
  | none ↦ []
  | some image ↦
      if has_sink && (not (str_eq image "") && is_none m.image_meta)
      then image_queued id image ∷ []
      else []
]

-- `_emit_link_event`: an anonymous link has no subscriber.
abbrev pub link_effects : String → UrlV2Doc → List Effect
link_effects type d = if d.owner_id == anonymous_owner_id then [] else link_event type d ∷ []

module _ (app : Deployment) (rules : Rules) where
  open app use {db, system_domain}

  -- `_purge_edge_key`
  abbrev pub purge_effects : String → String → List Effect
  purge_effects domain alias =
      if not rules.has_edge_kv || not (str_eq domain system_domain)
      then []
      else edge_purged domain alias ∷ []

  abbrev pub is_moved : UrlV2Doc → UrlV2Doc → Bool
  is_moved d e = not (str_eq e.alias d.alias && str_eq e.domain d.domain)

  -- What an edit of `d` that made it `e` asks of the edge: an entry with a custom preview follows the
  -- link, the promoted entry of a plain link is dropped.
  unfoldable pub edge_effects : ℕ → Ops → UrlV2Doc → UrlV2Doc → List Effect
  unfolding from_v2_doc
  edge_effects id o d e =
      let is_og = is_some d.meta_tags || is_some e.meta_tags in
      if rules.has_writethrough && is_og
      then (if is_some o.meta_tags
            || is_some o.long_url
            || is_some o.status
            || is_some o.alias
            || is_some o.domain
            || is_some o.starts_at
          then (if is_moved d e then og_removed d.domain d.alias ∷ [] else [])
            ++ og_synced (from_v2_doc id e) ∷ []
          else [])
      else if not is_og
          && ((is_some o.status && is_inactive (from o.status d.status))
              || is_some o.starts_at
              || is_moved d e)
      then purge_effects d.domain d.alias
      else []

  abbrev pub Edited : Type 0
  Edited = Result EditError UrlV2Doc × Site app × List Effect

  -- The entry of the old key is dropped, and that of the new one where they differ.
  unfoldable pub invalidate_both : UrlV2Doc → UrlV2Doc → Site app → Site app
  unfolding cache_put
  invalidate_both d e s =
      let s' = cache_put app d.alias d.domain none s in
      if is_moved d e then cache_put app e.alias e.domain none s' else s'

  unfoldable pub persist : ℕ → UrlV2Doc → Ops → ℕ → Site app → Edited
  unfolding apply invalidate_both edge_effects
  persist id d ops now s =
      if is_empty ops
      then (ok d, s, [])
      else (let e = apply ops now d in
          let urls = (find_and_update db id (λ x. true) (apply ops now) s.urls).1 in
          (
            ok e,
            invalidate_both d e (record s { urls = urls }),
            edge_effects id ops d e
                ++ (if is_some ops.meta_tags
                    then image_effects rules.has_image_sink id e.meta_tags
                    else [])
                ++ link_effects "link.updated" e,
          ))

  -- The checked changes.
  unfoldable pub edit_ops :
      UpdateUrlRequest → UrlV2Doc → ℕ → Option String → Site app → Result EditError Ops
  unfolding build_ops check_start_before_expiry auto_reactivate
  edit_ops r d now ip s = do
    ops ← build_ops app rules r d now ip s
    if is_some ops.starts_at || is_some ops.expire_after
        then check_start_before_expiry (from ops.starts_at d.starts_at)
            (from ops.expire_after d.expire_after)
        else ok tt
    ok (auto_reactivate d ops now)

  -- The changes, or the exception that a handler raised.
  unfoldable pub store : Result EditError Ops → ℕ → UrlV2Doc → ℕ → Site app → Edited
  unfolding persist
  store (err e) id d now s = (err e, s, [])
  store (ok ops) id d now s = persist id d ops now s

  unfoldable pub update_found :
      Option UrlV2Doc → ℕ → UpdateUrlRequest → ℕ → Option String → ℕ → Site app → Edited
  unfolding edit_ops store
  update_found none id r owner ip now s = (err url_not_found, s, [])
  update_found (some d) id r owner ip now s =
      if not (d.owner_id == owner)
      then (err access_denied, s, [])
      else if is_blocked d.status
      then (err blocked_link, s, [])
      else store (edit_ops r d now ip s) id d now s

  unfoldable pub update : ℕ → UpdateUrlRequest → ℕ → Option String → ℕ → Site app → Edited
  unfolding update_found
  update id r owner ip now s = update_found (db.get s.urls id) id r owner ip now s
