-- ===== src/Links/Edit/Built.antt =====
-- What the chain of the field handlers (services/url_service.py, FIELD_HANDLERS) says of the changes
-- that it collects, for the fields that the proofs are about.
use spoo.Base.{
  ℕ, ◌&&◌, String, ◌≡◌, refl, true, Option, none, some, ok, arith, Returns, Returns-bind,
  Returns-ok, if_keeps, str_eq, Bool-cases, inl, inr,
}
use spoo.Links.{UrlV2Doc}
use spoo.Links.Resolve.{Deployment, Site}
use spoo.Links.Edit.{Rules, UpdateUrlRequest, Field}
use spoo.Links.Edit.Values.{is_reserved_alias}
use spoo.Links.Edit.Availability.{check_alias_available, canonical_alias}
use spoo.Links.Edit.Handlers.{
  Ops, from, handle_long_url, handle_password, handle_max_clicks, handle_date, handle_destination,
  handle_simple, handle_status, handle_geo_rules, handle_ab_variants,
}
use spoo.Links.Edit.Labels.{handle_tag_ids, handle_meta_tags}
use spoo.Links.Edit.Chain.{build_ops, handle_alias, handle_domain, alias_scope}

module _ (app : Deployment) (rules : Rules) (s : Site app) where
  open app use {system_domain}

  module _ (r : UpdateUrlRequest) (d : UrlV2Doc) (now : ℕ) where
    pub record IsBuilt (ops : Ops) : Type 0 where
      pub alias : handle_alias app rules r.alias r.domain d s ≡ ok ops.alias
      pub domain : handle_domain app rules r.domain ops.alias d s ≡ ok ops.domain
      pub max_clicks : handle_max_clicks r.max_clicks d.max_clicks ≡ ok ops.max_clicks
      pub expire_after :
          handle_date "expire_after" r.expire_after d.expire_after now ≡ ok ops.expire_after
      pub status : handle_status r.status d.status ≡ ok ops.status

    pub build_ops-IsBuilt :
        (ip : Option String) → Returns IsBuilt (build_ops app rules r d now ip s)
    unfolding build_ops
    build_ops-IsBuilt ip =
        Returns-bind _ (handle_long_url rules r.long_url d.long_url) _ λ long_url _.
          Returns-bind _ (handle_alias app rules r.alias r.domain d s) _ λ alias e1.
            Returns-bind _ (handle_domain app rules r.domain alias d s) _ λ domain e2.
              Returns-bind _ (handle_password rules r.password d.password) _ λ password _.
                Returns-bind _ (handle_max_clicks r.max_clicks d.max_clicks) _ λ max_clicks e3.
                  Returns-bind _ (handle_date "expire_after" r.expire_after d.expire_after now) _
                    λ expire_after e4.
                      Returns-bind _ (handle_date "starts_at" r.starts_at d.starts_at now) _
                        λ starts_at _.
                          Returns-bind _
                            (handle_destination rules "pre_start_url" r.pre_start_url
                              d.pre_start_url)
                            _
                            λ pre_start_url _.
                              Returns-bind _ (handle_simple r.block_bots d.block_bots) _
                                λ block_bots _.
                                  Returns-bind _ (handle_simple r.private_stats d.private_stats) _
                                    λ private_stats _.
                                      Returns-bind _ (handle_status r.status d.status) _
                                        λ status e5.
                                          Returns-bind _
                                            (handle_geo_rules rules r.geo_rules d.geo_rules) _
                                            λ geo_rules _.
                                              Returns-bind _
                                                (handle_tag_ids rules r.tag_ids d.tag_ids
                                                  d.owner_id)
                                                _
                                                λ tag_ids _.
                                                  Returns-bind _
                                                    (handle_ab_variants rules r.ab_variants
                                                      d.ab_variants)
                                                    _
                                                    λ ab_variants _.
                                                      Returns-bind _
                                                        (handle_destination rules
                                                          "expired_redirect_url"
                                                          r.expired_redirect_url
                                                          d.expired_redirect_url)
                                                        _
                                                        λ expired_redirect_url _.
                                                          Returns-bind _
                                                            (handle_meta_tags rules r.meta_tags
                                                            d.meta_tags d.owner_id
                                                            (from long_url d.long_url) now ip)
                                                            _
                                                            λ meta_tags _. record {
                                                            alias = e1;
                                                            domain = e2;
                                                            max_clicks = e3;
                                                            expire_after = e4;
                                                            status = e5;
                                                            }

  -- A new alias is free where the link will stand.
  pub handle_alias-available :
      (alias : Option String) (domain : Field String) (d : UrlV2Doc) (a : String)
      → handle_alias app rules alias domain d s ≡ ok (some a)
      → check_alias_available app rules a (alias_scope app rules domain d.domain) s ≡ true
  unfolding handle_alias
  handle_alias-available none domain d a h = absurd (ground (arith, h))
  handle_alias-available (some alias) domain d a h =
      let scope = alias_scope app rules domain d.domain in
      let Available : Option String → Type 0 =
        λ w. (b : String) → w ≡ some b → check_alias_available app rules b scope s ≡ true in
      Returns-ok Available (handle_alias app rules (some alias) domain d s) (some a) h
        (Returns-bind Available (canonical_alias app rules alias) _ (λ new _.
          if_keeps (Returns Available) (str_eq new d.alias) _ _
            (λ same b e. absurd (ground (arith, e)))
            (λ other.
              if_keeps (Returns Available) (str_eq scope system_domain && is_reserved_alias new) _ _
                (λ reserved. tt)
                (λ plain. elim (Bool-cases (check_alias_available app rules new scope s)) [
                  | inl free ↦
                      rw free (λ b e. let eq : new ≡ b = ground (arith, e) in rw (← eq) free)
                  | inr taken ↦ rw taken tt
                ]))))
        a refl
