-- ===== src/Links/Requests.antt =====
-- The cache of services/url_service.py stays in step with the collection through a request.
use spoo.Base.{
  ℕ, String, ◌≡◌, ◌∙◌, refl, sym, subst, true, false, ◌&&◌, ◌||◌, Option, none, some, inl, inr,
  arith, Option-cases, if◌then◌else◌, if_keeps, and-eq-true, is_none, Result, str_eq, eq_iff,
}
use spoo.Base.Collection.{ascending}
use spoo.Links.{LegacyUrlDoc, UrlCacheData, SchemaVersion, v2, v1, emoji, is_v2, is_v1}
use spoo.Links.Alias.{v2_lookup_code, resolution_order, emoji_lookup_candidates}
use spoo.Links.Cached.{
  from_v2_doc, legacy_doc_to_cache, is_non_active, is_time_expired, is_not_yet_live,
  clicks_exhausted, truthy, ResolveError,
}
use spoo.Links.Resolve.{
  Deployment, Site, Answer, has_emoji, starts_with_v1, find_by_alias, at_alias, first_found, v2_or,
  legacy_or, find_legacy, dispatch, dispatch_by, dispatch_custom_domain, try_v1_then_v2,
  try_v2_then_v1, check_live, resolved, look_up, resolve, cache_get, populate_cache,
}
use spoo.Links.Coherent.{Keyed, IsKeyed, cache_put-IsKeyed, cache_put-urls, flip-IsKeyed}

module _ (app : Deployment) where
  open app use {db, policy, system_domain}

  abbrev OutcomeOf : Type 0
  OutcomeOf = Result ResolveError (UrlCacheData × SchemaVersion) × Site app

  abbrev Kept : OutcomeOf → Type 0
  Kept r = IsKeyed app r.1

  check_live-IsKeyed :
      (link : UrlCacheData) (schema : SchemaVersion) (code : String) (now : ℕ) (s : Site app)
      → (is_v2 schema ≡ true → Keyed app s.urls code link)
      → IsKeyed app s
      → Kept (check_live app link schema code now s)
  unfolding check_live
  check_live-IsKeyed link schema code now s keyed h =
      if_keeps Kept (is_time_expired link now) _ _
        (λ over. flip-IsKeyed app link schema code now s keyed h)
        (λ before_end. if_keeps Kept (is_not_yet_live link now) _ _ (λ early. h) (λ started. h))

  -- What an answer must say for its link to be cached.
  abbrev Answers : String → db.State → Answer → Type 0
  Answers code urls (none, schema) = Unit
  Answers code urls (some link, schema) =
      (is_v2 link.schema_version ≡ is_v2 schema) × (is_v2 schema ≡ true → Keyed app urls code link)

  populate_cache-IsKeyed :
      (code : String) (link : UrlCacheData) (schema : SchemaVersion) (s : Site app)
      → Answers code s.urls (some link, schema)
      → IsKeyed app s
      → IsKeyed app (populate_cache app code link schema s)
        × ((populate_cache app code link schema s).urls ≡ s.urls)
  unfolding populate_cache
  populate_cache-IsKeyed code link schema s (kind, keyed) h =
      if_keeps (λ (t : Site app). IsKeyed app t × (t.urls ≡ s.urls))
        (is_v2 schema || (is_v1 schema && is_none link.max_clicks)) _ _
        (λ cached. (
          cache_put-IsKeyed app code link s (λ two. keyed (sym kind ∙ two)) h,
          cache_put-urls app code link.domain (some link) s,
        ))
        (λ uncached. (h, refl))

  resolved-IsKeyed :
      (a : Answer) (code : String) (now : ℕ) (s : Site app)
      → Answers code s.urls a
      → IsKeyed app s
      → Kept (resolved app a code now s)
  unfolding resolved
  resolved-IsKeyed (none, schema) code now s answers h = h
  resolved-IsKeyed (some link, schema) code now s (kind, keyed) h =
      let s' = populate_cache app code link schema s in
      let (h', same) = populate_cache-IsKeyed code link schema s (kind, keyed) h in
      if_keeps Kept (is_non_active link schema) _ _ (λ dead. h')
        (λ alive.
          if_keeps Kept (clicks_exhausted link schema) _ _ (λ full. h')
            (λ free.
              check_live-IsKeyed link schema code now s'
                (λ two. subst (λ u. Keyed app u code link) (sym same) (keyed two)) h'))

  module _ (s : Site app) where
    find_by_alias-Keyed :
        (code domain : String) (other : Answer)
        → Answers code s.urls other
        → Answers code s.urls (v2_or (find_by_alias app code domain s) other)
    unfolding find_by_alias from_v2_doc
    find_by_alias-Keyed code domain other h =
        let query = at_alias app code domain in
        elim (Option-cases (db.pick ascending query (λ d. 0) s.urls)) [
          | inl missing ↦ rw missing h
          | inr ((id, d), found) ↦
              let (stored, matches, first) =
                db.pick-some ascending query (λ x. 0) s.urls id d found in
              rw found (
                refl,
                λ two. (id, d, stored, refl, (eq_iff d.alias code).0 (and-eq-true _ _ matches).0),
              )
        ]

    legacy_or-Keyed :
        (code : String) (found : Option (String × LegacyUrlDoc)) (schema : SchemaVersion)
        (other : Answer)
        → is_v2 schema ≡ false
        → Answers code s.urls other
        → Answers code s.urls (legacy_or app found schema other)
    unfolding legacy_doc_to_cache
    legacy_or-Keyed code none schema other old h = h
    legacy_or-Keyed code (some (c, d)) schema other old h =
        (refl, λ two. absurd (ground (arith, two, old)))

    dispatch-Keyed : (code raw : String) → Answers code s.urls (dispatch app code raw s)
    unfolding dispatch dispatch_by try_v1_then_v2 try_v2_then_v1
    dispatch-Keyed code raw =
        let P = Answers code s.urls in
        let legacy = find_legacy app code s in
        let old = first_found s.emojis (emoji_lookup_candidates policy raw) in
        if_keeps P (has_emoji (resolution_order policy raw)) _ _
          (λ shaped.
            find_by_alias-Keyed code system_domain (legacy_or app old emoji (none, emoji))
              (legacy_or-Keyed code old emoji (none, emoji) refl tt))
          (λ plain.
            if_keeps P (starts_with_v1 (resolution_order policy raw)) _ _
              (λ six.
                legacy_or-Keyed code legacy v1
                  (v2_or (find_by_alias app code system_domain s) (none, v2)) refl
                  (find_by_alias-Keyed code system_domain (none, v2) tt))
              (λ other.
                find_by_alias-Keyed code system_domain (legacy_or app legacy v1 (none, v2))
                  (legacy_or-Keyed code legacy v1 (none, v2) refl tt)))

    dispatch_custom_domain-Keyed :
        (code domain : String) → Answers code s.urls (dispatch_custom_domain app code domain s)
    unfolding dispatch_custom_domain
    dispatch_custom_domain-Keyed code domain = find_by_alias-Keyed code domain (none, v2) tt

  look_up-IsKeyed :
      (entry : Option UrlCacheData) (code raw scope : String) (now : ℕ) (s : Site app)
      → cache_get app code scope s ≡ entry
      → IsKeyed app s
      → Kept (look_up app entry code raw scope now s)
  unfolding look_up
  look_up-IsKeyed (some l) code raw scope now s found h =
      if_keeps Kept (is_non_active l l.schema_version) _ _ (λ dead. h)
        (λ alive.
          check_live-IsKeyed l l.schema_version code now s (λ two. (h scope code l found two).0) h)
  look_up-IsKeyed none code raw scope now s found h =
      resolved-IsKeyed
        (if str_eq scope system_domain
          then dispatch app code raw s
          else dispatch_custom_domain app code scope s)
        code now s
        (if_keeps (Answers code s.urls) (str_eq scope system_domain) _ _
          (λ own. dispatch-Keyed s code raw) (λ custom. dispatch_custom_domain-Keyed s code scope))
        h

  pub resolve-IsKeyed :
      (raw : String) (domain : Option String) (now : ℕ) (s : Site app)
      → IsKeyed app s
      → IsKeyed app (resolve app raw domain now s).1
  unfolding resolve
  resolve-IsKeyed raw domain now s h =
      let scope : String = elim (truthy domain) [ none ↦ system_domain | some d ↦ d ] in
      let code = v2_lookup_code policy raw in
      look_up-IsKeyed (cache_get app code scope s) code raw scope now s refl h
