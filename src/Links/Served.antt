-- ===== src/Links/Served.antt =====
-- What services/url_service.py, `resolve`, serves is live: against `effective_status` of the stored
-- document (schemas/models/url.py).
use spoo.Base.{
  ℕ, String, ◌≡◌, ◌≢◌, ◌∙◌, refl, ap, subst, true, false, Option, none, some, inl, inr, arith,
  Bool-cases, if◌then◌else◌, if_keeps, ok, str_eq,
}
use spoo.Base.Collection.{ascending}
use spoo.Links.{
  UrlV2Doc, LegacyUrlDoc, UrlCacheData, SchemaVersion, v2, v1, emoji, scheduled, is_v2,
}
use spoo.Links.Alias.{v2_lookup_code, resolution_order, emoji_lookup_candidates}
use spoo.Links.Cached.{
  from_v2_doc, is_non_active, is_time_expired, is_not_yet_live, clicks_exhausted, truthy,
}
use spoo.Links.Resolve.{
  Deployment, Site, Answer, has_emoji, starts_with_v1, find_by_alias, at_alias, first_found, v2_or,
  legacy_or, find_legacy, dispatch, dispatch_by, dispatch_custom_domain, try_v1_then_v2,
  try_v2_then_v1, check_live, resolved, look_up, resolve, cache_get, populate_cache,
}
use spoo.Links.Live.{IsLive, from_v2_doc-IsLive}

module _ (app : Deployment) where
  open app use {db, policy, system_domain}

  -- The link is what the cache keeps of a stored document.
  abbrev pub IsProjection : Site app → UrlCacheData → Type 0
  IsProjection s link =
      (id : ℕ) × (d : UrlV2Doc) × (db.get s.urls id ≡ some d) × (link ≡ from_v2_doc id d)

  module _ (s : Site app) where
    -- An answer of the second generation is one.
    abbrev HasOrigin : Answer → Type 0
    HasOrigin (none, schema) = Unit
    HasOrigin (some link, schema) = is_v2 schema ≡ true → IsProjection s link

    v2_or-HasOrigin :
        (found : Option (ℕ × UrlV2Doc)) (other : Answer)
        → ((id : ℕ) (d : UrlV2Doc) → found ≡ some (id, d) → db.get s.urls id ≡ some d)
        → HasOrigin other
        → HasOrigin (v2_or found other)
    v2_or-HasOrigin none other stored h = h
    v2_or-HasOrigin (some (id, d)) other stored h = λ v. (id, d, stored id d refl, refl)

    legacy_or-HasOrigin :
        (found : Option (String × LegacyUrlDoc)) (schema : SchemaVersion) (other : Answer)
        → is_v2 schema ≡ false
        → HasOrigin other
        → HasOrigin (legacy_or app found schema other)
    legacy_or-HasOrigin none schema other old h = h
    legacy_or-HasOrigin (some (code, d)) schema other old h = λ v. absurd (ground (arith, v, old))

    find_by_alias-stored :
        (code domain : String) (id : ℕ) (d : UrlV2Doc)
        → find_by_alias app code domain s ≡ some (id, d)
        → db.get s.urls id ≡ some d
    unfolding find_by_alias
    find_by_alias-stored code domain id d h =
        (db.pick-some ascending (at_alias app code domain) (λ x. 0) s.urls id d h).0

    dispatch-HasOrigin : (code raw : String) → HasOrigin (dispatch app code raw s)
    unfolding dispatch dispatch_by try_v1_then_v2 try_v2_then_v1
    dispatch-HasOrigin code raw =
        let found = find_by_alias app code system_domain s in
        let legacy = find_legacy app code s in
        let old = first_found s.emojis (emoji_lookup_candidates policy raw) in
        let stored = find_by_alias-stored code system_domain in
        if_keeps HasOrigin (has_emoji (resolution_order policy raw)) _ _
          (λ shaped.
            v2_or-HasOrigin found (legacy_or app old emoji (none, emoji)) stored
              (legacy_or-HasOrigin old emoji (none, emoji) refl tt))
          (λ plain.
            if_keeps HasOrigin (starts_with_v1 (resolution_order policy raw)) _ _
              (λ six.
                legacy_or-HasOrigin legacy v1 (v2_or found (none, v2)) refl
                  (v2_or-HasOrigin found (none, v2) stored tt))
              (λ other.
                v2_or-HasOrigin found (legacy_or app legacy v1 (none, v2)) stored
                  (legacy_or-HasOrigin legacy v1 (none, v2) refl tt)))

    dispatch_custom_domain-HasOrigin :
        (code domain : String) → HasOrigin (dispatch_custom_domain app code domain s)
    unfolding dispatch_custom_domain
    dispatch_custom_domain-HasOrigin code domain =
        v2_or-HasOrigin (find_by_alias app code domain s) (none, v2)
          (find_by_alias-stored code domain) tt

  -- What a successful check returns.
  check_live-ok :
      (link : UrlCacheData) (schema : SchemaVersion) (code : String) (now : ℕ) (s : Site app)
      (link' : UrlCacheData) (schema' : SchemaVersion)
      → (check_live app link schema code now s).0 ≡ ok (link', schema')
      → (link ≡ link')
        × (schema ≡ schema')
        × (is_time_expired link now ≡ false)
        × (is_not_yet_live link now ≡ false)
  unfolding check_live
  check_live-ok link schema code now s link' schema' h =
      elim (Bool-cases (is_time_expired link now)) [
        | inl over ↦ absurd (ground (arith, over, h))
        | inr before_end ↦ elim (Bool-cases (is_not_yet_live link now)) [
          | inl early ↦ absurd (ground (arith, before_end, early, h))
          | inr started ↦ (
            ground (arith, before_end, started, h),
            ground (arith, before_end, started, h),
            before_end,
            started,
          )
        ]
      ]

  -- A served link: its projection, and that it passed the three tests.
  abbrev Passes : ℕ → Site app → UrlCacheData → SchemaVersion → Type 0
  Passes now s link schema =
      IsProjection s link
      × (is_non_active link schema ≡ false)
      × (is_time_expired link now ≡ false)
      × (is_not_yet_live link now ≡ false)

  resolved-Passes :
      (a : Answer) (code : String) (now : ℕ) (s t : Site app) (link : UrlCacheData)
      (schema : SchemaVersion)
      → HasOrigin t a
      → (resolved app a code now s).0 ≡ ok (link, schema)
      → is_v2 schema ≡ true
      → Passes now t link schema
  unfolding resolved
  resolved-Passes (none, old) code now s t link schema origin h two = absurd (ground (arith, h))
  resolved-Passes (some found, old) code now s t link schema origin h two =
      elim (Bool-cases (is_non_active found old)) [
        | inl dead ↦ absurd (ground (arith, dead, h))
        | inr alive ↦ elim (Bool-cases (clicks_exhausted found old)) [
          | inl used ↦ absurd (ground (arith, alive, used, h))
          | inr free ↦
              let (same, kind, before_end, started) =
                check_live-ok found old code now (populate_cache app code found old s) link schema
                  (ground (arith, alive, free, h)) in
              (
                subst (IsProjection t) same (origin (ap is_v2 kind ∙ two)),
                subst (λ l. is_non_active l schema ≡ false) same
                    (subst (λ k. is_non_active found k ≡ false) kind alive),
                subst (λ l. is_time_expired l now ≡ false) same before_end,
                subst (λ l. is_not_yet_live l now ≡ false) same started,
              )
        ]
      ]

  look_up-Passes :
      (entry : Option UrlCacheData) (code raw scope : String) (now : ℕ) (s : Site app)
      (link : UrlCacheData) (schema : SchemaVersion)
      → ((l : UrlCacheData) → entry ≡ some l → is_v2 l.schema_version ≡ true → IsProjection s l)
      → (look_up app entry code raw scope now s).0 ≡ ok (link, schema)
      → is_v2 schema ≡ true
      → Passes now s link schema
  unfolding look_up
  look_up-Passes (some found) code raw scope now s link schema cached h two =
      elim (Bool-cases (is_non_active found found.schema_version)) [
        | inl dead ↦ absurd (ground (arith, dead, h))
        | inr alive ↦
            let (same, kind, before_end, started) =
              check_live-ok found found.schema_version code now s link schema
                (ground (arith, alive, h)) in
            (
              subst (IsProjection s) same (cached found refl (ap is_v2 kind ∙ two)),
              subst (λ l. is_non_active l schema ≡ false) same
                  (subst (λ k. is_non_active found k ≡ false) kind alive),
              subst (λ l. is_time_expired l now ≡ false) same before_end,
              subst (λ l. is_not_yet_live l now ≡ false) same started,
            )
      ]
  look_up-Passes none code raw scope now s link schema cached h two =
      resolved-Passes
        (if str_eq scope system_domain
          then dispatch app code raw s
          else dispatch_custom_domain app code scope s)
        code now s s link schema
        (if_keeps (HasOrigin s) (str_eq scope system_domain) _ _
          (λ own. dispatch-HasOrigin s code raw)
          (λ custom. dispatch_custom_domain-HasOrigin s code scope))
        h two

  -- The cache holds projections of stored documents only, as far as the second generation goes.
  abbrev pub IsCoherent : Site app → Type 0
  IsCoherent s =
      (domain code : String) (l : UrlCacheData)
      → cache_get app code domain s ≡ some l
      → is_v2 l.schema_version ≡ true
      → IsProjection s l

  -- A served link is live. Where the cache holds projections of the stored documents and no stored
  -- status is SCHEDULED, a link of the second generation that a request is served, from the cache or
  -- from the collections, under the system's domain or another one, is the projection of a stored
  -- document that is effectively ACTIVE at that moment, or whose limit of clicks is reached.
  pub resolve-IsLive :
      (raw : String) (domain : Option String) (now : ℕ) (s : Site app) (link : UrlCacheData)
      (schema : SchemaVersion)
      → IsCoherent s
      → ((id : ℕ) (d : UrlV2Doc) → db.get s.urls id ≡ some d → d.status ≢ scheduled)
      → (resolve app raw domain now s).0 ≡ ok (link, schema)
      → is_v2 schema ≡ true
      → (id : ℕ) × (d : UrlV2Doc) × (db.get s.urls id ≡ some d)
        × (link ≡ from_v2_doc id d)
        × IsLive now d
  unfolding resolve
  resolve-IsLive raw domain now s link schema coherent unscheduled h two =
      let scope : String = elim (truthy domain) [ none ↦ system_domain | some d ↦ d ] in
      let code = v2_lookup_code policy raw in
      let ((id, d, stored, same), alive, before_end, started) =
        look_up-Passes (cache_get app code scope s) code raw scope now s link schema
          (coherent scope code) h two in
      (
        id,
        d,
        stored,
        same,
        from_v2_doc-IsLive id now d schema (unscheduled id d stored) two
            (subst (λ l. is_non_active l schema ≡ false) same alive)
            (subst (λ l. is_time_expired l now ≡ false) same before_end)
            (subst (λ l. is_not_yet_live l now ≡ false) same started),
      )
