-- ===== src/Links/Coherent.antt =====
-- The cache of services/url_service.py stays in step with the collection through `resolve`: what it
-- writes on a miss, and the flip of an expired link with the invalidation that follows it.
use spoo.Base.{
  ℕ, String, ◌≡◌, ◌≢◌, ◌⊎◌, ◌∙◌, refl, ap, sym, subst, Bool, true, false, ◌&&◌, Option, none, some,
  inl, inr, arith, Bool-cases, ℕ-cases, if_keeps, and-eq-true, str_eq, eq_iff,
}
use spoo.Base.Collection.{find_and_update-match, find_and_update-miss}
use spoo.Links.{UrlV2Doc, UrlCacheData, SchemaVersion, is_v2, is_active, expired}
use spoo.Links.Status.{time_passed}
use spoo.Links.Cached.{from_v2_doc}
use spoo.Links.Resolve.{
  Deployment, Site, cache_get, cache_put, is_answered, flip, expire_if_time_reached,
}

abbrev flipped : UrlV2Doc → UrlV2Doc
flipped d = record d { status = expired }

module _ (app : Deployment) where
  open app use {db}

  -- The link is the projection of a stored document with that alias.
  abbrev pub Keyed : db.State → String → UrlCacheData → Type 0
  Keyed urls code link =
      (id : ℕ) × (d : UrlV2Doc) × (db.get urls id ≡ some d)
      × (link ≡ from_v2_doc id d)
      × (d.alias ≡ code)

  -- Each cached link of the second generation is the projection of a stored document, under the
  -- alias and the domain of that document.
  abbrev pub IsKeyed : Site app → Type 0
  IsKeyed s =
      (domain code : String) (l : UrlCacheData)
      → cache_get app code domain s ≡ some l
      → is_v2 l.schema_version ≡ true
      → Keyed s.urls code l × (l.domain ≡ domain)

  -- What a read after a write of the cache finds.
  cache_get-cache_put :
      (code domain code' domain' : String) (entry : Option UrlCacheData) (s : Site app)
      (l : UrlCacheData)
      → cache_get app code' domain' (cache_put app code domain entry s) ≡ some l
      → ((domain' ≡ domain) × (code' ≡ code) × (entry ≡ some l))
        ⊎ (((domain' ≢ domain) ⊎ (code' ≢ code) ⊎ (is_answered app s ≡ false))
            × (cache_get app code' domain' s ≡ some l))
  unfolding cache_get cache_put
  cache_get-cache_put code domain code' domain' entry s l h =
      elim (Bool-cases (is_answered app s)) [
        | inr off ↦ inr (inr (inr off), ground (arith, off, h))
        | inl on ↦ elim (Bool-cases (str_eq domain' domain)) [
          | inr n ↦
              inr (inl (λ p. ground (arith, n, eq_iff domain' domain, p)), ground (arith, on, n, h))
          | inl d ↦ elim (Bool-cases (str_eq code' code)) [
            | inr n ↦ inr (
              inr (inl (λ p. ground (arith, n, eq_iff code' code, p))),
              ground (arith, on, d, n, h),
            )
            | inl c ↦
                inl (
                  (eq_iff domain' domain).0 d,
                  (eq_iff code' code).0 c,
                  ground (arith, on, d, c, h),
                )
          ]
        ]
      ]

  pub cache_put-urls :
      (code domain : String) (entry : Option UrlCacheData) (s : Site app)
      → (cache_put app code domain entry s).urls ≡ s.urls
  unfolding cache_put
  cache_put-urls code domain entry s =
      if_keeps (λ (t : Site app). t.urls ≡ s.urls) (is_answered app s) _ _ (λ on. refl)
        (λ off. refl)

  -- A write of a keyed link, or of one of another generation.
  pub cache_put-IsKeyed :
      (code : String) (link : UrlCacheData) (s : Site app)
      → (is_v2 link.schema_version ≡ true → Keyed s.urls code link)
      → IsKeyed s
      → IsKeyed (cache_put app code link.domain (some link) s)
  cache_put-IsKeyed code link s keyed h domain' code' l found two =
      subst (λ u. Keyed u code' l × (l.domain ≡ domain'))
        (sym (cache_put-urls code link.domain (some link) s))
        (elim (cache_get-cache_put code link.domain code' domain' (some link) s l found) [
          | inr (apart, before) ↦ h domain' code' l before two
          | inl (same_domain, same_code, same) ↦
              let eq : link ≡ l = ground (arith, same) in
              (
                subst (λ c. Keyed s.urls c l) (sym same_code)
                    (subst (Keyed s.urls code) eq
                      (keyed (subst (λ x. is_v2 x.schema_version ≡ true) (sym eq) two))),
                ap (λ x. x.domain) (sym eq) ∙ sym same_domain,
              )
        ])

  -- Contents in which every stored document still stands with the same projection and alias.
  pub projected-IsKeyed :
      (urls : db.State) (s : Site app)
      → ((id : ℕ) (d : UrlV2Doc)
          → db.get s.urls id ≡ some d
          → (e : UrlV2Doc) × (db.get urls id ≡ some e)
            × (from_v2_doc id d ≡ from_v2_doc id e)
            × (e.alias ≡ d.alias))
      → IsKeyed s
      → IsKeyed (record s { urls = urls })
  unfolding cache_get
  projected-IsKeyed urls s kept h domain code l found two =
      let ((id, d, stored, eq, alias), domain_eq) = h domain code l found two in
      let (e, here, same, alias') = kept id d stored in
      ((id, e, here, eq ∙ same, alias' ∙ alias), domain_eq)

  pub drop-IsKeyed :
      (code domain : String) (s : Site app) → IsKeyed s → IsKeyed (cache_put app code domain none s)
  drop-IsKeyed code domain s h domain' code' l found two =
      subst (λ u. Keyed u code' l × (l.domain ≡ domain')) (sym (cache_put-urls code domain none s))
        (elim (cache_get-cache_put code domain code' domain' none s l found) [
          | inl (same_domain, same_code, same) ↦ absurd (ground (arith, same))
          | inr (apart, before) ↦ h domain' code' l before two
        ])

  -- Contents that differ at one stored document, once the entry under its key is dropped.
  pub rekeyed-IsKeyed :
      (code : String) (id : ℕ) (d : UrlV2Doc) (urls : db.State) (s : Site app)
      → db.get s.urls id ≡ some d
      → d.alias ≡ code
      → ((j : ℕ) → id ≢ j → db.get urls j ≡ db.get s.urls j)
      → IsKeyed s
      → IsKeyed (cache_put app code d.domain none (record s { urls = urls }))
  unfolding cache_get from_v2_doc
  rekeyed-IsKeyed code id d urls s stored alias others h domain' code' l found two =
      let t : Site app = record s { urls = urls } in
      subst (λ u. Keyed u code' l × (l.domain ≡ domain'))
        (sym (cache_put-urls code d.domain none t))
        (elim (cache_get-cache_put code d.domain code' domain' none t l found) [
          | inl (same_domain, same_code, same) ↦ absurd (ground (arith, same))
          | inr (apart, before) ↦
              let ((id', d', stored', eq, alias'), domain_eq) =
                h domain' code' l (seen before) two in
              elim (ℕ-cases id id') [
                | inr other ↦ ((id', d', others id' other ∙ stored', eq, alias'), domain_eq)
                | inl own ↦
                    absurd (not_apart id' d' stored' eq alias' domain_eq own apart (seen before))
              ]
        ])
    where
      seen :
          cache_get app code' domain' (record s { urls = urls }) ≡ some l
          → cache_get app code' domain' s ≡ some l
      seen before = before

      not_apart :
          (id' : ℕ) (d' : UrlV2Doc)
          → db.get s.urls id' ≡ some d'
          → l ≡ from_v2_doc id' d'
          → d'.alias ≡ code'
          → l.domain ≡ domain'
          → id ≡ id'
          → (domain' ≢ d.domain) ⊎ (code' ≢ code) ⊎ (is_answered app s ≡ false)
          → cache_get app code' domain' s ≡ some l
          → ⊥
      not_apart id' d' stored' eq alias' domain_eq own apart before =
          let both : some d' ≡ some d = sym stored' ∙ ap (db.get s.urls) (sym own) ∙ stored in
          let same : d' ≡ d = ground (arith, both) in
          elim apart [
            | inl other ↦ other (sym domain_eq ∙ ap (λ x. x.domain) eq ∙ ap (λ x. x.domain) same)
            | inr (inl other) ↦ other (sym alias' ∙ ap (λ x. x.alias) same ∙ alias)
            | inr (inr off) ↦ ground (arith, off, before)
          ]

  pub flip-IsKeyed :
      (link : UrlCacheData) (schema : SchemaVersion) (code : String) (now : ℕ) (s : Site app)
      → (is_v2 schema ≡ true → Keyed s.urls code link)
      → IsKeyed s
      → IsKeyed (flip app link schema code now s)
  unfolding flip expire_if_time_reached from_v2_doc
  flip-IsKeyed link schema code now s keyed h =
      if_keeps IsKeyed (is_v2 schema && is_active link.url_status) _ _
        (λ eligible.
          let (id, d, stored, eq, alias) = keyed (and-eq-true _ _ eligible).0 in
          let id_eq : link.id ≡ id = ap (λ x. x.id) eq in
          let domain_eq : link.domain ≡ d.domain = ap (λ x. x.domain) eq in
          let q : UrlV2Doc → Bool = λ x. is_active x.status && time_passed x.expire_after now in
          elim (Bool-cases (q d)) [
            | inl passed ↦
                let done = find_and_update-match db id q flipped s.urls d stored passed in
                rw (id_eq, domain_eq, done)
                  (rekeyed-IsKeyed code id d (db.put id (flipped d) s.urls) s stored alias
                    (λ j other. db.get-put_ne id j (flipped d) s.urls other) h)
            | inr kept ↦
                let missed = find_and_update-miss db id q flipped s.urls d stored kept in
                rw (id_eq, missed) h
          ])
        (λ other. h)
