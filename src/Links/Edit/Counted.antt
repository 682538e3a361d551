-- ===== src/Links/Edit/Counted.antt =====
-- The cache stays in step through the count of a click (services/click/handlers.py).
use spoo.Base.{
  ℕ, ◌==◌, ◌∙◌, String, ◌≡◌, ◌≢◌, refl, ap, sym, subst, Bool, true, false, ◌&&◌, not, Option, none,
  some, inl, inr, arith, Option-cases, Bool-cases, ℕ-cases, if◌then◌else◌, if_keeps, leb,
}
use spoo.Base.Collection.{find_and_update-match, find_and_update-miss, find_and_update-absent}
use spoo.Links.{UrlV2Doc, UrlCacheData, UrlStatus, expired, is_expired}
use spoo.Links.Cached.{from_v2_doc}
use spoo.Links.Resolve.{Deployment, Site, cache_put}
use spoo.Links.Coherent.{IsKeyed, rekeyed-IsKeyed, projected-IsKeyed}
use spoo.Links.Clicks.{
  clicked, flipped, increment_clicks, expire_if_max_clicks, check_max_clicks, count_click,
}
use spoo.Links.Handler.{handle}

is_expired→eq : (st : UrlStatus) → is_expired st ≡ true → st ≡ expired
is_expired→eq UrlStatus.active h = cc
is_expired→eq UrlStatus.inactive h = cc
is_expired→eq UrlStatus.expired h = refl
is_expired→eq UrlStatus.blocked h = cc
is_expired→eq UrlStatus.scheduled h = cc

module _ (app : Deployment) where
  open app use {db}

  -- Contents that differ at one stored document, which keeps its projection.
  same_at-IsKeyed :
      (id : ℕ) (d e : UrlV2Doc) (urls : db.State) (s : Site app)
      → db.get s.urls id ≡ some d
      → db.get urls id ≡ some e
      → ((j : ℕ) → id ≢ j → db.get urls j ≡ db.get s.urls j)
      → from_v2_doc id d ≡ from_v2_doc id e
      → e.alias ≡ d.alias
      → IsKeyed app s
      → IsKeyed app (record s { urls = urls })
  same_at-IsKeyed id d e urls s stored here others same alias h =
      projected-IsKeyed app urls s
        (λ j x at. elim (ℕ-cases id j) [
          | inr other ↦ (x, others j other ∙ at, refl, refl)
          | inl own ↦
              let both : some d ≡ some x = sym stored ∙ ap (db.get s.urls) own ∙ at in
              let eq : d ≡ x = ground (arith, both) in
              (
                e,
                ap (db.get urls) (sym own) ∙ here,
                subst (λ i. from_v2_doc i x ≡ from_v2_doc i e) own
                    (subst (λ y. from_v2_doc id y ≡ from_v2_doc id e) eq same),
                alias ∙ ap (λ y. y.alias) eq,
              )
        ])
        h

  -- The three outcomes of the limit.
  module _ (id m : ℕ) (urls : db.State) where
    abbrev outcome : Option UrlV2Doc × db.State → Bool × db.State
    outcome r = (elim r.0 [ none ↦ false | some d ↦ not (is_expired d.status) ], r.1)

    expire-reached :
        (e : UrlV2Doc)
        → db.get urls id ≡ some e
        → leb m e.total_clicks ≡ true
        → expire_if_max_clicks db id m urls
          ≡ (not (is_expired e.status), db.put id (flipped e) urls)
    unfolding expire_if_max_clicks
    expire-reached e at reached =
        ap outcome
          (find_and_update-match db id (λ x. leb m x.total_clicks) flipped urls e at reached)

    expire-below :
        (e : UrlV2Doc)
        → db.get urls id ≡ some e
        → leb m e.total_clicks ≡ false
        → expire_if_max_clicks db id m urls ≡ (false, urls)
    unfolding expire_if_max_clicks
    expire-below e at below =
        ap outcome (find_and_update-miss db id (λ x. leb m x.total_clicks) flipped urls e at below)

    expire-absent : db.get urls id ≡ none → expire_if_max_clicks db id m urls ≡ (false, urls)
    unfolding expire_if_max_clicks
    expire-absent gone =
        ap outcome (find_and_update-absent db id (λ x. leb m x.total_clicks) flipped urls gone)

  -- The event of a click names the link by its current alias and domain.
  abbrev pub IsCurrent : String → UrlCacheData → Site app → Type 0
  IsCurrent code link s =
      (d : UrlV2Doc) → db.get s.urls link.id ≡ some d → (d.alias ≡ code) × (d.domain ≡ link.domain)

  module _ (code : String) (link : UrlCacheData) (now : ℕ) (s : Site app) (h : IsKeyed app s)
      (current : IsCurrent code link s) where
    -- The result of the count, the flag and the contents, as the handler goes on from it.
    abbrev Kept : Bool × db.State → Type 0
    Kept r = IsKeyed app (
        if r.0
        then cache_put app code link.domain none (record s { urls = r.1 })
        else record s { urls = r.1 })

    module _ (d : UrlV2Doc) (stored : db.get s.urls link.id ≡ some d) where
      one_more-eq : increment_clicks db link.id now s.urls ≡ db.put link.id (clicked now d) s.urls
      unfolding increment_clicks
      one_more-eq =
          ap (λ r. r.1)
            (find_and_update-match db link.id (λ x. true) (clicked now) s.urls d stored refl)

      one_more-Kept : Kept (false, db.put link.id (clicked now d) s.urls)
      unfolding from_v2_doc
      one_more-Kept =
          same_at-IsKeyed link.id d (clicked now d) (db.put link.id (clicked now d) s.urls) s stored
            (db.get-put_self link.id (clicked now d) s.urls)
            (λ j other. db.get-put_ne link.id j (clicked now d) s.urls other) refl refl h

      over : db.State
      over = db.put link.id (flipped (clicked now d)) (db.put link.id (clicked now d) s.urls)

      over-others : (j : ℕ) → link.id ≢ j → db.get over j ≡ db.get s.urls j
      unfolding over
      over-others j other =
          db.get-put_ne link.id j (flipped (clicked now d)) (db.put link.id (clicked now d) s.urls)
            other
          ∙ db.get-put_ne link.id j (clicked now d) s.urls other

      -- The link expires by this click.
      expiring-Kept : Kept (true, over)
      expiring-Kept =
          let (alias, domain) = current d stored in
          subst (λ c. IsKeyed app (cache_put app code c none (record s { urls = over }))) domain
            (rekeyed-IsKeyed app code link.id d over s stored alias over-others h)

      -- It had expired before.
      expired-Kept : d.status ≡ expired → Kept (false, over)
      unfolding over from_v2_doc
      expired-Kept was =
          same_at-IsKeyed link.id d (flipped (clicked now d)) over s stored
            (db.get-put_self link.id (flipped (clicked now d))
              (db.put link.id (clicked now d) s.urls))
            over-others (ap (λ st. from_v2_doc link.id (record d { status = st })) was) refl h

      limited-Kept :
          (m : ℕ) → Kept (expire_if_max_clicks db link.id m (db.put link.id (clicked now d) s.urls))
      unfolding over
      limited-Kept m =
          let e = clicked now d in
          let one_more = db.put link.id e s.urls in
          let at = db.get-put_self link.id e s.urls in
          elim (Bool-cases (leb m e.total_clicks)) [
            | inr below ↦
                subst Kept (sym (expire-below link.id m one_more e at below)) one_more-Kept
            | inl reached ↦
                subst Kept (sym (expire-reached link.id m one_more e at reached))
                  (elim (Bool-cases (is_expired d.status)) [
                    | inl was ↦
                        subst (λ b. Kept (not b, over)) (sym was)
                          (expired-Kept (is_expired→eq d.status was))
                    | inr live ↦ subst (λ b. Kept (not b, over)) (sym live) expiring-Kept
                  ])
          ]

      counted-Kept :
          (limit : Option ℕ)
          → Kept (check_max_clicks db link.id limit (increment_clicks db link.id now s.urls))
      unfolding check_max_clicks
      counted-Kept none = rw one_more-eq one_more-Kept
      counted-Kept (some m) =
          rw one_more-eq
            (if_keeps Kept (m == 0) _ _ (λ unlimited. one_more-Kept) (λ limited. limited-Kept m))

    -- A click on a link that is not there.
    missing-Kept :
        (limit : Option ℕ)
        → db.get s.urls link.id ≡ none
        → Kept (check_max_clicks db link.id limit (increment_clicks db link.id now s.urls))
    unfolding check_max_clicks increment_clicks
    missing-Kept limit gone =
        subst (λ r. Kept (check_max_clicks db link.id limit (r.1)))
          (sym (find_and_update-absent db link.id (λ x. true) (clicked now) s.urls gone))
          (unlimited limit)
      where
        unlimited : (limit : Option ℕ) → Kept (check_max_clicks db link.id limit s.urls)
        unlimited none = h
        unlimited (some m) =
            if_keeps Kept (m == 0) _ _ (λ zero_limit. h)
              (λ limited. subst Kept (sym (expire-absent link.id m s.urls gone)) h)

    pub handle-IsKeyed : (is_bot : Bool) → IsKeyed app (handle app code link is_bot now s)
    unfolding handle count_click
    handle-IsKeyed is_bot =
        if_keeps Kept (link.block_bots && is_bot) _ _ (λ blocked. h)
          (λ counted. elim (Option-cases (db.get s.urls link.id)) [
            | inl gone ↦ missing-Kept link.max_clicks gone
            | inr (d, stored) ↦ counted-Kept d stored link.max_clicks
          ])
