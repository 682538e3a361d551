-- ===== src/Links/Edit/Others.antt =====
-- What deletions, claims, clicks and requests do to the contents: a property that deletions keep and
-- updates that write no key, and no owner but that of an anonymous link, is kept by all of them.
use spoo.Base.{
  ◌⊎◌, inl, inr, ==_iff, and-eq-true, true, ℕ, ◌==◌, ◌+◌, String, ◌≡◌, refl, sym, subst, Bool, true,
  ◌&&◌, ◌||◌, not, Option, none, some, List, [], ◌∷◌, inl, inr, if◌then◌else◌, if_keeps, leb, ltb,
  length, Result, is_none, str_eq,
}
use spoo.Base.Text.{has_text, opt_eq}
use spoo.Base.Collection.{find_and_update}
use spoo.Links.{
  UrlV2Doc, UrlCacheData, SchemaVersion, anonymous_owner_id, is_blocked, is_active, is_v2, is_v1,
  expired,
}
use spoo.Links.Status.{time_passed}
use spoo.Links.Alias.{v2_lookup_code}
use spoo.Links.Cached.{
  truthy, is_time_expired, is_not_yet_live, is_non_active, clicks_exhausted, ResolveError,
}
use spoo.Links.Resolve.{
  Deployment, Site, Answer, cache_put, flip, expire_if_time_reached, check_live, resolved, look_up,
  resolve, populate_cache, cache_get, dispatch, dispatch_custom_domain,
}
use spoo.Links.Coherent.{cache_put-urls}
use spoo.Links.Clicks.{
  clicked, flipped, increment_clicks, expire_if_max_clicks, check_max_clicks, count_click,
}
use spoo.Links.Handler.{handle}
use spoo.Links.Edit.{Rules}
use spoo.Links.Edit.Claim.{
  claim, claim_items, claim_item, claim_found, swap_owner, claim_by_token_hash, count_claimed,
  claim_limit_per_account,
}
use spoo.Links.Edit.Remove.{remove, remove_found, Removed}

-- An update that leaves the key alone, and the owner where there is one.
abbrev pub Gentle : (UrlV2Doc → Bool) → (UrlV2Doc → UrlV2Doc) → Type 0
Gentle q f =
    (d : UrlV2Doc)
    → q d ≡ true
    → ((f d).alias ≡ d.alias)
      × ((f d).domain ≡ d.domain)
      × (((f d).owner_id ≡ d.owner_id) ⊎ (d.owner_id ≡ anonymous_owner_id))

module _ (app : Deployment) (P : app.db.State → Type 0)
    (on_update : (id : ℕ) (q : UrlV2Doc → Bool) (f : UrlV2Doc → UrlV2Doc) (urls : app.db.State)
      → Gentle q f
      → P urls
      → P (find_and_update app.db id q f urls).1) where
  open app use {db, policy, system_domain}

  expire_if_max_clicks_keeps :
      (id m : ℕ) (urls : db.State) → P urls → P (expire_if_max_clicks db id m urls).1
  unfolding expire_if_max_clicks
  expire_if_max_clicks_keeps id m urls h =
      on_update id (λ x. leb m x.total_clicks) flipped urls (λ d _. (refl, refl, inl refl)) h

  check_max_clicks_keeps :
      (id : ℕ) (limit : Option ℕ) (urls : db.State)
      → P urls
      → P (check_max_clicks db id limit urls).1
  unfolding check_max_clicks
  check_max_clicks_keeps id none urls h = h
  check_max_clicks_keeps id (some m) urls h =
      if_keeps (λ (r : Bool × db.State). P r.1) (m == 0) _ _ (λ unlimited. h)
        (λ limited. expire_if_max_clicks_keeps id m urls h)

  count_click_keeps :
      (link : UrlCacheData) (is_bot : Bool) (now : ℕ) (urls : db.State)
      → P urls
      → P (count_click db link is_bot now urls).1
  unfolding count_click increment_clicks
  count_click_keeps link is_bot now urls h =
      if_keeps (λ (r : Bool × db.State). P r.1) (link.block_bots && is_bot) _ _ (λ blocked. h)
        (λ counted.
          check_max_clicks_keeps link.id link.max_clicks (increment_clicks db link.id now urls)
            (on_update link.id (λ x. true) (clicked now) urls (λ d _. (refl, refl, inl refl)) h))

  expire_if_time_reached_keeps :
      (id now : ℕ) (urls : db.State) → P urls → P (expire_if_time_reached app id now urls).1
  unfolding expire_if_time_reached
  expire_if_time_reached_keeps id now urls h =
      on_update id (λ d. is_active d.status && time_passed d.expire_after now)
        (λ d. record d { status = expired }) urls (λ d _. (refl, refl, inl refl)) h

  abbrev Kept : Site app → Type 0
  Kept s = P s.urls

  -- A write of the cache, or none.
  put-Kept :
      (b : Bool) (code domain : String) (entry : Option UrlCacheData) (s : Site app)
      → Kept s
      → Kept (if b then cache_put app code domain entry s else s)
  put-Kept b code domain entry s h =
      if_keeps Kept b _ _ (λ written. subst P (sym (cache_put-urls app code domain entry s)) h)
        (λ kept. h)

  pub handle_keeps :
      (code : String) (link : UrlCacheData) (is_bot : Bool) (now : ℕ) (s : Site app)
      → Kept s
      → Kept (handle app code link is_bot now s)
  unfolding handle
  handle_keeps code link is_bot now s h =
      let r = count_click db link is_bot now s.urls in
      put-Kept (r.0) code link.domain none (record s { urls = r.1 })
        (count_click_keeps link is_bot now s.urls h)

  flip_keeps :
      (link : UrlCacheData) (schema : SchemaVersion) (code : String) (now : ℕ) (s : Site app)
      → Kept s
      → Kept (flip app link schema code now s)
  unfolding flip
  flip_keeps link schema code now s h =
      let r = expire_if_time_reached app link.id now s.urls in
      if_keeps Kept (is_v2 schema && is_active link.url_status) _ _
        (λ active.
          put-Kept (r.0) code link.domain none (record s { urls = r.1 })
            (expire_if_time_reached_keeps link.id now s.urls h))
        (λ other. h)

  abbrev After : Result ResolveError (UrlCacheData × SchemaVersion) × Site app → Type 0
  After r = Kept r.1

  check_live_keeps :
      (link : UrlCacheData) (schema : SchemaVersion) (code : String) (now : ℕ) (s : Site app)
      → Kept s
      → After (check_live app link schema code now s)
  unfolding check_live
  check_live_keeps link schema code now s h =
      if_keeps After (is_time_expired link now) _ _ (λ over. flip_keeps link schema code now s h)
        (λ before_end. if_keeps After (is_not_yet_live link now) _ _ (λ early. h) (λ started. h))

  resolved_keeps :
      (a : Answer) (code : String) (now : ℕ) (s : Site app)
      → Kept s
      → After (resolved app a code now s)
  unfolding resolved populate_cache
  resolved_keeps (none, schema) code now s h = h
  resolved_keeps (some link, schema) code now s h =
      let s' = populate_cache app code link schema s in
      let h' : Kept s' =
        put-Kept (is_v2 schema || (is_v1 schema && is_none link.max_clicks)) code link.domain
          (some link) s h in
      if_keeps After (is_non_active link schema) _ _ (λ dead. h')
        (λ alive.
          if_keeps After (clicks_exhausted link schema) _ _ (λ full. h')
            (λ free. check_live_keeps link schema code now s' h'))

  look_up_keeps :
      (entry : Option UrlCacheData) (code raw scope : String) (now : ℕ) (s : Site app)
      → Kept s
      → After (look_up app entry code raw scope now s)
  unfolding look_up
  look_up_keeps (some l) code raw scope now s h =
      if_keeps After (is_non_active l l.schema_version) _ _ (λ dead. h)
        (λ alive. check_live_keeps l l.schema_version code now s h)
  look_up_keeps none code raw scope now s h =
      resolved_keeps
        (if str_eq scope system_domain
          then dispatch app code raw s
          else dispatch_custom_domain app code scope s)
        code now s h

  pub resolve_keeps :
      (raw : String) (domain : Option String) (now : ℕ) (s : Site app)
      → Kept s
      → Kept (resolve app raw domain now s).1
  unfolding resolve
  resolve_keeps raw domain now s h =
      let scope : String = elim (truthy domain) [ none ↦ system_domain | some d ↦ d ] in
      let code = v2_lookup_code policy raw in
      look_up_keeps (cache_get app code scope s) code raw scope now s h

  module _ (rules : Rules) where
    pub remove_keeps :
        (id owner : ℕ) (s : Site app)
        → ((k : ℕ) (urls : db.State) → P urls → P (db.delete k urls))
        → Kept s
        → Kept (remove app rules id owner s).1
    unfolding remove
    remove_keeps id owner s on_delete h = found (db.get s.urls id)
      where
        found : (o : Option UrlV2Doc) → Kept (remove_found app rules o id owner s).1
        found none = h
        found (some d) =
            if_keeps (λ (r : Removed app rules). Kept r.1) (not (d.owner_id == owner)) _ _
              (λ foreign. h)
              (λ own.
                if_keeps (λ (r : Removed app rules). Kept r.1) (is_blocked d.status) _ _ (λ dead. h)
                  (λ free.
                    put-Kept true d.alias d.domain none (record s { urls = db.delete id s.urls })
                      (on_delete id s.urls h)))

    abbrev Claimed {ℓ} : {A : Type ℓ} → A × Site app → Type 0
    Claimed r = Kept r.1

    claimable :
        (hash : String) (x : UrlV2Doc)
        → (opt_eq x.claim_token_hash (some hash) && x.owner_id == anonymous_owner_id) ≡ true
        → x.owner_id ≡ anonymous_owner_id
    claimable hash x q =
        (==_iff x.owner_id anonymous_owner_id).0
          (and-eq-true (opt_eq x.claim_token_hash (some hash)) (x.owner_id == anonymous_owner_id)
            q).1

    swap_owner_keeps :
        (id : ℕ) (d : UrlV2Doc) (hash : String) (owner now : ℕ) (s : Site app)
        → Kept s
        → Claimed (swap_owner app rules id d hash owner now s)
    unfolding swap_owner claim_by_token_hash
    swap_owner_keeps id d hash owner now s h =
        let r = claim_by_token_hash db id hash owner now s.urls in
        let t : Site app = record s { urls = r.1 } in
        let h' : Kept t =
          on_update id _ _ s.urls (λ x q. (refl, refl, inr (claimable hash x q))) h in
        if_keeps Claimed (not (r.0)) _ _ (λ lost. h')
          (λ won. put-Kept true d.alias d.domain none t h')

    claim_found_keeps :
        (found : Option UrlV2Doc) (id : ℕ) (token : String) (owner now : ℕ) (s : Site app)
        → Kept s
        → Claimed (claim_found app rules found id token owner now s)
    unfolding claim_found
    claim_found_keeps none id token owner now s h = h
    claim_found_keeps (some d) id token owner now s h =
        if_keeps Claimed (d.owner_id == owner) _ _ (λ own. h)
          (λ foreign.
            if_keeps Claimed
              (not (d.owner_id == anonymous_owner_id) || not (has_text d.claim_token_hash)) _ _
              (λ unclaimable. h)
              (λ open_.
                if_keeps Claimed (not (opt_eq (some (rules.hash_token token)) d.claim_token_hash)) _
                  _ (λ wrong. h)
                  (λ right. swap_owner_keeps id d (rules.hash_token token) owner now s h)))

    claim_items_keeps :
        (claims : List (ℕ × String)) (owner now : ℕ) (s : Site app)
        → Kept s
        → Claimed (claim_items app rules claims owner now s)
    unfolding claim_items claim_item
    claim_items_keeps [] owner now s h = h
    claim_items_keeps ((id, token) ∷ claims) owner now s h =
        claim_items_keeps claims owner now (claim_item app rules id token owner now s).1
          (claim_found_keeps (db.get s.urls id) id token owner now s h)

    pub claim_keeps :
        (claims : List (ℕ × String)) (owner now : ℕ) (s : Site app)
        → Kept s
        → Claimed (claim app rules claims owner now s)
    unfolding claim
    claim_keeps claims owner now s h =
        if_keeps Claimed
          (ltb claim_limit_per_account (count_claimed db owner s.urls + length claims)) _ _
          (λ full. h) (λ free. claim_items_keeps claims owner now s h)
