-- ===== src/Links/Edit/RoundTrip.antt =====
-- A link that services/url_service.py, `create`, has made is the one that `resolve` finds under its
-- alias.
use spoo.Base.{
  ℕ, ◌==◌, ◌∙◌, String, ◌≡◌, refl, ap, ap₂, sym, subst, true, false, ◌&&◌, ◌||◌, Option, none, some,
  inl, inr, arith, Bool-cases, Option-cases, ℕ-cases, if◌then◌else◌, Result, ok, err, Returns,
  Returns-ok, str_eq, eq_iff, and-eq-true,
}
use spoo.Base.Text.{len}
use text.Mathlib.TextPositions.{eq_refl}
use spoo.Base.Collection.{ascending}
use spoo.Links.{
  UrlV2Doc, LegacyUrlDoc, UrlCacheData, SchemaVersion, v1, v2, active, is_blocked, is_expired,
  is_inactive,
}
use spoo.Links.Alias.{v2_lookup_code, v1_first_length, is_emoji_shaped}
use spoo.Links.Cached.{
  from_v2_doc, ResolveError, gone_to, not_yet_live, is_time_expired, is_not_yet_live, is_non_active,
  truthy,
}
use spoo.Links.Resolve.{
  Deployment, Site, v2_or, legacy_or, populate_cache, resolve, look_up, resolved, check_live,
  find_by_alias, at_alias, dispatch, dispatch_by, dispatch_custom_domain, cache_get, try_v1_then_v2,
  try_v2_then_v1,
}
use spoo.Links.Edit.{Rules, EditError, CreateUrlRequest}
use spoo.Links.Edit.Availability.{scope_of}
use spoo.Links.Edit.Create
use spoo.Links.Edit.Create.{
  choose_alias, custom_alias, generate_unique_alias, generate_unique_emoji_alias, create,
  created_doc, insert,
}
use spoo.Links.Edit.Unique.{IsFree}
use spoo.Links.Edit.First.{IsFirst, choose_alias-IsFirst}
use spoo.Links.Edit.Fresh.{IsNew, created_doc-IsNew}

module _ (app : Deployment) (rules : Rules) (s : Site app) where
  open app use {db, policy, system_domain}

  module _ (id : ℕ) (d : UrlV2Doc) (free : IsFree db d.alias d.domain s.urls) where
    abbrev after : Site app
    after = insert app rules id d s

    inserted-found : find_by_alias app d.alias d.domain after ≡ some (id, d)
    unfolding find_by_alias insert
    inserted-found =
        let q = at_alias app d.alias d.domain in
        let urls = db.put id d s.urls in
        let stored = db.get-put_self id d s.urls in
        elim (Option-cases (db.pick ascending q (λ x. 0) urls)) [
          | inl empty ↦ absurd (
              ground (
                arith,
                db.pick-none ascending q (λ x. 0) urls empty id d stored,
                eq_refl d.alias,
                eq_refl d.domain,
              ))
          | inr ((k, e), found) ↦
              let (there, matches, first) = db.pick-some ascending q (λ x. 0) urls k e found in
              let (alias, domain) =
                and-eq-true (str_eq e.alias d.alias) (str_eq e.domain d.domain) matches in
              elim (ℕ-cases id k) [
                | inr other ↦ absurd (
                    free k e (sym (db.get-put_ne id k d s.urls other) ∙ there)
                      ((eq_iff e.alias d.alias).0 alias) ((eq_iff e.domain d.domain).0 domain))
                | inl own ↦
                    let both : some d ≡ some e = sym stored ∙ ap (db.get urls) own ∙ there in
                    let same : d ≡ e = ground (arith, both) in
                    found ∙ ap (λ i. some (i, e)) (sym own) ∙ ap (λ x. some (id, x)) (sym same)
              ]
        ]

    -- With no older link in the way, each order of the generations finds it.
    v1_then_v2-inserted :
        d.domain ≡ system_domain
        → s.legacy d.alias ≡ none
        → try_v1_then_v2 app d.alias after ≡ (some (from_v2_doc id d), v2)
    unfolding try_v1_then_v2 insert
    v1_then_v2-inserted own gone =
        let found : find_by_alias app d.alias system_domain after ≡ some (id, d) =
          subst (λ t. find_by_alias app d.alias t after ≡ some (id, d)) own inserted-found in
        ap
          (λ (o : Option LegacyUrlDoc).
            legacy_or app (elim o [ none ↦ none | some l ↦ some (d.alias, l) ]) v1
              (v2_or (find_by_alias app d.alias system_domain after) (none, v2)))
          gone
        ∙ ap (λ f. v2_or f (none, v2)) found

    dispatch-inserted :
        d.domain ≡ system_domain
        → IsFirst app rules s d.domain d.alias
        → dispatch app d.alias d.alias after ≡ (some (from_v2_doc id d), v2)
    unfolding dispatch dispatch_by try_v2_then_v1
    dispatch-inserted own older =
        let found : find_by_alias app d.alias system_domain after ≡ some (id, d) =
          subst (λ t. find_by_alias app d.alias t after ≡ some (id, d)) own inserted-found in
        elim (Bool-cases (is_emoji_shaped policy d.alias)) [
          | inl shaped ↦ rw (shaped, found) refl
          | inr plain ↦ elim (Bool-cases (len d.alias == v1_first_length)) [
            | inr other ↦ rw (plain, other, found) refl
            | inl six ↦ elim (older own) [
              | inl gone ↦ rw (plain, six) (v1_then_v2-inserted own gone)
              | inr other ↦ absurd (ground (arith, six, other))
            ]
          ]
        ]

    looked_up :
        IsFirst app rules s d.domain d.alias
        → (if str_eq d.domain system_domain
            then dispatch app d.alias d.alias after
            else dispatch_custom_domain app d.alias d.domain after)
          ≡ (some (from_v2_doc id d), v2)
    unfolding dispatch_custom_domain
    looked_up older = elim (Bool-cases (str_eq d.domain system_domain)) [
      | inl own ↦ rw own (dispatch-inserted ((eq_iff d.domain system_domain).0 own) older)
      | inr custom ↦ rw (custom, inserted-found) refl
    ]

  -- What a request is told of a link that is ACTIVE in the collection.
  abbrev pub answer_at : UrlCacheData → ℕ → Result ResolveError (UrlCacheData × SchemaVersion)
  answer_at link now =
      if is_time_expired link now
      then err (gone_to link.expired_redirect_url)
      else if is_not_yet_live link now
      then err (not_yet_live link.pre_start_url)
      else ok (link, v2)

  check_live-answer_at :
      (link : UrlCacheData) (code : String) (now : ℕ) (t : Site app)
      → (check_live app link v2 code now t).0 ≡ answer_at link now
  unfolding check_live
  check_live-answer_at link code now t = ground arith

  resolved-answer_at :
      (id : ℕ) (d : UrlV2Doc) (code : String) (now : ℕ) (t : Site app)
      → d.status ≡ active
      → (resolved app (some (from_v2_doc id d), v2) code now t).0 ≡ answer_at (from_v2_doc id d) now
  unfolding resolved from_v2_doc
  resolved-answer_at id d code now t live =
      let link = from_v2_doc id d in
      let alive : is_non_active link v2 ≡ false =
        ap (λ st. is_blocked st || (true && (is_expired st || is_inactive st))) live in
      rw alive (check_live-answer_at link code now (populate_cache app code link v2 t))

  inserted-cold :
      (id : ℕ) (d : UrlV2Doc)
      → cache_get app d.alias d.domain s ≡ none
      → cache_get app d.alias d.domain (insert app rules id d s) ≡ none
  unfolding insert cache_get
  inserted-cold id d cold = cold

  inserted-resolve :
      (r : CreateUrlRequest) (domain : Option String) (draw : ℕ → String) (id later : ℕ)
      (d : UrlV2Doc)
      → IsNew app rules s r draw (scope_of app rules domain) d
      → (r.emoji_alias ≡ false → (m : ℕ) → len (draw m) ≡ 7)
      → v2_lookup_code policy d.alias ≡ d.alias
      → cache_get app d.alias d.domain s ≡ none
      → (resolve app d.alias domain later (insert app rules id d s)).0
        ≡ answer_at (from_v2_doc id d) later
  unfolding resolve look_up
  inserted-resolve r domain draw id later d new seven canonical cold =
      let t = insert app rules id d s in
      let target = scope_of app rules domain in
      let free : IsFree db d.alias d.domain s.urls =
        subst (λ x. IsFree db d.alias x s.urls) (sym new.domain) new.free in
      let older : IsFirst app rules s d.domain d.alias =
        subst (λ x. IsFirst app rules s x d.alias) (sym new.domain)
          (Returns-ok (IsFirst app rules s target)
            (choose_alias app rules (truthy r.alias) r.emoji_alias draw target s) d.alias new.chosen
            (choose_alias-IsFirst app rules s draw (truthy r.alias) r.emoji_alias target seven)) in
      ap₂ (λ code scope. (look_up app (cache_get app code scope t) code d.alias scope later t).0)
        canonical (sym new.domain)
      ∙ ap (λ e. (look_up app e d.alias d.alias d.domain later t).0) (inserted-cold id d cold)
      ∙ ap (λ a. (resolved app a d.alias later t).0) (looked_up id d free older)
      ∙ resolved-answer_at id d d.alias later t new.status

  -- A created link is found under its alias. Where a creation succeeds with a document, the
  -- next request for its alias on the same domain, at whatever moment, is answered by that very
  -- document: by its projection between its start and its expiry, that it is gone or where it
  -- redirects after the expiry, and before the start that it is not live yet; provided that the
  -- cache had no entry under the alias, the alias is in the form that lookups use, and the codes
  -- drawn for an alias that is no emoji have seven characters.
  pub create-resolve :
      (r : CreateUrlRequest) (owner : Option ℕ) (ip : String) (domain : Option String)
      (draw : ℕ → String) (token : String) (id now later : ℕ) (d : UrlV2Doc) (shown : Option String)
      → (create app rules r owner ip domain draw token id now s).0 ≡ ok (d, shown)
      → (r.emoji_alias ≡ false → (m : ℕ) → len (draw m) ≡ 7)
      → v2_lookup_code policy d.alias ≡ d.alias
      → cache_get app d.alias d.domain s ≡ none
      → (resolve app d.alias domain later
          (create app rules r owner ip domain draw token id now s).1).0
        ≡ answer_at (from_v2_doc id d) later
  unfolding create Create.store
  create-resolve r owner ip domain draw token id now later d shown done seven canonical cold =
      stored (created_doc app rules r owner ip domain draw token now s)
        (created_doc-IsNew app rules s r owner ip domain draw token now) done
    where
      stored :
          (made : Result EditError UrlV2Doc)
          → Returns (IsNew app rules s r draw (scope_of app rules domain)) made
          → (Create.store app rules made token id s).0 ≡ ok (d, shown)
          → (resolve app d.alias domain later (Create.store app rules made token id s).1).0
            ≡ answer_at (from_v2_doc id d) later
      stored (err e) new h = cc
      stored (ok e) new h =
          let same : e ≡ d = ground (arith, h) in
          let new' = subst (IsNew app rules s r draw (scope_of app rules domain)) same new in
          subst
            (λ x.
              (resolve app d.alias domain later (insert app rules id x s)).0
              ≡ answer_at (from_v2_doc id d) later)
            (sym same) (inserted-resolve r domain draw id later d new' seven canonical cold)
