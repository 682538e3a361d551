-- ===== src/Links/Edit/Keys.antt =====
-- What an edit of services/url_service.py makes of the contents, and that the keys stay unique
-- through it, through deletions and through updates that write no key.
use spoo.Base.{
  ℕ-cases, ℕ, ◌==◌, ◌∙◌, String, ◌≡◌, refl, ap, sym, subst, Bool, true, false, ◌||◌, not, Option,
  none, some, inl, inr, arith, Option-cases, Bool-cases, if◌then◌else◌, if_keeps, Result, ok, err,
  Returns, Returns-bind, Returns-ok,
}
use spoo.Base.Collection.{
  Collection, find_and_update, find_and_update-match, find_and_update-miss, find_and_update-absent,
}
use spoo.Links.{UrlV2Doc, is_blocked}
use spoo.Links.Resolve.{Deployment, Site, cache_put}
use spoo.Links.Coherent.{cache_put-urls}
use spoo.Links.Edit.{Rules, EditError, UpdateUrlRequest}
use spoo.Links.Edit.Handlers.{Ops, from, check_start_before_expiry}
use spoo.Links.Edit.Chain.{build_ops}
use spoo.Links.Edit.Built.{IsBuilt, build_ops-IsBuilt}
use spoo.Links.Edit.Update.{
  is_some, apply, auto_reactivate, edit_ops, persist, store, update_found, update, is_empty,
  is_moved, invalidate_both, Edited,
}
use spoo.Links.Edit.Others.{Gentle}
use spoo.Links.Edit.Unique.{IsUnique, put-IsUnique, IsBuilt-KeptOrFree, auto_reactivate-key}

module _ (db : Collection ℕ UrlV2Doc) where
  pub find_and_update-IsUnique :
      (id : ℕ) (q : UrlV2Doc → Bool) (f : UrlV2Doc → UrlV2Doc) (urls : db.State)
      → Gentle q f
      → IsUnique db urls
      → IsUnique db (find_and_update db id q f urls).1
  find_and_update-IsUnique id q f urls keeps h = elim (Option-cases (db.get urls id)) [
    | inl gone ↦ rw (find_and_update-absent db id q f urls gone) h
    | inr (d, stored) ↦ elim (Bool-cases (q d)) [
      | inr miss ↦ rw (find_and_update-miss db id q f urls d stored miss) h
      | inl match ↦ rw (find_and_update-match db id q f urls d stored match) (
          put-IsUnique db id (f d) urls
            (λ j e other at alias domain. other (
              h id j d e stored at (sym (alias ∙ (keeps d match).0))
                (sym (domain ∙ (keeps d match).1))))
            h)
    ]
  ]

  pub delete-IsUnique :
      (id : ℕ) (urls : db.State) → IsUnique db urls → IsUnique db (db.delete id urls)
  delete-IsUnique id urls h i j d e at_i at_j alias domain =
      h i j d e (before i d at_i) (before j e at_j) alias domain
    where
      before :
          (k : ℕ) (x : UrlV2Doc) → db.get (db.delete id urls) k ≡ some x → db.get urls k ≡ some x
      before k x at = elim (ℕ-cases id k) [
        | inl own ↦ cc (at, own, db.get-delete_self id urls)
        | inr other ↦ sym (db.get-delete_ne id k urls other) ∙ at
      ]

module _ (app : Deployment) (rules : Rules) (s : Site app) where
  open app use {db}

  -- What the checked changes are.
  abbrev pub IsEdited : UpdateUrlRequest → UrlV2Doc → ℕ → Ops → Type 0
  IsEdited r d now ops =
      (built : Ops) × IsBuilt app rules s r d now built × (ops ≡ auto_reactivate d built now)

  pub edit_ops-IsEdited :
      (r : UpdateUrlRequest) (d : UrlV2Doc) (now : ℕ) (ip : Option String)
      → Returns (IsEdited r d now) (edit_ops app rules r d now ip s)
  unfolding edit_ops
  edit_ops-IsEdited r d now ip =
      Returns-bind (IsEdited r d now) (build_ops app rules r d now ip s) _ (λ built e.
        Returns-bind (IsEdited r d now)
          (if is_some built.starts_at || is_some built.expire_after
            then check_start_before_expiry (from built.starts_at d.starts_at)
                (from built.expire_after d.expire_after)
            else ok tt)
          _
          (λ u _. (
            built,
            Returns-ok (IsBuilt app rules s r d now) (build_ops app rules r d now ip s) built e
                (build_ops-IsBuilt app rules s r d now ip),
            refl,
          )))

  pub invalidate_both-urls :
      (d e : UrlV2Doc) (t : Site app) → (invalidate_both app rules d e t).urls ≡ t.urls
  unfolding invalidate_both
  invalidate_both-urls d e t =
      let t' = cache_put app d.alias d.domain none t in
      let first = cache_put-urls app d.alias d.domain none t in
      if_keeps (λ (u : Site app). u.urls ≡ t.urls) (is_moved app rules d e) _ _
        (λ moved. cache_put-urls app e.alias e.domain none t' ∙ first) (λ kept. first)

  -- What an edit makes of the contents: nothing, or the checked changes of the owner's link.
  module _ (P : db.State → Type 0) (before : P s.urls) where
    persist-keeps :
        (id : ℕ) (d : UrlV2Doc) (ops : Ops) (now : ℕ)
        → db.get s.urls id ≡ some d
        → P (db.put id (apply ops now d) s.urls)
        → P (persist app rules id d ops now s).1.urls
    unfolding persist
    persist-keeps id d ops now stored after =
        if_keeps (λ (r : Edited app rules). P r.1.urls) (is_empty ops) _ _ (λ empty. before)
          (λ changed.
            subst P
              (sym (
                invalidate_both-urls d (apply ops now d) (record s {
                  urls = (find_and_update db id (λ x. true) (apply ops now) s.urls).1;
                })))
              (subst (λ x. P (x.1))
                (sym (find_and_update-match db id (λ x. true) (apply ops now) s.urls d stored refl))
                after))

    pub update-keeps :
        (id : ℕ) (r : UpdateUrlRequest) (owner : ℕ) (ip : Option String) (now : ℕ)
        → ((d : UrlV2Doc) (ops : Ops)
            → db.get s.urls id ≡ some d
            → d.owner_id ≡ owner
            → is_blocked d.status ≡ false
            → IsEdited r d now ops
            → P (db.put id (apply ops now d) s.urls))
        → P (update app rules id r owner ip now s).1.urls
    unfolding update
    update-keeps id r owner ip now after = found (db.get s.urls id) refl
      where
        checked :
            (d : UrlV2Doc) (result : Result EditError Ops)
            → db.get s.urls id ≡ some d
            → d.owner_id ≡ owner
            → is_blocked d.status ≡ false
            → Returns (IsEdited r d now) result
            → P (store app rules result id d now s).1.urls
        checked d (err e) stored own free edited = before
        checked d (ok ops) stored own free edited =
            persist-keeps id d ops now stored (after d ops stored own free edited)

        found :
            (o : Option UrlV2Doc)
            → db.get s.urls id ≡ o
            → P (update_found app rules o id r owner ip now s).1.urls
        found none stored = before
        found (some d) stored =
            if_keeps (λ (x : Edited app rules). P x.1.urls) (not (d.owner_id == owner)) _ _
              (λ foreign. before)
              (λ own.
                if_keeps (λ (x : Edited app rules). P x.1.urls) (is_blocked d.status) _ _
                  (λ dead. before)
                  (λ free.
                    checked d (edit_ops app rules r d now ip s) stored (ground (arith, own)) free
                      (edit_ops-IsEdited r d now ip)))

  module _ (h : IsUnique db s.urls) where
    edited-IsUnique :
        (id : ℕ) (d : UrlV2Doc) (ops : Ops) (now : ℕ) (r : UpdateUrlRequest)
        → db.get s.urls id ≡ some d
        → IsEdited r d now ops
        → IsUnique db (db.put id (apply ops now d) s.urls)
    unfolding apply
    edited-IsUnique id d ops now r stored (built, is_built, eq) =
        let (alias_eq, domain_eq) = auto_reactivate-key app rules s d built now in
        let alias : ops.alias ≡ built.alias = ap (λ o. o.alias) eq ∙ alias_eq in
        let domain : ops.domain ≡ built.domain = ap (λ o. o.domain) eq ∙ domain_eq in
        put-IsUnique db id (apply ops now d) s.urls
          (λ j e other at same_alias same_domain.
            elim (IsBuilt-KeptOrFree app rules s r d now built is_built) [
              | inl (alias', domain') ↦ other (
                  h id j d e stored at (sym (same_alias ∙ ap (λ a. from a d.alias) alias ∙ alias'))
                    (sym (same_domain ∙ ap (λ a. from a d.domain) domain ∙ domain')))
              | inr free ↦
                  free j e at (same_alias ∙ ap (λ a. from a d.alias) alias)
                    (same_domain ∙ ap (λ a. from a d.domain) domain)
            ])
          h

    pub update-IsUnique :
        (id : ℕ) (r : UpdateUrlRequest) (owner : ℕ) (ip : Option String) (now : ℕ)
        → IsUnique db (update app rules id r owner ip now s).1.urls
    update-IsUnique id r owner ip now =
        update-keeps (IsUnique db) h id r owner ip now
          (λ d ops stored own free edited. edited-IsUnique id d ops now r stored edited)
