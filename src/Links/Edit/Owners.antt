-- ===== src/Links/Edit/Owners.antt =====
-- No operation on the links of services/url_service.py moves a link out of an account.
use spoo.Base.{
  ℕ, ◌∙◌, String, ◌≡◌, ◌≢◌, ap, sym, Bool, some, inl, inr, arith, ℕ-cases, Result, ok, err,
}
use spoo.Base.Collection.{find_and_update, find_and_update-before}
use spoo.Links.{UrlV2Doc, anonymous_owner_id}
use spoo.Links.Resolve.{Deployment, Site}
use spoo.Links.Edit.{Rules, EditError}
use spoo.Links.Edit.Create
use spoo.Links.Edit.Create.{create, created_doc, insert}
use spoo.Links.Edit.Update.{apply}
use spoo.Links.Edit.Others.{Gentle, handle_keeps, resolve_keeps, remove_keeps, claim_keeps}
use spoo.Links.Edit.Keys.{update-keeps}
use spoo.Links.Edit.Steps.{redis_lost, Step, requested, created, updated, deleted, claimed, clicked}

module _ (app : Deployment) (j owner : ℕ) (account : owner ≢ anonymous_owner_id) where
  open app use {db}

  -- The document with that `_id`, if there is one, belongs to the account.
  abbrev IsOwn : db.State → Type 0
  IsOwn urls = (e : UrlV2Doc) → db.get urls j ≡ some e → e.owner_id ≡ owner

  find_and_update-IsOwn :
      (id : ℕ) (q : UrlV2Doc → Bool) (f : UrlV2Doc → UrlV2Doc) (urls : db.State)
      → Gentle q f
      → IsOwn urls
      → IsOwn (find_and_update db id q f urls).1
  find_and_update-IsOwn id q f urls gentle h e at =
      let (x, before, change) = find_and_update-before db id j q f urls e (ℕ-cases id j) at in
      elim change [
        | inl same ↦ ap (λ y. y.owner_id) same ∙ h x before
        | inr (matches, new) ↦ elim (gentle x matches).2 [
          | inl kept ↦ ap (λ y. y.owner_id) new ∙ kept ∙ h x before
          | inr anonymous ↦ absurd (account (sym (h x before) ∙ anonymous))
        ]
      ]

  delete-IsOwn : (id : ℕ) (urls : db.State) → IsOwn urls → IsOwn (db.delete id urls)
  delete-IsOwn id urls h e at = elim (ℕ-cases id j) [
    | inl own ↦ cc (at, own, db.get-delete_self id urls)
    | inr other ↦ h e (sym (db.get-delete_ne id j urls other) ∙ at)
  ]

  put-IsOwn :
      (id : ℕ) (d : UrlV2Doc) (urls : db.State)
      → (id ≡ j → d.owner_id ≡ owner)
      → IsOwn urls
      → IsOwn (db.put id d urls)
  put-IsOwn id d urls own h e at = elim (ℕ-cases id j) [
    | inl same ↦
        let both : some e ≡ some d =
          sym at ∙ ap (db.get (db.put id d urls)) (sym same) ∙ db.get-put_self id d urls in
        let eq : e ≡ d = ground (arith, both) in ap (λ y. y.owner_id) eq ∙ own same
    | inr other ↦ h e (sym (db.get-put_ne id j d urls other) ∙ at)
  ]

  module _ (rules : Rules) where
    created-IsOwn :
        (s : Site app) (made : Result EditError UrlV2Doc) (token : String) (id : ℕ)
        → id ≢ j
        → IsOwn s.urls
        → IsOwn (Create.store app rules made token id s).1.urls
    unfolding Create.store insert
    created-IsOwn s (err e) token id other h = h
    created-IsOwn s (ok d) token id other h = put-IsOwn id d s.urls (λ same. absurd (other same)) h

    step-IsOwn :
        {s t : Site app} (d : UrlV2Doc)
        → app.db.get s.urls j ≡ some d
        → Step app rules s t
        → IsOwn s.urls
        → IsOwn t.urls
    unfolding create apply
    step-IsOwn d stored (requested raw domain now s) h =
        resolve_keeps app IsOwn find_and_update-IsOwn raw domain now s h
    step-IsOwn d stored (created r o ip domain draw token id now s fresh) h =
        created-IsOwn s (created_doc app rules r o ip domain draw token now s) token id
          (λ same. cc (fresh, same, stored)) h
    step-IsOwn d stored (updated id r o ip now s) h =
        update-keeps app rules s IsOwn h id r o ip now (λ x ops there own free edited.
          put-IsOwn id (apply ops now x) s.urls
            (λ same. h x (ap (db.get s.urls) (sym same) ∙ there)) h)
    step-IsOwn d stored (deleted id o s) h =
        remove_keeps app IsOwn find_and_update-IsOwn rules id o s delete-IsOwn h
    step-IsOwn d stored (claimed claims o now s) h =
        claim_keeps app IsOwn find_and_update-IsOwn rules claims o now s h
    step-IsOwn d stored (clicked code link is_bot now s current) h =
        handle_keeps app IsOwn find_and_update-IsOwn code link is_bot now s h
    step-IsOwn d stored (redis_lost s) h = h

-- An account keeps its links. Any request, creation, edit, deletion, claim or click, by whomever,
-- leaves a stored link of an account in that account, if the link is still there; a new link gets an
-- `_id` that no stored link has, and the event of a click on a stored link has the link's current alias
-- and domain.
pub Step-Owned :
    (app : Deployment) (rules : Rules) {s t : Site app} (j : ℕ) (d e : UrlV2Doc)
    → Step app rules s t
    → app.db.get s.urls j ≡ some d
    → d.owner_id ≢ anonymous_owner_id
    → app.db.get t.urls j ≡ some e
    → e.owner_id ≡ d.owner_id
Step-Owned app rules {s} j d e step stored account after =
    step-IsOwn app j d.owner_id account rules d stored step
      (λ x at.
        let both : some x ≡ some d = sym at ∙ stored in
        let eq : x ≡ d = ground (arith, both) in ap (λ y. y.owner_id) eq)
      e after
