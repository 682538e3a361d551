-- ===== src/Links/Edit/Keyed.antt =====
-- The cache of services/url_service.py stays in step with the collection through edits, creations,
-- claims and deletions of links.
use spoo.Base.{
  ℕ, ◌==◌, ◌∙◌, String, ◌≡◌, refl, ap, true, not, Option, none, some, Result, ok, err, if_keeps,
}
use spoo.Base.Collection.{find_and_update, get-find_and_update_ne}
use spoo.Links.{UrlV2Doc, is_blocked}
use spoo.Links.Resolve.{Deployment, Site}
use spoo.Links.Coherent.{IsKeyed, drop-IsKeyed, rekeyed-IsKeyed, projected-IsKeyed}
use spoo.Links.Edit.{Rules, EditError, UpdateUrlRequest, CreateUrlRequest}
use spoo.Links.Edit.Handlers.{Ops}
use spoo.Links.Edit.Create
use spoo.Links.Edit.Update.{
  update, update_found, store, persist, edit_ops, invalidate_both, is_empty, is_moved, apply,
}
use spoo.Links.Edit.Create.{create, created_doc, insert, Created}
use spoo.Links.Edit.Remove.{remove, remove_found}

module _ (app : Deployment) (rules : Rules) (s : Site app) (h : IsKeyed app s) where
  open app use {db}

  abbrev KeptBy {ℓ κ} : {A : Type ℓ} {B : Type κ} → A × Site app × B → Type 0
  KeptBy r = IsKeyed app r.1

  persist-IsKeyed :
      (id : ℕ) (d : UrlV2Doc) (ops : Ops) (now : ℕ)
      → db.get s.urls id ≡ some d
      → IsKeyed app (persist app rules id d ops now s).1
  unfolding persist invalidate_both
  persist-IsKeyed id d ops now stored =
      if_keeps KeptBy (is_empty ops) _ _ (λ empty. h)
        (λ changed.
          let urls = (find_and_update db id (λ x. true) (apply ops now) s.urls).1 in
          let old_dropped =
            rekeyed-IsKeyed app d.alias id d urls s stored refl
              (λ j other. get-find_and_update_ne db id j (λ x. true) (apply ops now) s.urls other)
              h in
          if_keeps (IsKeyed app) (is_moved app rules d (apply ops now d)) _ _
            (λ moved. drop-IsKeyed app _ _ _ old_dropped) (λ kept. old_dropped))

  store-IsKeyed :
      (checked : Result EditError Ops) (id : ℕ) (d : UrlV2Doc) (now : ℕ)
      → db.get s.urls id ≡ some d
      → IsKeyed app (store app rules checked id d now s).1
  unfolding store
  store-IsKeyed (err e) id d now stored = h
  store-IsKeyed (ok ops) id d now stored = persist-IsKeyed id d ops now stored

  update_found-IsKeyed :
      (found : Option UrlV2Doc) (id : ℕ) (r : UpdateUrlRequest) (owner : ℕ) (ip : Option String)
      (now : ℕ)
      → db.get s.urls id ≡ found
      → IsKeyed app (update_found app rules found id r owner ip now s).1
  unfolding update_found
  update_found-IsKeyed none id r owner ip now stored = h
  update_found-IsKeyed (some d) id r owner ip now stored =
      if_keeps KeptBy (not (d.owner_id == owner)) _ _ (λ foreign. h)
        (λ own.
          if_keeps KeptBy (is_blocked d.status) _ _ (λ dead. h)
            (λ free. store-IsKeyed (edit_ops app rules r d now ip s) id d now stored))

  pub update-IsKeyed :
      (id : ℕ) (r : UpdateUrlRequest) (owner : ℕ) (ip : Option String) (now : ℕ)
      → IsKeyed app (update app rules id r owner ip now s).1
  unfolding update
  update-IsKeyed id r owner ip now = update_found-IsKeyed (db.get s.urls id) id r owner ip now refl

  remove_found-IsKeyed :
      (found : Option UrlV2Doc) (id owner : ℕ)
      → db.get s.urls id ≡ found
      → IsKeyed app (remove_found app rules found id owner s).1
  unfolding remove_found
  remove_found-IsKeyed none id owner stored = h
  remove_found-IsKeyed (some d) id owner stored =
      if_keeps KeptBy (not (d.owner_id == owner)) _ _ (λ foreign. h)
        (λ own.
          if_keeps KeptBy (is_blocked d.status) _ _ (λ dead. h)
            (λ free.
              rekeyed-IsKeyed app d.alias id d (db.delete id s.urls) s stored refl
                (λ j other. db.get-delete_ne id j s.urls other) h))

  pub remove-IsKeyed : (id owner : ℕ) → IsKeyed app (remove app rules id owner s).1
  unfolding remove
  remove-IsKeyed id owner = remove_found-IsKeyed (db.get s.urls id) id owner refl

  created-IsKeyed :
      (made : Result EditError UrlV2Doc) (token : String) (id : ℕ)
      → db.get s.urls id ≡ none
      → IsKeyed app (Create.store app rules made token id s).1
  unfolding Create.store insert
  created-IsKeyed (err e) token id fresh = h
  created-IsKeyed (ok d) token id fresh =
      projected-IsKeyed app (db.put id d s.urls) s
        (λ j e stored. (
          e,
          db.get-put_ne id j d s.urls (λ same. cc (fresh, ap (db.get s.urls) same, stored))
              ∙ stored,
          refl,
          refl,
        ))
        h

  pub create-IsKeyed :
      (r : CreateUrlRequest) (owner : Option ℕ) (ip : String) (domain : Option String)
      (draw : ℕ → String) (token : String) (id now : ℕ)
      → db.get s.urls id ≡ none
      → IsKeyed app (create app rules r owner ip domain draw token id now s).1
  unfolding create
  create-IsKeyed r owner ip domain draw token id now fresh =
      created-IsKeyed (created_doc app rules r owner ip domain draw token now s) token id fresh
