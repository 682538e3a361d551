-- ===== src/Webhooks/Subscriptions/Kept.antt =====
-- services/webhooks/service.py: the cache stays right over each of its writes.
use spoo.Base.{
  ℕ, ◌==◌, ==_iff, ℕ-cases, String, Bool, true, Option, none, some, List, [], ◌∷◌, ◌≡◌, inl, inr,
  refl, sym, ap, ◌∙◌, subst, arith, Bool-cases, Option-cases, and-eq-true, Result, ok, err,
}
use spoo.Base.Collection.{
  Collection, find_and_update, find_and_update-before, get-find_and_update_ne,
}
use spoo.Base.KeyValue.{KeyValue}
use spoo.Webhooks.{WebhookEndpointDoc}
use spoo.Webhooks.Subscriptions.Matcher.{active_for}
use spoo.Webhooks.Subscriptions.Updates.{
  WebhookError, NewEndpoint, Fields, Update, set_url, set_events, set_scope, set_description,
  clear_failures, set_flavor, set_status, apply_update, apply_all, updated_fields, new_endpoint,
  updates_of,
}
use spoo.Webhooks.Subscriptions.Service.{
  Site, owned_by, find_owned, get_endpoint, checked_scope, insert, create_endpoint, write, store,
  update_found, update_endpoint, delete_found, delete_endpoint,
}
use spoo.Webhooks.Subscriptions.Quiet.{Quiet, Within, invalidate-Quiet, delete-Within, widen}

-- No update changes whose endpoint it is.
apply_update-user_id :
    (u : Update) (d : WebhookEndpointDoc) → (apply_update u d).user_id ≡ d.user_id
apply_update-user_id (set_url url) d = refl
apply_update-user_id (set_events events) d = refl
apply_update-user_id (set_scope links) d = refl
apply_update-user_id set_description d = refl
apply_update-user_id clear_failures d = refl
apply_update-user_id (set_flavor flavor) d = refl
apply_update-user_id (set_status status) d = refl

apply_all-user_id :
    (us : List Update) (d : WebhookEndpointDoc) → (apply_all us d).user_id ≡ d.user_id
apply_all-user_id [] d = refl
apply_all-user_id (u ∷ us) d = apply_all-user_id us (apply_update u d) ∙ apply_update-user_id u d

owner_of : (owner : ℕ) (d : WebhookEndpointDoc) → active_for owner d ≡ true → owner ≡ d.user_id
owner_of owner d t = sym ((==_iff d.user_id owner).0 (and-eq-true (d.user_id == owner) _ t).0)

module _ (redis : KeyValue ℕ ℕ) (has_redis : Bool) (ttl : ℕ)
    (endpoints : Collection ℕ WebhookEndpointDoc) where
  -- The state of the service: the collection and the cache.
  abbrev pub State : Type 0
  State = Site redis has_redis ttl endpoints

  -- The cache is right, where there is one.
  abbrev pub IsQuiet : State → Type 0
  IsQuiet (s, r) = has_redis ≡ true → Quiet redis has_redis ttl endpoints s r

  put-Within :
      (id user : ℕ) (d : WebhookEndpointDoc) (s : endpoints.State)
      → d.user_id ≡ user
      → Within redis has_redis ttl endpoints (λ owner. owner ≡ user) s (endpoints.put id d s)
  put-Within id user d s mine i owner e here t = elim (ℕ-cases id i) [
    | inr apart ↦ inr (e, sym (endpoints.get-put_ne id i d s apart) ∙ here, t)
    | inl same ↦
        let stored : endpoints.get (endpoints.put id d s) i ≡ some d =
          subst (λ j. endpoints.get (endpoints.put id d s) j ≡ some d) same
            (endpoints.get-put_self id d s) in
        let one : e ≡ d = cc (stored, here) in
        inl (owner_of owner e t ∙ ap (λ x. x.user_id) one ∙ mine)
  ]

  edit-Within :
      (id user : ℕ) (us : List Update) (now : ℕ) (doc : WebhookEndpointDoc) (s : endpoints.State)
      → endpoints.get s id ≡ some doc
      → doc.user_id ≡ user
      → Within redis has_redis ttl endpoints
          (λ owner. owner ≡ user)
          s
          (find_and_update endpoints id (λ d. true) (updated_fields us now) s).1
  edit-Within id user us now doc s found mine i owner d here t = elim (ℕ-cases id i) [
    | inr apart ↦ inr (
      d,
      sym (get-find_and_update_ne endpoints id i (λ d. true) (updated_fields us now) s apart)
          ∙ here,
      t,
    )
    | inl same ↦
        let (e, old, change) =
          find_and_update-before endpoints id i (λ d. true) (updated_fields us now) s d (inl same)
            here in
        elim change [
          | inl kept ↦ inr (e, old, subst (λ x. active_for owner x ≡ true) kept t)
          | inr (m, new) ↦
              let one : e ≡ doc = cc (old, subst (λ j. endpoints.get s j ≡ some doc) same found) in
              inl (
                owner_of owner d t
                ∙ ap (λ x. x.user_id) new
                ∙ apply_all-user_id us e
                ∙ ap (λ x. x.user_id) one
                ∙ mine)
        ]
  ]

  module _ (answers : (owner : ℕ) (r : redis.State) → (redis.delete owner r).0 ≡ true) where
    insert-IsQuiet :
        (checked : Result WebhookError (Option (List ℕ))) (user id : ℕ) (new : NewEndpoint)
        (s : endpoints.State) (r : redis.State)
        → IsQuiet (s, r)
        → IsQuiet (insert redis has_redis ttl endpoints checked user id new (s, r)).1
    unfolding insert
    insert-IsQuiet (err e) user id new s r before = before
    insert-IsQuiet (ok links) user id new s r before = λ there.
        invalidate-Quiet redis has_redis ttl endpoints answers user s
          (endpoints.put id (new_endpoint user new links) s) r
          (put-Within id user (new_endpoint user new links) s refl) there (before there)

    pub create-IsQuiet :
        (allowed : String → Bool) (max_endpoints user id : ℕ) (new : NewEndpoint)
        (s : endpoints.State) (r : redis.State)
        → IsQuiet (s, r)
        → IsQuiet
            (create_endpoint redis has_redis ttl endpoints allowed max_endpoints user id new
              (s, r)).1
    unfolding create_endpoint
    create-IsQuiet allowed max_endpoints user id new s r before =
        insert-IsQuiet
          (checked_scope redis has_redis ttl endpoints allowed max_endpoints user new s) user id new
          s r before

    write-IsQuiet :
        (us : List Update) (id user now : ℕ) (doc : WebhookEndpointDoc) (s : endpoints.State)
        (r : redis.State)
        → endpoints.get s id ≡ some doc
        → doc.user_id ≡ user
        → IsQuiet (s, r)
        → IsQuiet (write redis has_redis ttl endpoints us id user now (s, r))
    unfolding write
    write-IsQuiet [] id user now doc s r found mine before = before
    write-IsQuiet (u ∷ us) id user now doc s r found mine before = λ there.
        invalidate-Quiet redis has_redis ttl endpoints answers user s
          (find_and_update endpoints id (λ d. true) (updated_fields (u ∷ us) now) s).1 r
          (edit-Within id user (u ∷ us) now doc s found mine) there (before there)

    store-IsQuiet :
        (computed : Result WebhookError (List Update)) (id user now : ℕ) (doc : WebhookEndpointDoc)
        (s : endpoints.State) (r : redis.State)
        → endpoints.get s id ≡ some doc
        → doc.user_id ≡ user
        → IsQuiet (s, r)
        → IsQuiet (store redis has_redis ttl endpoints computed id user now (s, r)).1
    unfolding store
    store-IsQuiet (err e) id user now doc s r found mine before = before
    store-IsQuiet (ok us) id user now doc s r found mine before =
        write-IsQuiet us id user now doc s r found mine before

    -- What `find_owned` finds is stored, and is the user's.
    owned :
        (o : Option WebhookEndpointDoc) (user : ℕ) (d : WebhookEndpointDoc)
        → owned_by redis has_redis ttl endpoints user o ≡ some d
        → (o ≡ some d) × (d.user_id ≡ user)
    owned none user d h = cc
    owned (some e) user d h = elim (Bool-cases (e.user_id == user)) [
      | inr n ↦ absurd (ground (arith, n, h))
      | inl t ↦
          let one : e ≡ d = ground (arith, t, h) in
          (ap some one, ap (λ x. x.user_id) (sym one) ∙ (==_iff e.user_id user).0 t)
    ]

    pub update-IsQuiet :
        (allowed : String → Bool) (id user : ℕ) (fields : Fields) (now : ℕ) (s : endpoints.State)
        (r : redis.State)
        → IsQuiet (s, r)
        → IsQuiet
            (update_endpoint redis has_redis ttl endpoints allowed id user fields now (s, r)).1
    unfolding update_endpoint update_found get_endpoint find_owned
    update-IsQuiet allowed id user fields now s r before =
        elim (Option-cases (owned_by redis has_redis ttl endpoints user (endpoints.get s id))) [
          | inl nothing ↦ rw nothing before
          | inr (doc, found) ↦
              let (stored, mine) = owned (endpoints.get s id) user doc found in
              rw found (
                store-IsQuiet (updates_of allowed doc fields) id user now doc s r stored mine
                  before)
        ]

    pub delete-IsQuiet :
        (id user : ℕ) (s : endpoints.State) (r : redis.State)
        → IsQuiet (s, r)
        → IsQuiet (delete_endpoint redis has_redis ttl endpoints id user (s, r)).1
    unfolding delete_endpoint delete_found find_owned
    delete-IsQuiet id user s r before =
        elim (Option-cases (owned_by redis has_redis ttl endpoints user (endpoints.get s id))) [
          | inl nothing ↦ rw nothing before
          | inr (doc, found) ↦ rw found (λ there.
              invalidate-Quiet redis has_redis ttl endpoints answers user s (endpoints.delete id s)
                r
                (widen redis has_redis ttl endpoints s (endpoints.delete id s) (λ o no_. absurd no_)
                  (delete-Within redis has_redis ttl endpoints id s))
                there (before there))
        ]
