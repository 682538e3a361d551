-- ===== src/Webhooks/Subscriptions/Quiet.antt =====
-- services/webhooks/matcher.py: a cached count of 0 is never older than an endpoint that could match.
-- `Quiet` is kept by a write that activates no endpoint, by one of an owner who is invalidated after,
-- and by the matcher's own `set`.
use spoo.Base.{
  ℕ, Bool, true, false, none, some, List, [], ◌∷◌, length, Listed, ◌≡◌, ◌⊎◌, inl, inr, sym, ◌∙◌,
  subst, arith, Bool-cases, ℕ-cases, if◌then◌else◌,
}
use spoo.Base.Collection.{Collection, find_and_update, find_and_update-before}
use spoo.Base.KeyValue.{KeyValue}
use spoo.Webhooks.{WebhookEndpointDoc}
use spoo.Webhooks.Subscriptions.Matcher.{active_for, set, invalidate}

module _ (redis : KeyValue ℕ ℕ) (has_redis : Bool) (ttl : ℕ)
    (endpoints : Collection ℕ WebhookEndpointDoc) where
  -- Where the cache says 0, no endpoint of the owner is active.
  abbrev pub Quiet : endpoints.State → redis.State → Type 0
  Quiet s r =
      (owner : ℕ)
      → redis.value r owner ≡ some 0
      → (id : ℕ) (d : WebhookEndpointDoc) → endpoints.get s id ≡ some d
      → active_for owner d ≡ false

  -- Every endpoint that is active after a change was active for its owner before, or belongs to an
  -- owner that the change is about.
  abbrev pub Within : (ℕ → Type 0) → endpoints.State → endpoints.State → Type 0
  Within Concerned s s' =
      (id owner : ℕ) (d : WebhookEndpointDoc)
      → endpoints.get s' id ≡ some d
      → active_for owner d ≡ true
      → Concerned owner
        ⊎ ((e : WebhookEndpointDoc) × (endpoints.get s id ≡ some e) × (active_for owner e ≡ true))

  -- A change that activates nothing keeps the cache right.
  pub calm-Quiet :
      (s s' : endpoints.State) (r : redis.State) → Within (λ owner. ⊥) s s' → Quiet s r → Quiet s' r
  calm-Quiet s s' r within before owner zero_ id d here = elim (Bool-cases (active_for owner d)) [
    | inr n ↦ n
    | inl t ↦ elim (within id owner d here t) [
      | inl none_ ↦ absurd none_
      | inr (e, old, was) ↦ cc (before owner zero_ id e old, was)
    ]
  ]

  -- So does a change to one owner's endpoints, once that owner is invalidated.
  pub invalidate-Quiet :
      ((owner : ℕ) (r : redis.State) → (redis.delete owner r).0 ≡ true)
      → (user : ℕ) (s s' : endpoints.State) (r : redis.State) → Within (λ owner. owner ≡ user) s s'
      → has_redis ≡ true
      → Quiet s r
      → Quiet s' (invalidate redis has_redis ttl user r)
  unfolding invalidate
  invalidate-Quiet answers user s s' r within there before =
      subst (λ b. Quiet s' (if b then (redis.delete user r).1 else r)) (sym there) dropped
    where
      dropped : Quiet s' (redis.delete user r).1
      dropped owner zero_ id d here = elim (Bool-cases (active_for owner d)) [
        | inr n ↦ n
        | inl t ↦ elim (within id owner d here t) [
          | inr (e, old, was) ↦
              cc (before owner (redis.value-delete user owner 0 r zero_) id e old, was)
          | inl same ↦
              let gone : redis.value (redis.delete user r).1 owner ≡ none =
                subst (λ o. redis.value (redis.delete user r).1 o ≡ none) (sym same)
                  (redis.value-delete_self user r (answers user r)) in
              cc (gone, zero_)
        ]
      ]

  -- The matcher's own count.
  pub set-Quiet :
      (owner : ℕ) (s : endpoints.State) (r : redis.State)
      → Quiet s r
      → Quiet s (set redis has_redis ttl owner (length (endpoints.find (active_for owner) s)) r)
  unfolding set
  set-Quiet owner s r before = elim (Bool-cases has_redis) [
    | inr n ↦ rw n before
    | inl t ↦ rw t counted
  ]
    where
      nobody :
          (l : List (ℕ × WebhookEndpointDoc)) (x : ℕ × WebhookEndpointDoc)
          → length l ≡ 0
          → Listed x l
          → ⊥
      nobody [] x none_ listed = listed
      nobody (y ∷ l) x none_ listed = omega (arith, none_)

      counted : Quiet s (redis.setex owner ttl (length (endpoints.find (active_for owner) s)) r).1
      counted other zero_ id d here =
          elim (redis.value-setex owner other ttl (length (endpoints.find (active_for owner) s)) 0 r
            zero_) [
              | inr old ↦ before other old id d here
              | inl (same, none_) ↦ elim (Bool-cases (active_for other d)) [
                | inr n ↦ n
                | inl t ↦ absurd (
                    nobody (endpoints.find (active_for owner) s) (id, d) none_
                      ((endpoints.find-Listed (active_for owner) s id d).1
                        (here, subst (λ o. active_for o d ≡ true) (sym same) t)))
              ]
            ]

  -- An update that leaves the owner alone and activates nothing.
  pub find_and_update-Within :
      (k : ℕ) (q : WebhookEndpointDoc → Bool) (f : WebhookEndpointDoc → WebhookEndpointDoc)
      (s : endpoints.State)
      → ((owner : ℕ) (d : WebhookEndpointDoc)
          → active_for owner (f d) ≡ true
          → active_for owner d ≡ true)
      → Within (λ owner. ⊥) s (find_and_update endpoints k q f s).1
  find_and_update-Within k q f s calm id owner d here t =
      let (e, old, change) = find_and_update-before endpoints k id q f s d (ℕ-cases k id) here in
      inr (
        e,
        old,
        elim change [
          | inl same ↦ subst (λ x. active_for owner x ≡ true) same t
          | inr (m, new) ↦ calm owner e (subst (λ x. active_for owner x ≡ true) new t)
        ],
      )

  -- Deletions activate nothing.
  pub delete-Within : (k : ℕ) (s : endpoints.State) → Within (λ owner. ⊥) s (endpoints.delete k s)
  delete-Within k s id owner d here t = elim (ℕ-cases k id) [
    | inl same ↦ cc (
      subst (λ i. endpoints.get (endpoints.delete k s) i ≡ none) same
          (endpoints.get-delete_self k s),
      here,
    )
    | inr apart ↦ inr (d, sym (endpoints.get-delete_ne k id s apart) ∙ here, t)
  ]

  pub widen :
      {Few Many : ℕ → Type 0} (s s' : endpoints.State)
      → ((owner : ℕ) → Few owner → Many owner)
      → Within Few s s'
      → Within Many s s'
  widen s s' wider within id owner d here t = elim (within id owner d here t) [
    | inl few ↦ inl (wider owner few)
    | inr old ↦ inr old
  ]
