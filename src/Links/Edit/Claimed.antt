-- ===== src/Links/Edit/Claimed.antt =====
-- The cache stays in step through the claim of links (services/url_service.py, `claim`).
use spoo.Base.{
  ℕ, ◌==◌, ◌+◌, String, ◌≡◌, refl, Bool, ◌&&◌, ◌||◌, not, Option, none, some, List, [], ◌∷◌, inl,
  inr, Bool-cases, if_keeps, ltb, length,
}
use spoo.Base.Text.{has_text, opt_eq}
use spoo.Base.Collection.{find_and_update-match, find_and_update-miss}
use spoo.Links.{UrlV2Doc, anonymous_owner_id}
use spoo.Links.Resolve.{Deployment, Site}
use spoo.Links.Coherent.{IsKeyed, rekeyed-IsKeyed}
use spoo.Links.Edit.{Rules}
use spoo.Links.Edit.Claim.{
  claim, claim_items, claim_item, claim_found, swap_owner, claim_by_token_hash, count_claimed,
  claim_limit_per_account,
}

module _ (app : Deployment) where
  open app use {db}

  module _ (rules : Rules) where
    swap_owner-IsKeyed :
        (id : ℕ) (d : UrlV2Doc) (hash : String) (owner now : ℕ) (s : Site app)
        → db.get s.urls id ≡ some d
        → IsKeyed app s
        → IsKeyed app (swap_owner app rules id d hash owner now s).1
    unfolding swap_owner claim_by_token_hash
    swap_owner-IsKeyed id d hash owner now s stored h =
        let q : UrlV2Doc → Bool =
          λ x. opt_eq x.claim_token_hash (some hash) && x.owner_id == anonymous_owner_id in
        let f : UrlV2Doc → UrlV2Doc = λ x. record x {
          owner_id = owner;
          claimed_at = some now;
          updated_at = some now;
          claim_token_hash = none;
        } in
        elim (Bool-cases (q d)) [
          | inr lost ↦ rw (find_and_update-miss db id q f s.urls d stored lost) h
          | inl won ↦ rw (find_and_update-match db id q f s.urls d stored won) (
              rekeyed-IsKeyed app d.alias id d (db.put id (f d) s.urls) s stored refl
                (λ j other. db.get-put_ne id j (f d) s.urls other) h)
        ]

    abbrev KeptBy {ℓ} : {A : Type ℓ} → A × Site app → Type 0
    KeptBy r = IsKeyed app r.1

    claim_found-IsKeyed :
        (found : Option UrlV2Doc) (id : ℕ) (token : String) (owner now : ℕ) (s : Site app)
        → db.get s.urls id ≡ found
        → IsKeyed app s
        → IsKeyed app (claim_found app rules found id token owner now s).1
    unfolding claim_found
    claim_found-IsKeyed none id token owner now s stored h = h
    claim_found-IsKeyed (some d) id token owner now s stored h =
        if_keeps KeptBy (d.owner_id == owner) _ _ (λ own. h)
          (λ foreign.
            if_keeps KeptBy
              (not (d.owner_id == anonymous_owner_id) || not (has_text d.claim_token_hash)) _ _
              (λ unclaimable. h)
              (λ claimable.
                if_keeps KeptBy (not (opt_eq (some (rules.hash_token token)) d.claim_token_hash)) _
                  _ (λ wrong. h)
                  (λ right. swap_owner-IsKeyed id d (rules.hash_token token) owner now s stored h)))

    claim_items-IsKeyed :
        (claims : List (ℕ × String)) (owner now : ℕ) (s : Site app)
        → IsKeyed app s
        → IsKeyed app (claim_items app rules claims owner now s).1
    unfolding claim_items claim_item
    claim_items-IsKeyed [] owner now s h = h
    claim_items-IsKeyed ((id, token) ∷ claims) owner now s h =
        claim_items-IsKeyed claims owner now (claim_item app rules id token owner now s).1
          (claim_found-IsKeyed (db.get s.urls id) id token owner now s refl h)

    pub claim-IsKeyed :
        (claims : List (ℕ × String)) (owner now : ℕ) (s : Site app)
        → IsKeyed app s
        → IsKeyed app (claim app rules claims owner now s).1
    unfolding claim
    claim-IsKeyed claims owner now s h =
        if_keeps KeptBy
          (ltb claim_limit_per_account (count_claimed db owner s.urls + length claims)) _ _
          (λ full. h) (λ free. claim_items-IsKeyed claims owner now s h)
