-- ===== src/Links/Edit/Claim.antt =====
-- services/url_service.py, `claim`: links made without an account move into one, each by its token.
use spoo.Base.{
  ℕ, ◌+◌, ◌==◌, String, Bool, ◌&&◌, ◌||◌, not, Option, none, some, List, [], ◌∷◌, Result, ok, err,
  length, ltb, if◌then◌else◌,
}
use spoo.Base.Text.{has_text, opt_eq}
use spoo.Base.Collection.{Collection, find_and_update}
use spoo.Links.{UrlV2Doc, anonymous_owner_id}
use spoo.Links.Resolve.{Deployment, Site, cache_put}
use spoo.Links.Edit.{Rules, EditError, claim_limit_reached}
use spoo.Links.Edit.Update.{is_some}

abbrev pub claim_limit_per_account : ℕ
claim_limit_per_account = 500

pub data ClaimStatus : Type 0 where
  claimed already_yours invalid : ClaimStatus

module _ (db : Collection ℕ UrlV2Doc) where
  -- `claim_by_token_hash`: the hash and the anonymous owner are in the filter.
  unfoldable pub claim_by_token_hash : ℕ → String → ℕ → ℕ → db.State → Bool × db.State
  claim_by_token_hash id hash owner now urls =
      let (before, urls') =
        find_and_update db id
          (λ d. opt_eq d.claim_token_hash (some hash) && d.owner_id == anonymous_owner_id)
          (λ d. record d {
            owner_id = owner;
            claimed_at = some now;
            updated_at = some now;
            claim_token_hash = none;
          })
          urls in
      (is_some before, urls')

  unfoldable pub count_claimed : ℕ → db.State → ℕ
  count_claimed owner urls = db.count (λ d. d.owner_id == owner && is_some d.claimed_at) urls

module _ (app : Deployment) (rules : Rules) where
  open app use {db}

  -- The swap of the owner, with the entry of the link dropped; a lost race is invalid.
  unfoldable pub swap_owner : ℕ → UrlV2Doc → String → ℕ → ℕ → Site app → ClaimStatus × Site app
  unfolding claim_by_token_hash cache_put
  swap_owner id d hash owner now s =
      let (swapped, urls) = claim_by_token_hash db id hash owner now s.urls in
      let s' : Site app = record s { urls = urls } in
      if not swapped then (invalid, s') else (claimed, cache_put app d.alias d.domain none s')

  unfoldable pub claim_found :
      Option UrlV2Doc → ℕ → String → ℕ → ℕ → Site app → ClaimStatus × Site app
  unfolding swap_owner
  claim_found none id token owner now s = (invalid, s)
  claim_found (some d) id token owner now s =
      if d.owner_id == owner
      then (already_yours, s)
      else if not (d.owner_id == anonymous_owner_id) || not (has_text d.claim_token_hash)
      then (invalid, s)
      else if not (opt_eq (some (rules.hash_token token)) d.claim_token_hash)
      then (invalid, s)
      else swap_owner id d (rules.hash_token token) owner now s

  -- One item, an id and a token.
  unfoldable pub claim_item : ℕ → String → ℕ → ℕ → Site app → ClaimStatus × Site app
  unfolding claim_found
  claim_item id token owner now s = claim_found (db.get s.urls id) id token owner now s

  unfoldable pub claim_items :
      List (ℕ × String) → ℕ → ℕ → Site app → List (ℕ × ClaimStatus) × Site app
  unfolding claim_item
  claim_items [] owner now s = ([], s)
  claim_items ((id, token) ∷ claims) owner now s =
      let (status, s') = claim_item id token owner now s in
      let (results, s'') = claim_items claims owner now s' in ((id, status) ∷ results, s'')

  unfoldable pub claim :
      List (ℕ × String) → ℕ → ℕ → Site app → Result EditError (List (ℕ × ClaimStatus)) × Site app
  unfolding claim_items count_claimed
  claim claims owner now s =
      if ltb claim_limit_per_account (count_claimed db owner s.urls + length claims)
      then (err claim_limit_reached, s)
      else (let (results, s') = claim_items claims owner now s in (ok results, s'))
