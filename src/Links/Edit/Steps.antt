-- ===== src/Links/Edit/Steps.antt =====
-- What happens to the links of services/url_service.py, as steps in any order: requests, creations,
-- edits, deletions, claims and clicks, by whomever. A new link gets an `_id` that no link has. Redis
-- may stop answering, and does not answer again: a write that it missed can leave an old entry behind.
use spoo.Base.{ℕ, String, ◌≡◌, Bool, false, Option, none, List, arith}
use spoo.Links.{UrlCacheData}
use spoo.Links.Resolve.{Deployment, Site, resolve, cache_get}
use spoo.Links.Coherent.{IsKeyed}
use spoo.Links.Requests.{resolve-IsKeyed}
use spoo.Links.Handler.{handle}
use spoo.Links.Edit.{Rules, UpdateUrlRequest, CreateUrlRequest}
use spoo.Links.Edit.Create.{create}
use spoo.Links.Edit.Update.{update}
use spoo.Links.Edit.Remove.{remove}
use spoo.Links.Edit.Claim.{claim}
use spoo.Links.Edit.Keyed.{create-IsKeyed, update-IsKeyed, remove-IsKeyed}
use spoo.Links.Edit.Counted.{IsCurrent, handle-IsKeyed}
use spoo.Links.Edit.Claimed.{claim-IsKeyed}
use spoo.Links.Edit.Unique.{IsUnique}
use spoo.Links.Edit.Keys.{update-IsUnique, find_and_update-IsUnique, delete-IsUnique}
use spoo.Links.Edit.Fresh.{create-IsUnique}
use spoo.Links.Edit.Others.{handle_keeps, resolve_keeps, remove_keeps, claim_keeps}

module _ (app : Deployment) (rules : Rules) where
  open app use {db}

  pub data Step : Site app → Site app → Type 0 where
    requested :
        (raw : String) (domain : Option String) (now : ℕ) (s : Site app)
        → Step s (resolve app raw domain now s).1
    created :
        (r : CreateUrlRequest) (owner : Option ℕ) (ip : String) (domain : Option String)
        (draw : ℕ → String) (token : String) (id now : ℕ) (s : Site app)
        → db.get s.urls id ≡ none
        → Step s (create app rules r owner ip domain draw token id now s).1
    updated :
        (id : ℕ) (r : UpdateUrlRequest) (owner : ℕ) (ip : Option String) (now : ℕ) (s : Site app)
        → Step s (update app rules id r owner ip now s).1
    deleted : (id owner : ℕ) (s : Site app) → Step s (remove app rules id owner s).1
    claimed :
        (claims : List (ℕ × String)) (owner now : ℕ) (s : Site app)
        → Step s (claim app rules claims owner now s).1
    clicked :
        (code : String) (link : UrlCacheData) (is_bot : Bool) (now : ℕ) (s : Site app)
        → IsCurrent app code link s
        → Step s (handle app code link is_bot now s)
    redis_lost : (s : Site app) → Step s (record s { redis_up = false })

  pub data Reaches (s : Site app) : Site app → Type 0 where
    here : Reaches s s
    next : {t u : Site app} → Reaches s t → Step t u → Reaches s u

  -- Every read is a miss then.
  lost-IsKeyed : (s : Site app) → IsKeyed app (record s { redis_up = false })
  unfolding cache_get
  lost-IsKeyed s domain code l found two = absurd (ground (arith, found))

  Step-IsKeyed : {s t : Site app} → Step s t → IsKeyed app s → IsKeyed app t
  Step-IsKeyed (requested raw domain now s) h = resolve-IsKeyed app raw domain now s h
  Step-IsKeyed (created r owner ip domain draw token id now s fresh) h =
      create-IsKeyed app rules s h r owner ip domain draw token id now fresh
  Step-IsKeyed (updated id r owner ip now s) h = update-IsKeyed app rules s h id r owner ip now
  Step-IsKeyed (deleted id owner s) h = remove-IsKeyed app rules s h id owner
  Step-IsKeyed (claimed claims owner now s) h = claim-IsKeyed app rules claims owner now s h
  Step-IsKeyed (clicked code link is_bot now s current) h =
      handle-IsKeyed app code link now s h current is_bot
  Step-IsKeyed (redis_lost s) h = lost-IsKeyed s

  Step-IsUnique : {s t : Site app} → Step s t → IsUnique db s.urls → IsUnique db t.urls
  Step-IsUnique (requested raw domain now s) h =
      resolve_keeps app (IsUnique db) (find_and_update-IsUnique db) raw domain now s h
  Step-IsUnique (created r owner ip domain draw token id now s fresh) h =
      create-IsUnique app rules s r owner ip domain draw token id now h
  Step-IsUnique (updated id r owner ip now s) h = update-IsUnique app rules s h id r owner ip now
  Step-IsUnique (deleted id owner s) h =
      remove_keeps app (IsUnique db) (find_and_update-IsUnique db) rules id owner s
        (delete-IsUnique db) h
  Step-IsUnique (claimed claims owner now s) h =
      claim_keeps app (IsUnique db) (find_and_update-IsUnique db) rules claims owner now s h
  Step-IsUnique (clicked code link is_bot now s current) h =
      handle_keeps app (IsUnique db) (find_and_update-IsUnique db) code link is_bot now s h
  Step-IsUnique (redis_lost s) h = h

  -- The cache never goes stale while Redis answers. From a state where each cached link of the second
  -- generation is the projection of a stored document, under that document's alias and domain, any
  -- requests, creations, edits, deletions, claims and clicks, one after the other in any order, lead to
  -- such a state again, whether they succeed or fail, where a new link gets an `_id` that no stored link
  -- has, and the event of a click on a stored link has the link's current alias and domain. Redis
  -- answers every call, or from some step on none, so that every read is a miss; that it answers again
  -- after a call that failed is left out.
  pub Reaches-IsKeyed : {s t : Site app} → IsKeyed app s → Reaches s t → IsKeyed app t
  Reaches-IsKeyed h here = h
  Reaches-IsKeyed h (next r step) = Step-IsKeyed step (Reaches-IsKeyed h r)

  -- Keys stay unique. From a state where no two stored links have the same alias on the same
  -- domain, any requests, creations, edits, deletions, claims and clicks, one after the other in any
  -- order, lead to such a state again, whatever aliases and domains they ask for and whatever codes
  -- are drawn, where the event of a click on a stored link has the link's current alias and domain.
  pub Reaches-IsUnique : {s t : Site app} → IsUnique db s.urls → Reaches s t → IsUnique db t.urls
  Reaches-IsUnique h here = h
  Reaches-IsUnique h (next r step) = Step-IsUnique step (Reaches-IsUnique h r)
