-- ===== src/Links/Handler.antt =====
-- services/click/handlers.py, `V2ClickHandler.handle`, on the collection and the cache: a link that
-- has just expired loses its cache entry.
use spoo.Base.{
  ℕ, ◌+◌, ◌≤◌, String, ◌≡◌, refl, sym, subst, Bool, false, ◌&&◌, none, some, leb, if◌then◌else◌,
  if_keeps,
}
use spoo.Base.Collection.{Holds}
use spoo.Links.{UrlV2Doc, UrlCacheData, expired}
use spoo.Links.Resolve.{Deployment, Site, cache_put}
use spoo.Links.Coherent.{cache_put-urls}
use spoo.Links.Clicks.{count_click, count_click-Expired}

module _ (app : Deployment) where
  open app use {db}

  -- The resolved alias, the link of the event, whether the request is a bot, and the moment.
  unfoldable pub handle : String → UrlCacheData → Bool → ℕ → Site app → Site app
  handle code link is_bot now s =
      let (just_expired, urls) = count_click db link is_bot now s.urls in
      let s' : Site app = record s { urls = urls } in
      if just_expired then cache_put app code link.domain none s' else s'

  handle-urls :
      (code : String) (link : UrlCacheData) (is_bot : Bool) (now : ℕ) (s : Site app)
      → (handle code link is_bot now s).urls ≡ (count_click db link is_bot now s.urls).1
  unfolding handle
  handle-urls code link is_bot now s =
      let counted = count_click db link is_bot now s.urls in
      let s' : Site app = record s { urls = counted.1 } in
      if_keeps (λ (t : Site app). t.urls ≡ counted.1) (counted.0) _ _
        (λ over. cache_put-urls app code link.domain none s') (λ live. refl)

  -- The limit of clicks. A counted click on a stored link with a positive limit counts one more, and
  -- where the count reaches the limit it expires the link, whatever its status was: also where
  -- the link had been blocked.
  pub handle-Expired :
      (code : String) (link : UrlCacheData) (is_bot : Bool) (now m : ℕ) (s : Site app)
      (d : UrlV2Doc)
      → db.get s.urls link.id ≡ some d
      → link.max_clicks ≡ some m
      → 1 ≤ m
      → (link.block_bots && is_bot) ≡ false
      → Holds db
          (λ e.
            (e.total_clicks ≡ d.total_clicks + 1)
            × (e.status ≡ (if leb m (d.total_clicks + 1) then expired else d.status)))
          (handle code link is_bot now s).urls
          link.id
  handle-Expired code link is_bot now m s d stored limit positive counted =
      subst
        (λ u.
          Holds db
            (λ e.
              (e.total_clicks ≡ d.total_clicks + 1)
              × (e.status ≡ (if leb m (d.total_clicks + 1) then expired else d.status)))
            u link.id)
        (sym (handle-urls code link is_bot now s))
        (count_click-Expired db link is_bot now m s.urls d stored limit positive counted)
