-- ===== src/Links/Edit/Remove.antt =====
-- services/url_service.py, `delete`: the owner deletes a link.
use spoo.Base.{
  ℕ, ◌==◌, ◌&&◌, not, Option, none, some, List, [], ◌∷◌, ◌++◌, Result, ok, err, if◌then◌else◌,
}
use spoo.Links.{UrlV2Doc, is_blocked}
use spoo.Links.Resolve.{Deployment, Site, cache_put}
use spoo.Links.Edit.{
  Rules, EditError, url_not_found, access_denied, blocked_link, Effect, og_removed,
}
use spoo.Links.Edit.Update.{is_some, purge_effects, link_effects}

module _ (app : Deployment) (rules : Rules) where
  open app use {db}

  abbrev pub Removed : Type 0
  Removed = Result EditError (Unit {0}) × Site app × List Effect

  unfoldable pub remove_found : Option UrlV2Doc → ℕ → ℕ → Site app → Removed
  unfolding cache_put
  remove_found none id owner s = (err url_not_found, s, [])
  remove_found (some d) id owner s =
      if not (d.owner_id == owner)
      then (err access_denied, s, [])
      else if is_blocked d.status
      then (err blocked_link, s, [])
      else (
        ok tt,
        cache_put app d.alias d.domain none (record s { urls = db.delete id s.urls }),
        (if is_some d.meta_tags && rules.has_writethrough
              then og_removed d.domain d.alias ∷ []
              else purge_effects app rules d.domain d.alias)
            ++ link_effects "link.deleted" d,
      )

  unfoldable pub remove : ℕ → ℕ → Site app → Removed
  unfolding remove_found
  remove id owner s = remove_found (db.get s.urls id) id owner s
