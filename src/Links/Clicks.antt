-- ===== src/Links/Clicks.antt =====
-- What a click writes to a v2 link: repositories/url_repository.py, `increment_clicks` and
-- `expire_if_max_clicks`, as services/click/handlers.py, `V2ClickHandler.handle`, calls them once it
-- has classified the request. `Handler` has the cache
-- entry that goes with it. Left out: the insert of the click itself and the event of an expiry.
use spoo.Base.{
  ℕ, ◌+◌, ◌≤◌, ◌≡◌, ◌∙◌, refl, ap, sym, Bool, true, false, ◌&&◌, not, Option, none, some, inl, inr,
  arith, leb, ◌==◌, if◌then◌else◌, Bool-cases,
}
use Prim.Native.Nat.{max}
use spoo.Base.Collection.{
  Collection, Holds, find_and_update, find_and_update-match, find_and_update-miss,
}
use spoo.Links.{UrlV2Doc, UrlCacheData, expired, is_expired}

-- `$max`: a missing field is set.
abbrev pub latest : Option ℕ → ℕ → Option ℕ
latest none t = some t
latest (some u) t = some (max u t)

abbrev pub clicked : ℕ → UrlV2Doc → UrlV2Doc
clicked now d = record d { total_clicks = d.total_clicks + 1; last_click = latest d.last_click now }

abbrev pub flipped : UrlV2Doc → UrlV2Doc
flipped d = record d { status = expired }

module _ (db : Collection ℕ UrlV2Doc) where
  unfoldable pub increment_clicks : ℕ → ℕ → db.State → db.State
  increment_clicks id now urls = (find_and_update db id (λ d. true) (clicked now) urls).1

  -- The result is whether the write changed a document.
  unfoldable pub expire_if_max_clicks : ℕ → ℕ → db.State → Bool × db.State
  expire_if_max_clicks id max_clicks urls =
      let (before, urls') =
        find_and_update db id (λ d. leb max_clicks d.total_clicks) flipped urls in
      (elim before [ none ↦ false | some d ↦ not (is_expired d.status) ], urls')

  -- `if url_data.max_clicks`: zero is falsy.
  unfoldable pub check_max_clicks : ℕ → Option ℕ → db.State → Bool × db.State
  unfolding expire_if_max_clicks
  check_max_clicks id none urls = (false, urls)
  check_max_clicks id (some m) urls =
      if m == 0 then (false, urls) else expire_if_max_clicks id m urls

  -- Of the request: whether it is a bot. The result is whether the link has just expired.
  unfoldable pub count_click : UrlCacheData → Bool → ℕ → db.State → Bool × db.State
  unfolding increment_clicks check_max_clicks
  count_click link is_bot now urls =
      if link.block_bots && is_bot
      then (false, urls)
      else check_max_clicks link.id link.max_clicks (increment_clicks link.id now urls)

  increment_clicks-stored :
      (id now : ℕ) (urls : db.State) (d : UrlV2Doc)
      → db.get urls id ≡ some d
      → db.get (increment_clicks id now urls) id ≡ some (clicked now d)
  unfolding increment_clicks
  increment_clicks-stored id now urls d stored =
      ap (λ r. db.get (r.1) id)
        (find_and_update-match db id (λ x. true) (clicked now) urls d stored refl)
      ∙ db.get-put_self id (clicked now d) urls

  -- The document with the status that the limit gives it.
  abbrev Limited : ℕ → UrlV2Doc → UrlV2Doc → Type 0
  Limited m d e =
      (e.total_clicks ≡ d.total_clicks)
      × (e.status ≡ (if leb m d.total_clicks then expired else d.status))

  expire_if_max_clicks-Limited :
      (id m : ℕ) (urls : db.State) (d : UrlV2Doc)
      → db.get urls id ≡ some d
      → Holds db (Limited m d) (expire_if_max_clicks id m urls).1 id
  unfolding expire_if_max_clicks
  expire_if_max_clicks-Limited id m urls d stored = elim (Bool-cases (leb m d.total_clicks)) [
    | inl reached ↦ (
      flipped d,
      ap (λ r. db.get (r.1) id)
            (find_and_update-match db id (λ x. leb m x.total_clicks) flipped urls d stored reached)
          ∙ db.get-put_self id (flipped d) urls,
      (refl, sym (ap (λ (b : Bool). if b then expired else d.status) reached)),
    )
    | inr below ↦ (
      d,
      ap (λ r. db.get (r.1) id)
            (find_and_update-miss db id (λ x. leb m x.total_clicks) flipped urls d stored below)
          ∙ stored,
      (refl, sym (ap (λ (b : Bool). if b then expired else d.status) below)),
    )
  ]

  check_max_clicks-positive :
      (id m : ℕ) (urls : db.State)
      → 1 ≤ m
      → check_max_clicks id (some m) urls ≡ expire_if_max_clicks id m urls
  unfolding check_max_clicks
  check_max_clicks-positive id m urls positive =
      let nonzero : (m == 0) ≡ false = ground (arith, positive) in
      ap (λ (b : Bool). if b then (false, urls) else expire_if_max_clicks id m urls) nonzero

  -- A counted click on a stored link with a positive limit: the count, and the status.
  pub count_click-Expired :
      (link : UrlCacheData) (is_bot : Bool) (now m : ℕ) (urls : db.State) (d : UrlV2Doc)
      → db.get urls link.id ≡ some d
      → link.max_clicks ≡ some m
      → 1 ≤ m
      → (link.block_bots && is_bot) ≡ false
      → Holds db
          (λ e.
            (e.total_clicks ≡ d.total_clicks + 1)
            × (e.status ≡ (if leb m (d.total_clicks + 1) then expired else d.status)))
          (count_click link is_bot now urls).1
          link.id
  unfolding count_click
  count_click-Expired link is_bot now m urls d stored limit positive counted =
      let urls' = increment_clicks link.id now urls in
      let (e, there, limited) =
        expire_if_max_clicks-Limited link.id m urls' (clicked now d)
          (increment_clicks-stored link.id now urls d stored) in
      rw (counted, limit, check_max_clicks-positive link.id m urls' positive) (e, there, limited)
