-- ===== src/Links/Edit/Reactivated.antt =====
-- When an edit of services/url_service.py brings an expired link back (`_auto_reactivate`), by what
-- the request carries.
use spoo.Base.{
  ℕ, ◌==◌, ◌∙◌, String, ◌≡◌, refl, ap, ap₂, sym, subst, Bool, true, false, ◌&&◌, ◌||◌, not, Option,
  none, some, arith, if◌then◌else◌, if_keeps, Result, ok, err, Returns, Returns-ok, ltb,
}
use spoo.Base.Collection.{find_and_update, find_and_update-match}
use spoo.Links.{UrlV2Doc, UrlStatus, active, expired, is_blocked}
use spoo.Links.Resolve.{Deployment, Site}
use spoo.Links.Edit.{Rules, EditError, UpdateUrlRequest, Field, absent, null, given}
use spoo.Links.Edit.Values.{opt_eq_by, has_number}
use spoo.Links.Edit.Handlers.{Ops, from, handle_max_clicks, handle_date, handle_status}
use spoo.Links.Edit.Update.{
  is_some, apply, auto_reactivate, clicks_improved, expiry_improved, edit_ops, persist, store,
  update_found, update, is_empty, Edited,
}
use spoo.Links.Edit.Keys.{IsEdited, edit_ops-IsEdited, invalidate_both-urls}

-- A limit that is removed, or set to another number above the clicks.
abbrev pub lifts_limit : Field ℕ → Option ℕ → ℕ → Bool
lifts_limit absent current clicks = false
lifts_limit null current clicks = has_number current
lifts_limit (given m) current clicks =
    if m == 0 then has_number current else not (opt_eq_by ◌==◌ (some m) current) && ltb clicks m

-- A date that is removed, or given at all: also the one that is stored.
abbrev pub lifts_date : Field ℕ → Option ℕ → Bool
lifts_date absent current = false
lifts_date null current = is_some current
lifts_date (given t) current = true

clicks_lifted :
    (field : Field ℕ) (current : Option ℕ) (clicks : ℕ)
    → Returns
        (λ out. clicks_improved out clicks ≡ lifts_limit field current clicks)
        (handle_max_clicks field current)
unfolding handle_max_clicks
clicks_lifted absent current clicks = refl
clicks_lifted null none clicks = refl
clicks_lifted null (some n) clicks = ground arith
clicks_lifted (given m) none clicks = ground arith
clicks_lifted (given m) (some n) clicks = ground arith

date_lifted :
    (name : String) (field : Field ℕ) (current : Option ℕ) (now : ℕ)
    → Returns
        (λ out. expiry_improved out now ≡ lifts_date field current)
        (handle_date name field current now)
unfolding handle_date
date_lifted name absent current now = refl
date_lifted name null none now = refl
date_lifted name null (some t) now = refl
date_lifted name (given t) current now = ground arith

module _ (app : Deployment) (rules : Rules) (s : Site app) where
  open app use {db}

  -- The status after an edit with no status of its own.
  abbrev pub lifted_status : UpdateUrlRequest → UrlV2Doc → UrlStatus
  lifted_status r d =
      if lifts_limit r.max_clicks d.max_clicks d.total_clicks
        || lifts_date r.expire_after d.expire_after
      then active
      else expired

  reactivated-status :
      (d : UrlV2Doc) (ops : Ops) (now : ℕ)
      → d.status ≡ expired
      → ops.status ≡ none
      → from (auto_reactivate d ops now).status d.status ≡ (
          if clicks_improved ops.max_clicks d.total_clicks || expiry_improved ops.expire_after now
          then active
          else expired)
  unfolding auto_reactivate
  reactivated-status d ops now over unset = ground (arith, over, unset)

  edited-status :
      (r : UpdateUrlRequest) (d : UrlV2Doc) (now : ℕ) (ops : Ops)
      → d.status ≡ expired
      → r.status ≡ none
      → IsEdited app rules s r d now ops
      → from ops.status d.status ≡ lifted_status r d
  edited-status r d now ops over unset (built, is_built, eq) =
      let same : handle_status none d.status ≡ ok built.status =
        ap (λ x. handle_status x d.status) (sym unset) ∙ is_built.status in
      let kept : built.status ≡ none = ground (arith, same) in
      let clicks =
        Returns-ok
          (λ out.
            clicks_improved out d.total_clicks
            ≡ lifts_limit r.max_clicks d.max_clicks d.total_clicks)
          (handle_max_clicks r.max_clicks d.max_clicks) built.max_clicks is_built.max_clicks
          (clicks_lifted r.max_clicks d.max_clicks d.total_clicks) in
      let date =
        Returns-ok (λ out. expiry_improved out now ≡ lifts_date r.expire_after d.expire_after)
          (handle_date "expire_after" r.expire_after d.expire_after now) built.expire_after
          is_built.expire_after (date_lifted "expire_after" r.expire_after d.expire_after now) in
      ap (λ o. from o.status d.status) eq
      ∙ reactivated-status d built now over kept
      ∙ ap₂ (λ a b. if a || b then active else expired) clicks date

  module _ (id : ℕ) (d : UrlV2Doc) (now : ℕ) (stored : db.get s.urls id ≡ some d) where
    -- A successful edit stores the document that it returns.
    abbrev Stores : Ops → Edited app rules → Type 0
    Stores ops r =
        (e : UrlV2Doc)
        → r.0 ≡ ok e
        → (db.get r.1.urls id ≡ some e) × (e.status ≡ from ops.status d.status)

    persist-Stores : (ops : Ops) → Stores ops (persist app rules id d ops now s)
    unfolding persist apply
    persist-Stores ops =
        if_keeps (Stores ops) (is_empty ops) _ _
          (λ empty e done.
            let same : d ≡ e = ground (arith, done) in
            let unset : ops.status ≡ none = ground (arith, empty) in
            rw (← same, unset) (stored, refl))
          (λ changed e done.
            let f = apply ops now in
            let same : f d ≡ e = ground (arith, done) in
            let match = find_and_update-match db id (λ x. true) f s.urls d stored refl in
            (
              ap (λ u. db.get u id)
                    (invalidate_both-urls app rules s d (f d)
                      (record s { urls = (find_and_update db id (λ x. true) f s.urls).1 }))
                  ∙ ap (λ x. db.get (x.1) id) match
                  ∙ db.get-put_self id (f d) s.urls
                  ∙ ap some same,
              ap (λ x. x.status) (sym same),
            ))

    store-Stores :
        (result : Result EditError Ops)
        → (e : UrlV2Doc) → (store app rules result id d now s).0 ≡ ok e
        → (ops : Ops) × (result ≡ ok ops)
          × (db.get (store app rules result id d now s).1.urls id ≡ some e)
          × (e.status ≡ from ops.status d.status)
    unfolding store
    store-Stores (err x) e done = cc
    store-Stores (ok ops) e done =
        let (there, status) = persist-Stores ops e done in (ops, refl, there, status)

    -- An edit brings an expired link back exactly if it lifts the limit or gives a date. A successful
    -- edit of a stored EXPIRED link, with no status in the request, stores the document that it
    -- returns, and that document is ACTIVE if the request removes the limit of clicks, sets another
    -- limit above the clicks, removes the expiry or gives an expiry at all, also the one that is
    -- stored; otherwise it stays EXPIRED.
    pub update-Reactivated :
        (r : UpdateUrlRequest) (owner : ℕ) (ip : Option String) (e : UrlV2Doc)
        → d.status ≡ expired
        → r.status ≡ none
        → (update app rules id r owner ip now s).0 ≡ ok e
        → (db.get (update app rules id r owner ip now s).1.urls id ≡ some e)
          × (e.status ≡ lifted_status r d)
    unfolding update update_found
    update-Reactivated r owner ip e over unset =
        let Brought : Edited app rules → Type 0 =
          λ x. x.0 ≡ ok e → (db.get x.1.urls id ≡ some e) × (e.status ≡ lifted_status r d) in
        subst
          (λ o.
            (update_found app rules o id r owner ip now s).0 ≡ ok e
            → (db.get (update_found app rules o id r owner ip now s).1.urls id ≡ some e)
              × (e.status ≡ lifted_status r d))
          (sym stored)
          (if_keeps Brought (not (d.owner_id == owner)) _ _ (λ foreign done. cc)
            (λ own.
              if_keeps Brought (is_blocked d.status) _ _ (λ dead done. cc)
                (λ free done.
                  let result = edit_ops app rules r d now ip s in
                  let (ops, ok_ops, there, status) = store-Stores result e done in
                  let edited =
                    Returns-ok (IsEdited app rules s r d now) result ops ok_ops
                      (edit_ops-IsEdited app rules s r d now ip) in
                  (there, status ∙ edited-status r d now ops over unset edited))))
