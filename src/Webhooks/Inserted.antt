-- ===== src/Webhooks/Inserted.antt =====
-- The rows that services/webhooks/dispatcher.py inserts after its loop, and the pending cap over a
-- whole dispatch.
use spoo.Base.{
  ℕ, ◌+◌, ◌≤◌, ◌≡◌, ◌≢◌, ◌⊎◌, ◌∙◌, refl, String, Bool, true, false, none, some, List, [], ◌∷◌, ◌++◌,
  inl, inr, arith, All, ap,
}
use spoo.Base.Collection.{Collection, Holds, tally}
use spoo.Webhooks.{WebhookEndpointDoc, WebhookDeliveryDoc}
use spoo.Webhooks.Deliveries.{count_pending, holds_slot}
use spoo.Webhooks.Dispatcher.{
  Target, Reserved, Throttle, make_delivery_row, reserve_slot, queue, reserve_all, insert_many_rows,
  dispatch,
}
use spoo.Webhooks.Capped.{rows_for, reserve_all-Within}

module _ (dd : Collection ℕ WebhookDeliveryDoc) where
  -- The `_id`s of the rows are new and distinct.
  abbrev pub Fresh : List Target → dd.State → Type 0
  Fresh [] deliveries = Unit
  Fresh (t ∷ ts) deliveries =
      (dd.get deliveries t.row_id ≡ none) × All (λ u. t.row_id ≢ u.row_id) ts × Fresh ts deliveries

  Fresh-put :
      (k : ℕ) (d : WebhookDeliveryDoc) (ts : List Target) (deliveries : dd.State)
      → All (λ u. k ≢ u.row_id) ts
      → Fresh ts deliveries
      → Fresh ts (dd.put k d deliveries)
  Fresh-put k d [] deliveries apart fresh = tt
  Fresh-put k d (t ∷ ts) deliveries (ne, apart) (absent, distinct, fresh) = (
    dd.get-put_ne k t.row_id d deliveries ne ∙ absent,
    distinct,
    Fresh-put k d ts deliveries apart fresh,
  )

  count-insert_many_rows :
      (event_oid : ℕ) (event_type : String) (e : ℕ) (ts : List Target) (deliveries : dd.State)
      → Fresh ts deliveries
      → count_pending dd e (insert_many_rows dd event_oid event_type ts deliveries)
        ≡ count_pending dd e deliveries + rows_for e ts
  unfolding count_pending insert_many_rows
  count-insert_many_rows event_oid event_type e [] deliveries fresh = omega arith
  count-insert_many_rows event_oid event_type e (t ∷ ts) deliveries (absent, distinct, fresh) =
      let row = make_delivery_row event_oid event_type t in
      let deliveries' = dd.put t.row_id row deliveries in
      let rest =
        count-insert_many_rows event_oid event_type e ts deliveries'
          (Fresh-put t.row_id row ts deliveries distinct fresh) in
      let held : tally (holds_slot e) (some row) ≡ rows_for e (t ∷ []) = ground arith in
      omega (
        arith,
        rest,
        held,
        dd.count-put (holds_slot e) t.row_id row deliveries,
        ap (tally (holds_slot e)) absent,
      )

module _ (dd : Collection ℕ WebhookDeliveryDoc) (ed : Collection ℕ WebhookEndpointDoc)
    (max_pending recount_interval : ℕ) (deliveries : dd.State) where
  abbrev Turned : Type 0
  Turned = Bool × Reserved dd ed max_pending recount_interval

  -- The rows of a loop are some of the targets, in their order.
  queue-All :
      (P : Target → Type 0) (t : Target) (r : Turned) (rows : List Target)
      → P t
      → All P rows
      → All P ((queue dd ed max_pending recount_interval t r).0 ++ rows)
  unfolding queue
  queue-All P t (true, s) rows p ps = (p, ps)
  queue-All P t (false, (throttle, endpoints)) rows p ps = ps

  reserve_all-All :
      (P : Target → Type 0) (ts : List Target) (s : Reserved dd ed max_pending recount_interval)
      → All P ts
      → All P (reserve_all dd ed max_pending recount_interval ts deliveries s).0
  unfolding reserve_all
  reserve_all-All P [] s ps = tt
  reserve_all-All P (t ∷ ts) s (p, ps) =
      let r =
        reserve_slot dd ed max_pending recount_interval t.endpoint_id t.monotonic deliveries s in
      let s' = (queue dd ed max_pending recount_interval t r).1 in
      queue-All P t r (reserve_all dd ed max_pending recount_interval ts deliveries s').0 p
        (reserve_all-All P ts s' ps)

  queue-Fresh :
      (t : Target) (r : Turned) (rows : List Target)
      → dd.get deliveries t.row_id ≡ none
      → All (λ u. t.row_id ≢ u.row_id) rows
      → Fresh dd rows deliveries
      → Fresh dd ((queue dd ed max_pending recount_interval t r).0 ++ rows) deliveries
  unfolding queue
  queue-Fresh t (true, s) rows absent distinct fresh = (absent, distinct, fresh)
  queue-Fresh t (false, (throttle, endpoints)) rows absent distinct fresh = fresh

  reserve_all-Fresh :
      (ts : List Target) (s : Reserved dd ed max_pending recount_interval)
      → Fresh dd ts deliveries
      → Fresh dd (reserve_all dd ed max_pending recount_interval ts deliveries s).0 deliveries
  unfolding reserve_all
  reserve_all-Fresh [] s fresh = tt
  reserve_all-Fresh (t ∷ ts) s (absent, distinct, fresh) =
      let r =
        reserve_slot dd ed max_pending recount_interval t.endpoint_id t.monotonic deliveries s in
      let s' = (queue dd ed max_pending recount_interval t r).1 in
      queue-Fresh t r (reserve_all dd ed max_pending recount_interval ts deliveries s').0 absent
        (reserve_all-All (λ u. t.row_id ≢ u.row_id) ts s' distinct) (reserve_all-Fresh ts s' fresh)

  -- The counter of an endpoint lies between its deliveries that hold a slot and `drift` more.
  abbrev pub IsNear : ℕ → ℕ → dd.State → ed.State → Type 0
  IsNear e drift stored endpoints =
      Holds ed
        (λ p.
          (count_pending dd e stored ≤ p.pending_count)
          × (p.pending_count ≤ count_pending dd e stored + drift))
        endpoints e

  -- The pending cap. An event is dispatched to matched endpoints, among them one endpoint at most
  -- once, with new row ids that are distinct. If its counter lay between its pending deliveries and
  -- `drift` more, it lies there after the dispatch as well, and the dispatch either added no
  -- delivery of the endpoint, or left it with no more of them than the cap.
  pub dispatch-Capped :
      (event_oid : ℕ) (event_type : String) (e drift : ℕ) (ts : List Target) (throttle : Throttle)
      (endpoints : ed.State)
      → rows_for e ts ≤ 1
      → Fresh dd ts deliveries
      → IsNear e drift deliveries endpoints
      → (let after =
            (dispatch dd ed max_pending recount_interval event_oid event_type ts throttle
              (deliveries, endpoints)) in
          IsNear e drift (after.1) (after.2)
          × ((count_pending dd e (after.1) ≡ count_pending dd e deliveries)
              ⊎ (count_pending dd e (after.1) ≤ max_pending)))
  unfolding dispatch
  dispatch-Capped event_oid event_type e drift ts throttle endpoints once fresh
        (p, stored, (low, high)) =
      let rows =
        (reserve_all dd ed max_pending recount_interval ts deliveries (throttle, endpoints)).0 in
      let ((p', stored', (low', high')), room) =
        reserve_all-Within dd ed max_pending recount_interval e drift deliveries ts
          (throttle, endpoints) once ((p, stored, (omega arith, omega arith)), inl refl) in
      let grown =
        count-insert_many_rows dd event_oid event_type e rows deliveries
          (reserve_all-Fresh ts (throttle, endpoints) fresh) in
      (
        (p', stored', (omega (arith, grown, low'), omega (arith, grown, high'))),
        elim room [
          | inl none_new ↦ inl (omega (arith, grown, none_new))
          | inr below ↦ inr (omega (arith, grown, below))
        ],
      )
