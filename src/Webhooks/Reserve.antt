-- ===== src/Webhooks/Reserve.antt =====
-- services/webhooks/dispatcher.py, `_reserve_slot`: what it does to one endpoint `e`.
use spoo.Base.{
  ℕ, ◌+◌, ◌≤◌, ◌≡◌, ◌≢◌, ◌⊎◌, ◌∙◌, refl, Bool, true, false, some, inl, inr, arith, Bool-cases, ltb,
  leb, if◌then◌else◌, if_keeps,
}
use spoo.Base.Collection.{
  Collection, Holds, find_and_update-match, find_and_update-miss, get-find_and_update_ne,
}
use spoo.Webhooks.{WebhookEndpointDoc, WebhookDeliveryDoc}
use spoo.Webhooks.Deliveries.{count_pending}
use spoo.Webhooks.Endpoints.{reserve_pending, set_pending_count, reserved}
use spoo.Webhooks.Dispatcher.{Reserved, reserve_recounted, recount, reserve_slot}

module _ (dd : Collection ℕ WebhookDeliveryDoc) (ed : Collection ℕ WebhookEndpointDoc)
    (max_pending recount_interval e drift : ℕ) (deliveries : dd.State) where
  abbrev pub counted : ℕ
  counted = count_pending dd e deliveries

  -- `k` slots of the endpoint are reserved for rows that are not inserted yet, under the cap.
  abbrev pub Ready : ℕ → ed.State → Type 0
  Ready k endpoints =
      Holds ed (λ p. (counted + k ≤ p.pending_count) × (p.pending_count ≤ counted + drift + k))
        endpoints e
      × ((k ≡ 0) ⊎ (counted + k ≤ max_pending))

  abbrev pub ones : Bool → ℕ
  ones b = if b then 1 else 0

  abbrev pub After : Bool × Reserved dd ed max_pending recount_interval → Type 0
  After r = Ready (ones r.0) r.1.1

  module _ (endpoints : ed.State) (p : WebhookEndpointDoc)
      (stored : ed.get endpoints e ≡ some p) where
    reserve-free :
        ltb p.pending_count max_pending ≡ true
        → reserve_pending ed e max_pending endpoints ≡ (true, ed.put e (reserved p) endpoints)
    unfolding reserve_pending
    reserve-free free = ground (
      arith,
      find_and_update-match ed e (λ x. ltb x.pending_count max_pending) reserved endpoints p stored
          free,
    )

    reserve-full :
        ltb p.pending_count max_pending ≡ false
        → reserve_pending ed e max_pending endpoints ≡ (false, endpoints)
    unfolding reserve_pending
    reserve-full full = ground (
      arith,
      find_and_update-miss ed e (λ x. ltb x.pending_count max_pending) reserved endpoints p stored
          full,
    )

    set-stored :
        (n : ℕ)
        → set_pending_count ed e n endpoints
          ≡ (p.pending_count, ed.put e (record p { pending_count = n }) endpoints)
    unfolding set_pending_count
    set-stored n = ground (
      arith,
      find_and_update-match ed e (λ x. true) (λ x. record x { pending_count = n }) endpoints p
          stored refl,
    )

    -- A counter between the real count and the drift gives a slot, if it is under the cap.
    free-Ready :
        ltb p.pending_count max_pending ≡ true
        → counted ≤ p.pending_count
        → p.pending_count ≤ counted + drift
        → Ready 1 (ed.put e (reserved p) endpoints)
    free-Ready free low high = (
      (reserved p, ed.get-put_self e (reserved p) endpoints, (omega arith, omega arith)),
      inr (ground (arith, free, low)),
    )

  recount-Ready :
      (endpoints : ed.State)
      → Ready 0 endpoints
      → Ready
          (ones (recount dd ed max_pending recount_interval e deliveries endpoints).0)
          (recount dd ed max_pending recount_interval e deliveries endpoints).1
  unfolding recount reserve_recounted
  recount-Ready endpoints ((p, stored, bounds), room) =
      let q : WebhookEndpointDoc = record p { pending_count = counted } in
      let repaired = ed.put e q endpoints in
      let now_ = ed.get-put_self e q endpoints in
      rw (set-stored endpoints p stored counted) (
        if_keeps (λ (r : Bool × ed.State). Ready (ones r.0) r.1) (leb max_pending counted) _ _
          (λ full. ((q, now_, (omega arith, omega arith)), inl refl))
          (λ less.
            let free : ltb counted max_pending ≡ true = ground (arith, less) in
            rw (reserve-free repaired q now_ free)
              (free-Ready repaired q now_ free (omega arith) (omega arith))))

  pub reserve_slot-Ready :
      (now : ℕ) (s : Reserved dd ed max_pending recount_interval)
      → Ready 0 s.1
      → Ready
          (ones (reserve_slot dd ed max_pending recount_interval e now deliveries s).0)
          (reserve_slot dd ed max_pending recount_interval e now deliveries s).1.1
  unfolding reserve_slot
  reserve_slot-Ready now (throttle, endpoints) ((p, stored, (low, high)), room) =
      elim (Bool-cases (ltb p.pending_count max_pending)) [
        | inl free ↦
            rw (reserve-free endpoints p stored free)
              (free-Ready endpoints p stored free (omega arith) (omega arith))
        | inr full ↦ rw (reserve-full endpoints p stored full) (
            if_keeps After (ltb now (throttle e)) _ _
              (λ throttled. ((p, stored, (low, high)), room))
              (λ passed. recount-Ready endpoints ((p, stored, (low, high)), room)))
      ]

  -- The turn of another endpoint.
  module _ (id : ℕ) (other : id ≢ e) (endpoints : ed.State) where
    reserve_pending_ne :
        ed.get (reserve_pending ed id max_pending endpoints).1 e ≡ ed.get endpoints e
    unfolding reserve_pending
    reserve_pending_ne =
        get-find_and_update_ne ed id e (λ p. ltb p.pending_count max_pending) reserved endpoints
          other

    set_pending_count_ne :
        (n : ℕ) → ed.get (set_pending_count ed id n endpoints).1 e ≡ ed.get endpoints e
    unfolding set_pending_count
    set_pending_count_ne n =
        get-find_and_update_ne ed id e (λ p. true) (λ p. record p { pending_count = n }) endpoints
          other

  recount_ne :
      (id : ℕ) (endpoints : ed.State)
      → id ≢ e
      → ed.get (recount dd ed max_pending recount_interval id deliveries endpoints).1 e
        ≡ ed.get endpoints e
  unfolding recount reserve_recounted
  recount_ne id endpoints other =
      let n = count_pending dd id deliveries in
      let repaired = (set_pending_count ed id n endpoints).1 in
      let same = set_pending_count_ne id other endpoints n in
      if_keeps (λ (r : Bool × ed.State). ed.get r.1 e ≡ ed.get endpoints e) (leb max_pending n) _ _
        (λ full. same) (λ free. reserve_pending_ne id other repaired ∙ same)

  pub reserve_slot_ne :
      (id now : ℕ) (s : Reserved dd ed max_pending recount_interval)
      → id ≢ e
      → ed.get (reserve_slot dd ed max_pending recount_interval id now deliveries s).1.1 e
        ≡ ed.get s.1 e
  unfolding reserve_slot
  reserve_slot_ne id now (throttle, endpoints) other =
      let P : Bool × Reserved dd ed max_pending recount_interval → Type 0 =
        λ r. ed.get r.1.1 e ≡ ed.get endpoints e in
      let taken = (reserve_pending ed id max_pending endpoints).1 in
      let same = reserve_pending_ne id other endpoints in
      if_keeps P (reserve_pending ed id max_pending endpoints).0 _ _ (λ free. same)
        (λ full.
          if_keeps P (ltb now (throttle id)) _ _ (λ throttled. same)
            (λ passed. recount_ne id taken other ∙ same))
