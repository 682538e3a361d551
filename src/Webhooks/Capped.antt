-- ===== src/Webhooks/Capped.antt =====
-- The pending cap over the loop of services/webhooks/dispatcher.py, for one endpoint `e`.
use spoo.Base.{
  ℕ, ◌+◌, ◌≤◌, ◌≡◌, ◌≢◌, ◌∙◌, refl, sym, subst, Bool, true, false, List, [], ◌∷◌, ◌++◌, inl, inr,
  arith, ℕ-cases, ◌==◌, if◌then◌else◌,
}
use spoo.Base.Collection.{Collection, Holds-find_and_update}
use spoo.Webhooks.{WebhookEndpointDoc, WebhookDeliveryDoc}
use spoo.Webhooks.Deliveries.{count_pending}
use spoo.Webhooks.Endpoints.{increment_dropped}
use spoo.Webhooks.Dispatcher.{Target, Reserved, reserve_slot, queue, reserve_all}
use spoo.Webhooks.Reserve.{Ready, After, reserve_slot-Ready, reserve_slot_ne}

-- The rows of the endpoint.
abbrev pub rows_for : ℕ → List Target → ℕ
rows_for e [] = 0
rows_for e (t ∷ ts) = (if t.endpoint_id == e then 1 else 0) + rows_for e ts

rows_for-append :
    (e : ℕ) (xs ys : List Target) → rows_for e (xs ++ ys) ≡ rows_for e xs + rows_for e ys
rows_for-append e [] ys = omega arith
rows_for-append e (x ∷ xs) ys = omega (arith, rows_for-append e xs ys)

module _ (dd : Collection ℕ WebhookDeliveryDoc) (ed : Collection ℕ WebhookEndpointDoc)
    (max_pending recount_interval e drift : ℕ) (deliveries : dd.State) where
  abbrev pub Within : ℕ → ed.State → Type 0
  Within k endpoints = Ready dd ed max_pending recount_interval e drift deliveries k endpoints

  abbrev turn :
      Target
      → Reserved dd ed max_pending recount_interval
      → List Target × Reserved dd ed max_pending recount_interval
  turn t s =
      queue dd ed max_pending recount_interval t
        (reserve_slot dd ed max_pending recount_interval t.endpoint_id t.monotonic deliveries s)

  dropped-Within :
      (id k : ℕ) (endpoints : ed.State)
      → Within k endpoints
      → Within k (increment_dropped ed id endpoints)
  unfolding increment_dropped
  dropped-Within id k endpoints (h, room) = (
    Holds-find_and_update ed
        (λ p.
          (count_pending dd e deliveries + k ≤ p.pending_count)
          × (p.pending_count ≤ count_pending dd e deliveries + drift + k))
        id e (λ p. true) (λ p. record p { dropped_count = p.dropped_count + 1 }) endpoints
        (ℕ-cases id e) (λ p b m. b) h,
    room,
  )

  -- The endpoint's own turn.
  queue-Within :
      (t : Target) (r : Bool × Reserved dd ed max_pending recount_interval)
      → t.endpoint_id ≡ e
      → After dd ed max_pending recount_interval e drift deliveries r
      → Within
          (rows_for e (queue dd ed max_pending recount_interval t r).0)
          (queue dd ed max_pending recount_interval t r).1.1
  unfolding queue
  queue-Within t (true, (throttle, endpoints)) own h =
      let one : 1 ≡ rows_for e (t ∷ []) = ground (arith, own) in
      subst (λ k. Within k endpoints) one h
  queue-Within t (false, (throttle, endpoints)) own h = dropped-Within t.endpoint_id 0 endpoints h

  own-Within :
      (t : Target) (s : Reserved dd ed max_pending recount_interval)
      → t.endpoint_id ≡ e
      → Within 0 s.1
      → Within (rows_for e (turn t s).0) (turn t s).1.1
  own-Within t s own ready =
      queue-Within t
        (reserve_slot dd ed max_pending recount_interval t.endpoint_id t.monotonic deliveries s) own
        (subst
          (λ i.
            After dd ed max_pending recount_interval e drift deliveries
              (reserve_slot dd ed max_pending recount_interval i t.monotonic deliveries s))
          (sym own)
          (reserve_slot-Ready dd ed max_pending recount_interval e drift deliveries t.monotonic s
            ready))

  queue-other :
      (t : Target) (k : ℕ) (r : Bool × Reserved dd ed max_pending recount_interval)
      → t.endpoint_id ≢ e
      → Within k r.1.1
      → (rows_for e (queue dd ed max_pending recount_interval t r).0 ≡ 0)
        × Within k (queue dd ed max_pending recount_interval t r).1.1
  unfolding queue
  queue-other t k (true, (throttle, endpoints)) other h = (ground (arith, other), h)
  queue-other t k (false, (throttle, endpoints)) other h =
      (refl, dropped-Within t.endpoint_id k endpoints h)

  other-Within :
      (t : Target) (k : ℕ) (s : Reserved dd ed max_pending recount_interval)
      → t.endpoint_id ≢ e
      → Within k s.1
      → (rows_for e (turn t s).0 ≡ 0) × Within k (turn t s).1.1
  other-Within t k s other ((p, stored, bounds), room) =
      queue-other t k
        (reserve_slot dd ed max_pending recount_interval t.endpoint_id t.monotonic deliveries s)
        other
        (
          (
            p,
            reserve_slot_ne dd ed max_pending recount_interval e drift deliveries t.endpoint_id
                  t.monotonic s other
                ∙ stored,
            bounds,
          ),
          room,
        )

  abbrev looped :
      List Target
      → Reserved dd ed max_pending recount_interval
      → List Target × Reserved dd ed max_pending recount_interval
  looped ts s = reserve_all dd ed max_pending recount_interval ts deliveries s

  others-Within :
      (ts : List Target) (k : ℕ) (s : Reserved dd ed max_pending recount_interval)
      → rows_for e ts ≡ 0
      → Within k s.1
      → (rows_for e (looped ts s).0 ≡ 0) × Within k (looped ts s).1.1
  unfolding reserve_all
  others-Within [] k s absent h = (refl, h)
  others-Within (t ∷ ts) k s absent h =
      let (none_first, h') = other-Within t k s (λ own. ground (arith, absent, own)) h in
      let (none_later, h'') = others-Within ts k (turn t s).1 (omega (arith, absent)) h' in
      (
        rows_for-append e (turn t s).0 (looped ts (turn t s).1).0
            ∙ omega (arith, none_first, none_later),
        h'',
      )

  -- The endpoint stands at most once among the matched ones.
  pub reserve_all-Within :
      (ts : List Target) (s : Reserved dd ed max_pending recount_interval)
      → rows_for e ts ≤ 1
      → Within 0 s.1
      → Within (rows_for e (looped ts s).0) (looped ts s).1.1
  unfolding reserve_all
  reserve_all-Within [] s once h = h
  reserve_all-Within (t ∷ ts) s once h = elim (ℕ-cases t.endpoint_id e) [
    | inl own ↦
        let first = own-Within t s own h in
        let k = rows_for e (turn t s).0 in
        let (none_later, h') = others-Within ts k (turn t s).1 (ground (arith, once, own)) first in
        let total : k ≡ rows_for e (looped (t ∷ ts) s).0 =
          omega (arith, none_later, rows_for-append e (turn t s).0 (looped ts (turn t s).1).0) in
        subst (λ n. Within n (looped (t ∷ ts) s).1.1) total h'
    | inr other ↦
        let (none_first, h') = other-Within t 0 s other h in
        let later = reserve_all-Within ts (turn t s).1 (omega (arith, once)) h' in
        let total : rows_for e (looped ts (turn t s).1).0 ≡ rows_for e (looped (t ∷ ts) s).0 =
          omega (arith, none_first, rows_for-append e (turn t s).0 (looped ts (turn t s).1).0) in
        subst (λ n. Within n (looped (t ∷ ts) s).1.1) total later
  ]
