-- ===== src/Webhooks/Concurrency.antt =====
-- The bounds of the claim loop of services/webhooks/executor.py: all tasks, and those of one endpoint.
use spoo.Base.{
  ℕ, ◌+◌, ◌≤◌, ◌<◌, ◌≡◌, ◌∙◌, ap, refl, sym, subst, Bool, true, false, Option, none, some, List, [],
  ◌∷◌, ◌++◌, inl, inr, arith, leb, ◌==◌, Bool-cases, Option-cases,
}
use spoo.Base.Collection.{Collection, ascending, find_first_and_update-some}
use spoo.Webhooks.{WebhookDeliveryDoc}
use spoo.Webhooks.Deliveries.{claim_due, claimable, due_time}
use spoo.Webhooks.Claims.{
  occurrences, Task, ids, Loop, ask, answered, answer, Step, asks, gets, claim_fails, attempt_ends,
  is_popped, elsewhere, Reaches, at_start, after,
}
use spoo.Webhooks.Saturated.{
  has, has-saturated, working, working_for, working-append, occurrences-append,
  working_for-occurrences,
}

-- A claim in progress holds a slot.
abbrev waiting : Option (List ℕ) → ℕ
waiting none = 0
waiting (some ex) = 1

module _ (db : Collection ℕ WebhookDeliveryDoc) (concurrency per_endpoint lease : ℕ)
    (positive : 1 ≤ per_endpoint) where
  -- Every slot is free, taken by a claim in progress, or taken by a task; an endpoint is in flight
  -- `per_endpoint` times at most; and the claim in progress excludes those that are there as often.
  pub record IsBounded (s : Loop db) : Type 0 where
    pub slots : s.slots + working s.in_flight + waiting s.asked ≡ concurrency
    pub below : (e : ℕ) → occurrences e (ids s.in_flight) ≤ per_endpoint
    pub excluded :
        (ex : List ℕ) (e : ℕ)
        → s.asked ≡ some ex
        → per_endpoint ≤ occurrences e (ids s.in_flight)
        → has e ex ≡ true

  ask-IsBounded :
      (s : Loop db) → 0 < s.slots → s.asked ≡ none → IsBounded s → IsBounded (ask db per_endpoint s)
  unfolding ask
  ask-IsBounded s free idle b = record {
    slots = omega (arith, free, b.slots, ap waiting idle);
    below = b.below;
    excluded = λ ex e same full.
        ground (arith, same, has-saturated per_endpoint e (ids s.in_flight) positive full);
  }

  -- A claimed row is not of an excluded endpoint.
  claimed-not_excluded :
      (ex : List ℕ) (now id : ℕ) (row : WebhookDeliveryDoc) (deliveries : db.State)
      → (claim_due db lease ex now deliveries).0 ≡ some (id, row)
      → has row.endpoint_id ex ≡ false
  unfolding claim_due
  claimed-not_excluded ex now id row deliveries h =
      let c =
        find_first_and_update-some db ascending (λ k d. claimable ex now d) due_time
          (λ d. record d { claimed_until = some (now + lease) }) deliveries id row h in
      ground (arith, c.matches, c.result)

  idle-IsBounded :
      (s : Loop db) (ex : List ℕ) (deliveries : db.State)
      → s.asked ≡ some ex
      → IsBounded s
      → IsBounded (answered db none deliveries s)
  unfolding answered
  idle-IsBounded s ex deliveries asked b = record {
    slots = omega (arith, b.slots, ap waiting asked);
    below = b.below;
    excluded = λ x e same full. absurd (ground (arith, same));
  }

  start-IsBounded :
      (s : Loop db) (ex : List ℕ) (id : ℕ) (row : WebhookDeliveryDoc) (deliveries : db.State)
      → s.asked ≡ some ex
      → has row.endpoint_id ex ≡ false
      → IsBounded s
      → IsBounded (answered db (some (id, row)) deliveries s)
  unfolding answered
  start-IsBounded s ex id row deliveries asked out b = record {
    slots = omega (
      arith,
      b.slots,
      ap waiting asked,
      working-append s.in_flight (record { endpoint_id = row.endpoint_id; running = true } ∷ []),
    );
    below = λ e. elim (Bool-cases (row.endpoint_id == e)) [
      | inr other ↦ ground (
        arith,
        b.below e,
        occurrences-append e s.in_flight
            (record { endpoint_id = row.endpoint_id; running = true } ∷ []),
      )
      | inl own ↦ room e (ground (arith, own))
    ];
    excluded = λ x e same full. absurd (ground (arith, same));
  }
    where
      room :
          (e : ℕ)
          → row.endpoint_id ≡ e
          → occurrences e
              (ids (s.in_flight ++ record { endpoint_id = row.endpoint_id; running = true } ∷ []))
            ≤ per_endpoint
      room e own =
          let free : has e ex ≡ false = subst (λ i. has i ex ≡ false) own out in
          elim (Bool-cases (leb per_endpoint (occurrences e (ids s.in_flight)))) [
            | inl full ↦ absurd (ground (arith, full, free, b.excluded ex e asked))
            | inr less ↦ ground (
              arith,
              less,
              occurrences-append e s.in_flight
                  (record { endpoint_id = row.endpoint_id; running = true } ∷ []),
            )
          ]

  -- The same tasks at every endpoint, or fewer.
  IsBounded-fewer :
      (s t : Loop db)
      → t.asked ≡ s.asked
      → t.slots + working t.in_flight ≡ s.slots + working s.in_flight
      → ((e : ℕ) → occurrences e (ids t.in_flight) ≤ occurrences e (ids s.in_flight))
      → IsBounded s
      → IsBounded t
  IsBounded-fewer s t same balance fewer b = record {
    slots = omega (arith, b.slots, balance, ap waiting same);
    below = λ e. omega (arith, b.below e, fewer e);
    excluded = λ ex e asked full. b.excluded ex e (sym same ∙ asked) (omega (arith, fewer e, full));
  }

  Step-IsBounded : (s t : Loop db) → Step db per_endpoint lease s t → IsBounded s → IsBounded t
  unfolding answer
  Step-IsBounded s t (asks free idle eq) b = subst IsBounded (sym eq) (ask-IsBounded s free idle b)
  Step-IsBounded s t (claim_fails ex asked eq) b =
      subst IsBounded (sym eq) (idle-IsBounded s ex s.deliveries asked b)
  Step-IsBounded s t (gets ex now asked eq) b =
      let result = claim_due db lease ex now s.deliveries in
      subst IsBounded (sym eq) (elim (Option-cases (result.0)) [
        | inl none_due ↦ rw none_due (idle-IsBounded s ex (result.1) asked b)
        | inr ((id, row), found) ↦ rw found (
            start-IsBounded s ex id row (result.1) asked
              (claimed-not_excluded ex now id row s.deliveries found) b)
      ])
  Step-IsBounded s t (attempt_ends xs ys e there eq) b =
      let task : Bool → Task = λ r. record { endpoint_id = e; running = r } in
      subst IsBounded (sym eq) (
        IsBounded-fewer s (record s { slots = s.slots + 1; in_flight = xs ++ task false ∷ ys }) refl
          (omega (
            arith,
            ap working there,
            working-append xs (task true ∷ ys),
            working-append xs (task false ∷ ys),
          ))
          (λ i. omega (
            arith,
            ap (λ l. occurrences i (ids l)) there,
            occurrences-append i xs (task true ∷ ys),
            occurrences-append i xs (task false ∷ ys),
          ))
          b)
  Step-IsBounded s t (is_popped xs ys e there eq) b =
      let task : Task = record { endpoint_id = e; running = false } in
      subst IsBounded (sym eq) (
        IsBounded-fewer s (record s { in_flight = xs ++ ys }) refl
          (omega (arith, ap working there, working-append xs (task ∷ ys), working-append xs ys))
          (λ i. omega (
            arith,
            ap (λ l. occurrences i (ids l)) there,
            occurrences-append i xs (task ∷ ys),
            occurrences-append i xs ys,
          ))
          b)
  Step-IsBounded s t (elsewhere deliveries eq) b =
      subst IsBounded (sym eq)
        (IsBounded-fewer s (record s { deliveries = deliveries }) refl refl (λ i. omega arith) b)

  Reaches-IsBounded :
      (s t : Loop db) → Reaches db per_endpoint lease s t → IsBounded s → IsBounded t
  Reaches-IsBounded s _ at_start b = b
  Reaches-IsBounded s _ (after {t} {u} r step) b =
      Step-IsBounded t u step (Reaches-IsBounded s t r b)

-- From a start with every slot free and nothing in flight, and with a bound of one or more for an
-- endpoint, the loop never runs more attempts than it has slots, nor more than the bound at one
-- endpoint, whatever the claims return, in whatever order attempts end and tasks leave the
-- dictionary, and whatever the rest of the system does to the deliveries.
pub Reaches-working :
    (db : Collection ℕ WebhookDeliveryDoc) (concurrency per_endpoint lease e : ℕ)
    (deliveries : db.State) (t : Loop db)
    → 1 ≤ per_endpoint
    → Reaches db per_endpoint lease
        (record { slots = concurrency; in_flight = []; asked = none; deliveries = deliveries })
        t
    → (working t.in_flight ≤ concurrency) × (working_for e t.in_flight ≤ per_endpoint)
Reaches-working db concurrency per_endpoint lease e deliveries t positive r =
    let b =
      Reaches-IsBounded db concurrency per_endpoint lease positive
        (record { slots = concurrency; in_flight = []; asked = none; deliveries = deliveries }) t r
        (record {
          slots = omega arith;
          below = λ i. omega arith;
          excluded = λ ex i asked full. absurd (omega (arith, positive, full));
        }) in
    (omega (arith, b.slots), omega (arith, b.below e, working_for-occurrences e t.in_flight))
