-- ===== src/Webhooks/Balance.antt =====
-- The pending slots: an endpoint's counter against the deliveries that hold a slot, and a terminal
-- write of services/webhooks/executor.py (`_finish`, `_fail`).
use spoo.Base.{
  ℕ, ◌+◌, ◌<◌, String, ◌≡◌, ◌∙◌, ap, refl, sym, subst, Bool, true, false, some, inl, inr, arith,
  Bool-cases, ℕ-cases, ltb,
}
use spoo.Base.Collection.{
  Collection, Holds, Holds-find_and_update, find_and_update, find_and_update-match, tally,
  get-find_and_update_ne, count-neutral,
}
use spoo.Webhooks.{
  WebhookEndpointDoc, WebhookDeliveryDoc, DeliveryAttempt, DeliveryStatus, failed, is_pending,
}
use spoo.Webhooks.Endpoints.{release_pending, released}
use spoo.Webhooks.Deliveries.{
  record_attempt_and_finish, mark_failed, holds_slot, was_pending, finished, no_call,
}
use spoo.Webhooks.Executor.{World, settle, finish, fail}

module _ (dd : Collection ℕ WebhookDeliveryDoc) (ed : Collection ℕ WebhookEndpointDoc) where
  -- The endpoint's counter is the number of deliveries that hold a slot, and `drift` more.
  abbrev pub Balanced : ℕ → ℕ → World dd ed → Type 0
  Balanced e drift s = Holds ed (λ p. p.pending_count ≡ dd.count (holds_slot e) s.0 + drift) s.1 e

  -- The row that the executor holds is one of a stored delivery.
  abbrev pub IsStored : ℕ → WebhookDeliveryDoc → World dd ed → Type 0
  IsStored id row s =
      Holds dd (λ d. (d.endpoint_id ≡ row.endpoint_id) × (d.is_test ≡ row.is_test)) s.0 id

  module _ (e drift : ℕ) where
    pub Balanced-deliveries :
        (id : ℕ) (q : WebhookDeliveryDoc → Bool) (f : WebhookDeliveryDoc → WebhookDeliveryDoc)
        (s : World dd ed)
        → ((d : WebhookDeliveryDoc) → holds_slot e (f d) ≡ holds_slot e d)
        → Balanced e drift s
        → Balanced e drift ((find_and_update dd id q f s.0).1, s.1)
    Balanced-deliveries id q f s same (p, here, b) =
        (p, here, b ∙ ap (λ n. n + drift) (sym (count-neutral dd (holds_slot e) id q f s.0 same)))

    pub Balanced-endpoints :
        (id : ℕ) (g : WebhookEndpointDoc → WebhookEndpointDoc) (s : World dd ed)
        → ((p : WebhookEndpointDoc) → (g p).pending_count ≡ p.pending_count)
        → Balanced e drift s
        → Balanced e drift (s.0, (find_and_update ed id (λ p. true) g s.1).1)
    Balanced-endpoints id g s same h =
        Holds-find_and_update ed (λ p. p.pending_count ≡ dd.count (holds_slot e) s.0 + drift) id e
          (λ p. true) g s.1 (ℕ-cases id e) (λ p b m. same p ∙ b) h

    module _ (id : ℕ) (row d : WebhookDeliveryDoc) (a : DeliveryAttempt) (status : DeliveryStatus)
        (now : ℕ) (s : World dd ed) where
      -- The deliveries after a terminal write on the stored document `d`.
      abbrev pub written : dd.State
      written = dd.put id (finished a status now d) s.0

      pub finish-eq :
          dd.get s.0 id ≡ some d
          → finish dd ed id row a status now s ≡ settle dd ed row (is_pending d.status, written) s.1
      unfolding finish record_attempt_and_finish
      finish-eq stored =
          ap (λ r. settle dd ed row (was_pending dd r.0, r.1) s.1)
            (find_and_update-match dd id (λ d. true) (finished a status now) s.0 d stored refl)

      count-written :
          is_pending status ≡ false
          → dd.get s.0 id ≡ some d
          → dd.count (holds_slot e) written + tally (holds_slot e) (some d)
            ≡ dd.count (holds_slot e) s.0
      count-written terminal stored =
          let gone : tally (holds_slot e) (some (finished a status now d)) ≡ 0 =
            ground (arith, terminal) in
          omega (
            arith,
            dd.count-put (holds_slot e) id (finished a status now d) s.0,
            ap (tally (holds_slot e)) stored,
            gone,
          )

      settle-Balanced :
          is_pending status ≡ false
          → dd.get s.0 id ≡ some d
          → d.endpoint_id ≡ row.endpoint_id
          → d.is_test ≡ row.is_test
          → Balanced e drift s
          → Balanced e drift (settle dd ed row (is_pending d.status, written) s.1)
      unfolding release_pending
      settle-Balanced terminal stored same_endpoint same_test (p, here, b) =
          elim (Bool-cases (is_pending d.status)) [
            | inr over ↦ rw over (p, here, unmoved (ground (arith, over)))
            | inl open_ ↦ elim (Bool-cases row.is_test) [
              | inl test ↦ rw (open_, test) (p, here, unmoved (ground (arith, same_test, test)))
              | inr real ↦ elim (ℕ-cases row.endpoint_id e) [
                | inr other ↦
                    rw (open_, real)
                      (
                        p,
                        get-find_and_update_ne ed row.endpoint_id e (λ p. ltb 0 p.pending_count)
                              released s.1 other
                            ∙ here,
                        unmoved (ground (arith, same_endpoint, other)),
                      )
                | inl own ↦ rw (open_, real) (freed own open_ real)
              ]
            ]
          ]
        where
          unmoved :
              tally (holds_slot e) (some d) ≡ 0
              → p.pending_count ≡ dd.count (holds_slot e) written + drift
          unmoved none_held = omega (arith, count-written terminal stored, b, none_held)

          -- The row held a slot of this endpoint: the counter is positive, and falls with the count.
          freed :
              row.endpoint_id ≡ e
              → is_pending d.status ≡ true
              → row.is_test ≡ false
              → Holds ed
                  (λ x. x.pending_count ≡ dd.count (holds_slot e) written + drift)
                  (find_and_update ed row.endpoint_id (λ x. ltb 0 x.pending_count) released s.1).1
                  e
          freed own open_ real =
              let held : tally (holds_slot e) (some d) ≡ 1 =
                ground (arith, same_endpoint, own, open_, same_test, real) in
              let less = count-written terminal stored in
              let there : ed.get s.1 row.endpoint_id ≡ some p = ap (ed.get s.1) own ∙ here in
              let positive : 0 < p.pending_count = omega (arith, less, held, b) in
              let m =
                find_and_update-match ed row.endpoint_id (λ x. ltb 0 x.pending_count) released s.1 p
                  there (ground (arith, positive)) in
              (
                released p,
                subst
                    (λ i.
                      ed.get
                        (find_and_update ed row.endpoint_id (λ x. ltb 0 x.pending_count) released
                          s.1).1
                        i
                      ≡ some (released p))
                    own
                    (ap (λ r. ed.get (r.1) row.endpoint_id) m
                      ∙ ed.get-put_self row.endpoint_id (released p) s.1),
                omega (arith, less, held, b),
              )

    -- A terminal write and the release of the slot that goes with it.
    pub finish-Balanced :
        (id : ℕ) (row : WebhookDeliveryDoc) (a : DeliveryAttempt) (status : DeliveryStatus)
        (now : ℕ) (s : World dd ed)
        → is_pending status ≡ false
        → IsStored id row s
        → Balanced e drift s
        → Balanced e drift (finish dd ed id row a status now s)
    finish-Balanced id row a status now s terminal (d, stored, (same_endpoint, same_test)) h =
        subst (Balanced e drift) (sym (finish-eq id row d a status now s stored))
          (settle-Balanced id row d a status now s terminal stored same_endpoint same_test h)

    pub fail-Balanced :
        (id : ℕ) (row : WebhookDeliveryDoc) (reason : String) (now : ℕ) (s : World dd ed)
        → IsStored id row s
        → Balanced e drift s
        → Balanced e drift (fail dd ed id row reason now s)
    unfolding fail mark_failed finish record_attempt_and_finish
    fail-Balanced id row reason now s stored h =
        finish-Balanced id row (no_call reason now) failed now s refl stored h
