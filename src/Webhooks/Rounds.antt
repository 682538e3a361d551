-- ===== src/Webhooks/Rounds.antt =====
-- The retry ladder of services/webhooks/executor.py: attempts until the end.
use spoo.Base.{
  ℕ, suc, ◌+◌, ◌≤◌, ◌<◌, ◌≡◌, ◌⊎◌, refl, subst, true, false, Option, none, some, List, [], ◌∷◌, inl,
  inr, arith, Bool-cases, if◌then◌else◌, length, All,
}
use spoo.Base.Collection.{Collection, Holds}
use spoo.Webhooks.{WebhookEndpointDoc, WebhookDeliveryDoc, is_pending}
use spoo.Webhooks.Executor.{World, attempt, Surroundings}
use spoo.Webhooks.Ladder.{is_held, Progress, over, held, retried, attempt-Progress}

module _ (dd : Collection ℕ WebhookDeliveryDoc) (ed : Collection ℕ WebhookEndpointDoc) where
  -- A round of the loop for one delivery: the endpoints as the rest of the system left them, and
  -- what the attempt meets.
  pub record Round : Type 0 where
    pub endpoints : ed.State
    pub surroundings : Surroundings

  -- Only a pending delivery is claimed.
  abbrev pub round : Option WebhookDeliveryDoc → ℕ → ℕ → Round → World dd ed → World dd ed
  round none max_consecutive id r s = (s.0, r.endpoints)
  round (some row) max_consecutive id r s =
      if is_pending row.status
      then attempt dd ed max_consecutive id row r.surroundings (s.0, r.endpoints)
      else (s.0, r.endpoints)

  unfoldable pub rounds : ℕ → ℕ → List Round → World dd ed → World dd ed
  rounds max_consecutive id [] s = s
  rounds max_consecutive id (r ∷ rs) s =
      rounds max_consecutive id rs (round (dd.get s.0 id) max_consecutive id r s)

  -- No endpoint is paused, and the answer is not 429.
  abbrev pub IsFirm : Round → Type 0
  IsFirm r = (e : ℕ) → is_held (ed.get r.endpoints e) r.surroundings ≡ false

  -- Terminal, or pending with `n` attempts at most before the end.
  abbrev Within : ℕ → WebhookDeliveryDoc → Type 0
  Within n d =
      (is_pending d.status ≡ false)
      ⊎ ((is_pending d.status ≡ true) × (d.attempt_count < 7) × (7 ≤ d.attempt_count + n))

  step-Within :
      (n now : ℕ) (row d : WebhookDeliveryDoc)
      → 7 ≤ row.attempt_count + suc n
      → Progress false now row d
      → Within n d
  step-Within n now row d enough (over t) = inl t
  step-Within n now row d enough (held delay back high p same due) = absurd (ground (arith, back))
  step-Within n now row d enough (retried p test more short due) =
      inr (p, short, omega (arith, more, enough))

  round-Within :
      (max_consecutive id n : ℕ) (r : Round) (s : World dd ed)
      → IsFirm r
      → Holds dd (Within (suc n)) s.0 id
      → Holds dd (Within n) (round (dd.get s.0 id) max_consecutive id r s).0 id
  round-Within max_consecutive id n r s firm (d, stored, inl t) = rw (stored, t) (d, stored, inl t)
  round-Within max_consecutive id n r s firm (d, stored, inr (p, short, enough)) =
      let s' : World dd ed = (s.0, r.endpoints) in
      let (d', stored', outcome) =
        attempt-Progress dd ed max_consecutive id d r.surroundings s'
          (d, stored, (p, refl, refl)) in
      rw (stored, p)
        (
          d',
          stored',
          step-Within n r.surroundings.now d d' enough
              (subst (λ b. Progress b r.surroundings.now d d') (firm d.endpoint_id) outcome),
        )

  rounds-Within :
      (max_consecutive id : ℕ) (rs : List Round) (s : World dd ed)
      → All IsFirm rs
      → Holds dd (Within (length rs)) s.0 id
      → Holds dd (Within 0) (rounds max_consecutive id rs s).0 id
  unfolding rounds
  rounds-Within max_consecutive id [] s firm h = h
  rounds-Within max_consecutive id (r ∷ rs) s (firm, later) h =
      rounds-Within max_consecutive id rs (round (dd.get s.0 id) max_consecutive id r s) later
        (round-Within max_consecutive id (length rs) r s firm h)

  -- The ladder ends. A stored delivery with fewer than seven attempts, attempted as long as it is
  -- pending, is terminal after as many rounds as it lacks to seven, whatever the rest of the system
  -- does to the endpoints between the rounds, provided that in these rounds no endpoint is paused
  -- and no answer is 429.
  pub rounds-IsOver :
      (max_consecutive id : ℕ) (rs : List Round) (d : WebhookDeliveryDoc) (s : World dd ed)
      → dd.get s.0 id ≡ some d
      → d.attempt_count < 7
      → 7 ≤ d.attempt_count + length rs
      → All IsFirm rs
      → Holds dd (λ e. is_pending e.status ≡ false) (rounds max_consecutive id rs s).0 id
  rounds-IsOver max_consecutive id rs d s stored short enough firm =
      let (d', stored', h) = rounds-Within max_consecutive id rs s firm (
        d,
        stored,
        elim (Bool-cases (is_pending d.status)) [ inl p ↦ inr (p, short, enough) | inr t ↦ inl t ],
      ) in
      (d', stored', elim h [ inl t ↦ t | inr (p, less, more) ↦ absurd (omega (arith, less, more)) ])
