-- ===== src/Webhooks/Subscriptions/Matched.antt =====
-- services/webhooks/matcher.py: the endpoints that `match` returns are those that subscribe to the
-- event, described apart from the loop and the cache.
use spoo.Base.{
  ℕ, ◌==◌, ==_iff, Bool, true, false, ◌&&◌, not, Option, none, some, List, [], ◌∷◌, any, filter,
  filter-Listed, Listed, any-Listed, str_eq, eq_iff, if◌then◌else◌, ◌≡◌, ◌↔◌, inl, inr, refl, sym,
  ap, ◌∙◌, subst, arith, Bool-cases, Option-cases, and-eq-true,
}
use spoo.Base.Text.{starts_with}
use spoo.Base.Collection.{Collection}
use spoo.Base.KeyValue.{KeyValue}
use spoo.Webhooks.{WebhookEndpointDoc, WebhookStatus, active, paused, disabled}
use spoo.Webhooks.Subscriptions.{DomainEvent}
use spoo.Webhooks.Subscriptions.Registry.{event_registry, expand}
use spoo.Webhooks.Subscriptions.Matcher.{
  is_active, active_for, event_link_id, matches_link, is_matched, matched, get, match, after_count,
  find_active_for_owner,
}
use spoo.Webhooks.Subscriptions.Covers.{Covered, expand-Covered}
use spoo.Webhooks.Subscriptions.Kept.{IsQuiet}

-- The scope of an endpoint takes in an event: no scope does, and a list does that has the event's link.
abbrev pub InScope : Option (List ℕ) → Option ℕ → Type 0
InScope none link = Unit
InScope (some ids) none = ⊥
InScope (some ids) (some id) = Listed id ids

-- An endpoint subscribes to an event: it is active, the owner's, one of its patterns covers the type,
-- and a link's event is in its scope.
pub record Subscribes (event : DomainEvent) (ep : WebhookEndpointDoc) : Type 0 where
  pub own : ep.user_id ≡ event.owner_id
  pub status : ep.status ≡ active
  pub covered : Covered event_registry ep.events event.event_type
  pub scope : starts_with event.event_type "link." ≡ true → InScope ep.links (event_link_id event)

matches_link-InScope :
    (links : Option (List ℕ)) (link : Option ℕ)
    → (matches_link links link ≡ true) ↔ InScope links link
matches_link-InScope none link = (λ h. tt, λ h. refl)
matches_link-InScope (some ids) none = (λ h. cc, λ h. absurd h)
matches_link-InScope (some ids) (some id) = any-Listed ◌==◌ ==_iff id ids

is_active_iff : (s : WebhookStatus) → (is_active s ≡ true) ↔ (s ≡ active)
is_active_iff active = (λ h. refl, λ h. refl)
is_active_iff paused = (λ h. cc, λ h. cc)
is_active_iff disabled = (λ h. cc, λ h. cc)

-- The two checks of the loop.
passes :
    (c l m : Bool)
    → ((if not c then false else if l && not m then false else true) ≡ true)
      ↔ ((c ≡ true) × (l ≡ true → m ≡ true))
passes true true true = (λ h. (refl, λ x. refl), λ h. refl)
passes true true false = (λ h. cc, λ (h, k). k refl)
passes true false m = (λ h. (refl, λ x. cc), λ h. refl)
passes false l m = (λ h. cc, λ (h, k). h)

matched-filter :
    (event : DomainEvent) (l : List (ℕ × WebhookEndpointDoc))
    → matched event l ≡ filter (is_matched event) l
unfolding matched
matched-filter event [] = refl
matched-filter event (x ∷ l) =
    ap (λ rest. if is_matched event x then x ∷ rest else rest) (matched-filter event l)

module _ (redis : KeyValue ℕ ℕ) (has_redis : Bool) (ttl : ℕ)
    (endpoints : Collection ℕ WebhookEndpointDoc) where
  -- The endpoint stands in the collection, and subscribes.
  abbrev pub Wants : DomainEvent → endpoints.State → ℕ → WebhookEndpointDoc → Type 0
  Wants event s id ep = (endpoints.get s id ≡ some ep) × Subscribes event ep

  found-Wants :
      (event : DomainEvent) (s : endpoints.State) (id : ℕ) (ep : WebhookEndpointDoc)
      → Listed
          (id, ep)
          (matched event (find_active_for_owner redis has_redis ttl endpoints event.owner_id s))
        ↔ Wants event s id ep
  unfolding find_active_for_owner
  found-Wants event s id ep =
      let l = endpoints.find (active_for event.owner_id) s in
      let kept = filter-Listed (is_matched event) (id, ep) l in
      let stored = endpoints.find-Listed (active_for event.owner_id) s id ep in
      let both =
        passes (any (str_eq event.event_type) (expand event_registry ep.events))
          (starts_with event.event_type "link.") (matches_link ep.links (event_link_id event)) in
      let by_name = any-Listed str_eq eq_iff event.event_type (expand event_registry ep.events) in
      let by_pattern = expand-Covered event_registry event.event_type ep.events in
      let by_scope = matches_link-InScope ep.links (event_link_id event) in
      (
        λ h.
            let (listed, t) = kept.0 (subst (Listed (id, ep)) (matched-filter event l) h) in
            let (here, active_) = stored.0 listed in
            let (mine, on) =
              and-eq-true (ep.user_id == event.owner_id) (is_active ep.status) active_ in
            let (named, scoped) = both.0 t in
            (
              here,
              record {
                own = (==_iff ep.user_id event.owner_id).0 mine;
                status = (is_active_iff ep.status).0 on;
                covered = by_pattern.0 (by_name.0 named);
                scope = λ x. by_scope.0 (scoped x);
              },
            ),
        λ (here, sub).
            let mine = (==_iff ep.user_id event.owner_id).1 sub.own in
            let on = (is_active_iff ep.status).1 sub.status in
            subst (Listed (id, ep)) (sym (matched-filter event l)) (
              kept.1 (
                stored.1 (here, ground (arith, mine, on)),
                both.1 (by_name.1 (by_pattern.1 sub.covered), λ x. by_scope.1 (sub.scope x)),
              )),
      )

  -- A known count stands in the cache.
  get-known :
      (owner n : ℕ) (r : redis.State)
      → get redis has_redis ttl owner r ≡ some n
      → (has_redis ≡ true) × (redis.value r owner ≡ some n)
  unfolding get
  get-known owner n r h = elim (Bool-cases has_redis) [
    | inr off ↦ absurd (ground (arith, off, h))
    | inl on ↦ elim (Option-cases (redis.get owner r)) [
      | inl raised ↦ absurd (ground (arith, on, raised, h))
      | inr (raw, answered) ↦
          (on, sym (redis.get-value owner r raw answered) ∙ ground (arith, on, answered, h))
    ]
  ]

  -- Where the cache is right, `match` returns exactly the endpoints that stand in the collection and
  -- subscribe to the event: active ones of its owner with a pattern that covers its type ("*", the
  -- category's wildcard, or the name), and the link in scope if the type is a link's.
  pub match-Wants :
      (event : DomainEvent) (s : endpoints.State) (r : redis.State)
      → IsQuiet redis has_redis ttl endpoints (s, r)
      → (id : ℕ) (ep : WebhookEndpointDoc)
      → Listed (id, ep) (match redis has_redis ttl endpoints event s r).0 ↔ Wants event s id ep
  unfolding match after_count
  match-Wants event s r quiet id ep =
      elim (Option-cases (get redis has_redis ttl event.owner_id r)) [
        | inl miss ↦ rw miss (found-Wants event s id ep)
        | inr (n, known) ↦ elim (Bool-cases (n == 0)) [
          | inr no_ ↦ rw (known, no_) (found-Wants event s id ep)
          | inl t ↦
              let (on, value) = get-known event.owner_id n r known in
              let zero_ : redis.value r event.owner_id ≡ some 0 =
                value ∙ ap some ((==_iff n 0).0 t) in
              rw (known, t)
                (
                  λ h. absurd h,
                  λ (here, sub).
                      let off = quiet on event.owner_id zero_ id ep here in
                      let mine = (==_iff ep.user_id event.owner_id).1 sub.own in
                      let active_ = (is_active_iff ep.status).1 sub.status in
                      ground (arith, off, mine, active_),
                )
        ]
      ]
