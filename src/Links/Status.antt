-- ===== src/Links/Status.antt =====
-- schemas/models/url.py, `UrlV2Doc.effective_status`, and services/url_service.py,
-- `effective_status_clause`, its twin as a database filter.
use spoo.Base.{
  ℕ, ◌≡◌, ◌≢◌, ◌↔◌, refl, Bool, true, false, ◌&&◌, ◌||◌, not, Option, none, some, arith, leb, ltb,
  if◌then◌else◌,
}
use spoo.Links.{
  UrlV2Doc, UrlStatus, active, inactive, expired, blocked, scheduled, is_active, is_expired,
}

-- `expire_after is not None and expire_after <= now`, and the same for the other two.
abbrev pub time_passed : Option ℕ → ℕ → Bool
time_passed none now = false
time_passed (some t) now = leb t now

abbrev pub clicks_used : Option ℕ → ℕ → Bool
clicks_used none total = false
clicks_used (some m) total = leb m total

abbrev pub is_ahead : Option ℕ → ℕ → Bool
is_ahead none now = false
is_ahead (some t) now = ltb now t

unfoldable pub effective_status : UrlV2Doc → ℕ → UrlStatus
effective_status d now =
    if not (is_active d.status)
    then d.status
    else if time_passed d.expire_after now
    then expired
    else if clicks_used d.max_clicks d.total_clicks
    then expired
    else if is_ahead d.starts_at now
    then scheduled
    else d.status

-- `_derived_expiry_arms`: `$lte` and `$gt` match no null; the second arm guards its `$expr`.
unfoldable pub derived_expiry_arms : ℕ → UrlV2Doc → Bool
derived_expiry_arms now d =
    (is_active d.status && time_passed d.expire_after now)
    || (is_active d.status && clicks_used d.max_clicks d.total_clicks)

unfoldable pub derived_scheduled_arm : ℕ → UrlV2Doc → Bool
derived_scheduled_arm now d = is_active d.status && is_ahead d.starts_at now

abbrev pub is_inactive_stored : UrlV2Doc → Bool
is_inactive_stored d = elim d.status [ inactive ↦ true | _ ↦ false ]

abbrev pub is_blocked_stored : UrlV2Doc → Bool
is_blocked_stored d = elim d.status [ blocked ↦ true | _ ↦ false ]

-- The documents that the filter for a status matches.
unfoldable pub effective_status_clause : UrlStatus → ℕ → UrlV2Doc → Bool
unfolding derived_expiry_arms derived_scheduled_arm
effective_status_clause expired now d = is_expired d.status || derived_expiry_arms now d
effective_status_clause scheduled now d =
    derived_scheduled_arm now d && not (derived_expiry_arms now d)
effective_status_clause active now d =
    is_active d.status && not (derived_expiry_arms now d || derived_scheduled_arm now d)
effective_status_clause inactive now d = is_inactive_stored d
effective_status_clause blocked now d = is_blocked_stored d

-- The two by the stored status and the three tests.
abbrev status_of : UrlStatus → Bool → Bool → Bool → UrlStatus
status_of s passed used ahead =
    if not (is_active s)
    then s
    else if passed
    then expired
    else if used
    then expired
    else if ahead
    then scheduled
    else s

abbrev matches : UrlStatus → UrlStatus → Bool → Bool → Bool → Bool
matches expired s passed used ahead =
    is_expired s || ((is_active s && passed) || (is_active s && used))
matches scheduled s passed used ahead =
    (is_active s && ahead) && not ((is_active s && passed) || (is_active s && used))
matches active s passed used ahead =
    is_active s
    && not (((is_active s && passed) || (is_active s && used)) || (is_active s && ahead))
matches inactive s passed used ahead = elim s [ inactive ↦ true | _ ↦ false ]
matches blocked s passed used ahead = elim s [ blocked ↦ true | _ ↦ false ]

matches_iff :
    (status s : UrlStatus) (passed used ahead : Bool)
    → s ≢ scheduled
    → (matches status s passed used ahead ≡ true) ↔ (status_of s passed used ahead ≡ status)
matches_iff status scheduled passed used ahead stored = absurd (stored refl)
matches_iff status active passed used ahead stored = elim status [
  | active ↦ ground arith
  | inactive ↦ ground arith
  | expired ↦ ground arith
  | blocked ↦ ground arith
  | scheduled ↦ ground arith
]
matches_iff status inactive passed used ahead stored = elim status [
  | active ↦ ground arith
  | inactive ↦ ground arith
  | expired ↦ ground arith
  | blocked ↦ ground arith
  | scheduled ↦ ground arith
]
matches_iff status expired passed used ahead stored = elim status [
  | active ↦ ground arith
  | inactive ↦ ground arith
  | expired ↦ ground arith
  | blocked ↦ ground arith
  | scheduled ↦ ground arith
]
matches_iff status blocked passed used ahead stored = elim status [
  | active ↦ ground arith
  | inactive ↦ ground arith
  | expired ↦ ground arith
  | blocked ↦ ground arith
  | scheduled ↦ ground arith
]

-- The filter and the property are the same predicate: at any moment, a document whose stored status
-- is not SCHEDULED matches the filter for a status exactly if that is its effective status.
pub effective_status_clause_iff :
    (status : UrlStatus) (now : ℕ) (d : UrlV2Doc)
    → d.status ≢ scheduled
    → (effective_status_clause status now d ≡ true) ↔ (effective_status d now ≡ status)
unfolding effective_status_clause effective_status
effective_status_clause_iff active now d stored =
    matches_iff active d.status (time_passed d.expire_after now)
      (clicks_used d.max_clicks d.total_clicks) (is_ahead d.starts_at now) stored
effective_status_clause_iff inactive now d stored =
    matches_iff inactive d.status (time_passed d.expire_after now)
      (clicks_used d.max_clicks d.total_clicks) (is_ahead d.starts_at now) stored
effective_status_clause_iff expired now d stored =
    matches_iff expired d.status (time_passed d.expire_after now)
      (clicks_used d.max_clicks d.total_clicks) (is_ahead d.starts_at now) stored
effective_status_clause_iff blocked now d stored =
    matches_iff blocked d.status (time_passed d.expire_after now)
      (clicks_used d.max_clicks d.total_clicks) (is_ahead d.starts_at now) stored
effective_status_clause_iff scheduled now d stored =
    matches_iff scheduled d.status (time_passed d.expire_after now)
      (clicks_used d.max_clicks d.total_clicks) (is_ahead d.starts_at now) stored
