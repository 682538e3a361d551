-- ===== src/Links/Live.antt =====
-- What the cached projection of a link (infrastructure/cache/url_cache.py) says of the stored one: a
-- link that the tests on it let pass is live.
use spoo.Base.{
  ℕ, ◌*◌, ◌≡◌, ◌≢◌, ◌⊎◌, refl, true, false, ◌||◌, Option, none, some, inl, inr, arith, Bool-cases,
  leb, ltb,
}
use spoo.Links.{
  UrlV2Doc, SchemaVersion, UrlStatus, active, inactive, expired, blocked, scheduled, is_v2,
  is_active, is_blocked, is_expired, is_inactive,
}
use spoo.Links.Status.{effective_status, time_passed, clicks_used, is_ahead}
use spoo.Links.Cached.{
  from_v2_doc, is_non_active, is_time_expired, is_not_yet_live, to_unix_timestamp,
  to_unix_timestamp_ceil,
}

is_active-left :
    (s : UrlStatus)
    → s ≢ scheduled
    → (is_blocked s || (is_expired s || is_inactive s)) ≡ false
    → is_active s ≡ true
is_active-left active ne h = refl
is_active-left inactive ne h = absurd (ground (arith, h))
is_active-left expired ne h = absurd (ground (arith, h))
is_active-left blocked ne h = absurd (ground (arith, h))
is_active-left scheduled ne h = absurd (ne refl)

-- The seconds of the cache are on the safe side of the document's milliseconds.
time_passed-cached :
    (t : Option ℕ) (now : ℕ)
    → elim (to_unix_timestamp t) [ none ↦ false | some u ↦ leb (u * 1000) now ] ≡ false
    → time_passed t now ≡ false
time_passed-cached none now h = refl
time_passed-cached (some t) now h = ground (arith, h)

is_ahead-cached :
    (t : Option ℕ) (now : ℕ)
    → elim (to_unix_timestamp_ceil t) [ none ↦ false | some u ↦ ltb now (u * 1000) ] ≡ false
    → is_ahead t now ≡ false
is_ahead-cached none now h = refl
is_ahead-cached (some t) now h = ground (arith, h)

-- Live, or a link whose limit of clicks is reached and not yet acted on.
abbrev pub IsLive : ℕ → UrlV2Doc → Type 0
IsLive now d = (effective_status d now ≡ active) ⊎ (clicks_used d.max_clicks d.total_clicks ≡ true)

status-active : (s : UrlStatus) → is_active s ≡ true → s ≡ active
status-active active h = refl
status-active inactive h = absurd (ground (arith, h))
status-active expired h = absurd (ground (arith, h))
status-active blocked h = absurd (ground (arith, h))
status-active scheduled h = absurd (ground (arith, h))

pub from_v2_doc-IsLive :
    (id now : ℕ) (d : UrlV2Doc) (schema : SchemaVersion)
    → d.status ≢ scheduled
    → is_v2 schema ≡ true
    → is_non_active (from_v2_doc id d) schema ≡ false
    → is_time_expired (from_v2_doc id d) now ≡ false
    → is_not_yet_live (from_v2_doc id d) now ≡ false
    → IsLive now d
unfolding from_v2_doc effective_status
from_v2_doc-IsLive id now d schema stored two alive before_end after_start =
    let on = is_active-left d.status stored (ground (arith, two, alive)) in
    let passed = time_passed-cached d.expire_after now before_end in
    let ahead = is_ahead-cached d.starts_at now after_start in
    elim (Bool-cases (clicks_used d.max_clicks d.total_clicks)) [
      | inl used ↦ inr used
      | inr free ↦ inl (rw (on, passed, free, ahead) (status-active d.status on))
    ]
