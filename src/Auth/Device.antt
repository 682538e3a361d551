-- ===== src/Auth/Device.antt =====
-- services/auth/device.py, with repositories/app_grant_repository.py: one-time codes that apps
-- exchange for tokens. The clock, the new `_id`, the raw code and what a refresh token claims are
-- arguments. Signing of tokens and logging are left out: a result holds what the tokens are issued
-- with.
use Prim.Native.Char.{Char, code}
use spoo.Base.{
  ℕ, ◌+◌, String, Bool, true, false, ◌&&◌, ◌||◌, not, Option, none, some, List, [], ◌∷◌, Result, ok,
  err, is_none, any, str_eq, leb, ltb, ◌==◌, if◌then◌else◌,
}
use spoo.Base.Collection.{Collection, ascending, find_first_and_update}
use spoo.Base.Text.{len, has_text}
use spoo.Auth.{
  VerificationTokenDoc, UserDoc, UserStatus, active, inactive, pending_deletion, erasing,
  device_auth,
}
use spoo.Auth.Tokens.{create, consume_by_hash, delete_by_user}

abbrev pub device_auth_expiry_seconds : ℕ
device_auth_expiry_seconds = 300

abbrev pub app_id_max_len : ℕ
app_id_max_len = 64

-- A grant; the time of its consent is left out.
pub record AppGrantDoc : Type 0 where
  pub user_id : ℕ
  pub app_id : String
  pub last_used_at : Option ℕ
  pub revoked_at : Option ℕ
  pub scopes : Option (List String)

pub data AppStatus : Type 0 where
  live coming_soon : AppStatus

-- An entry of the registry: what the service reads of it. Its type has one value, and is left out.
pub record AppEntry : Type 0 where
  pub status : AppStatus
  pub redirect_uris : List String
  pub scopes : List String

pub data AuthenticationError : Type 0 where
  invalid_code user_not_found_or_inactive access_revoked invalid_refresh_token : AuthenticationError

-- What `issue_tokens` is called with.
pub record AuthResult : Type 0 where
  pub user : UserDoc
  pub app_id : Option String
  pub scopes : Option (List String)

-- `[A-Za-z0-9_-]{43}` over the whole text
abbrev is_base64url : Char → Bool
is_base64url ch =
    (leb b'A' (code ch) && leb (code ch) b'Z')
    || (leb b'a' (code ch) && leb (code ch) b'z')
    || (leb b'0' (code ch) && leb (code ch) b'9')
    || code ch == b'_'
    || code ch == b'-'

all_base64url : String → Bool
all_base64url String.[] = true
all_base64url (String.◌∷◌ c s) = is_base64url c && all_base64url s

unfoldable pub is_valid_pkce_challenge : String → String → Bool
unfolding all_base64url
is_valid_pkce_challenge challenge method =
    str_eq method "S256" && len challenge == 43 && all_base64url challenge

abbrev pub non_empty : List String → Option (List String)
non_empty [] = none
non_empty (scope ∷ scopes) = some (scope ∷ scopes)

-- `effective_scopes_for` of a grant
abbrev pub effective_scopes : AppGrantDoc → Option AppEntry → Option (List String)
effective_scopes grant entry = elim grant.scopes [
  | some scopes ↦ some scopes
  | none ↦ elim entry [ none ↦ none | some e ↦ non_empty e.scopes ]
]

-- `user.status == UserStatus.ACTIVE`
abbrev pub is_active : UserStatus → Bool
is_active active = true
is_active inactive = false
is_active pending_deletion = false
is_active erasing = false

abbrev pub is_live_device_app : AppEntry → Bool
is_live_device_app entry = elim entry.status [ live ↦ true | coming_soon ↦ false ]

-- `entry if entry and entry.is_live_device_app() else None`
abbrev pub live_entry : Option AppEntry → Option AppEntry
live_entry none = none
live_entry (some e) = if is_live_device_app e then some e else none

unfoldable pub resolve_app : (String → Option AppEntry) → String → Option AppEntry
resolve_app app_registry app_id =
    if str_eq app_id "" || ltb app_id_max_len (len app_id)
    then none
    else live_entry (app_registry app_id)

-- The text in the allowlist, or none
unfoldable pub validate_redirect_uri : String → AppEntry → Bool
validate_redirect_uri uri app = str_eq uri "" || any (str_eq uri) app.redirect_uris

-- What the service is built with, the hash of a code and the S256 challenge of a verifier.
pub record DeviceAuthService : Type 1 where
  pub users : Collection ℕ UserDoc
  pub grants : Collection ℕ AppGrantDoc
  pub tokens : Collection ℕ VerificationTokenDoc
  pub app_registry : String → Option AppEntry
  pub hash_token : String → String
  pub s256 : String → String

module _ (service : DeviceAuthService) where
  open service use {users, grants, tokens, app_registry, hash_token, s256}

  -- The document of a new code; `if app_id:` drops the empty text.
  abbrev pub device_token : ℕ → String → String → String → Option String → ℕ → VerificationTokenDoc
  device_token user email raw challenge app_id now = record {
    user_id = user;
    email = email;
    token_hash = hash_token raw;
    token_type = device_auth;
    expires_at = now + device_auth_expiry_seconds;
    created_at = some now;
    used_at = none;
    attempts = 0;
    app_id = if has_text app_id then app_id else none;
    code_challenge = some challenge;
  }

  unfoldable pub revoke_device_tokens : ℕ → Option String → tokens.State → ℕ × tokens.State
  revoke_device_tokens user app_id ts = delete_by_user tokens user (some device_auth) app_id ts

  -- The raw code, and the tokens: the earlier codes of the user and app are gone.
  unfoldable pub create_device_auth_code :
      ℕ → String → String → Option String → String → ℕ → ℕ → tokens.State → String × tokens.State
  create_device_auth_code user email challenge app_id raw id now ts = (
    raw,
    create tokens id (device_token user email raw challenge app_id now)
        (delete_by_user tokens user (some device_auth) app_id ts).1,
  )

  -- `find_active_grant`, and `touch_last_used`, whose errors are swallowed (`up` says whether MongoDB
  -- answers it)
  abbrev pub is_granted : ℕ → String → AppGrantDoc → Bool
  is_granted user app_id g = g.user_id == user && str_eq g.app_id app_id && is_none g.revoked_at

  unfoldable pub find_active_grant : ℕ → String → grants.State → Option (ℕ × AppGrantDoc)
  find_active_grant user app_id gs =
      grants.pick ascending (λ k g. is_granted user app_id g) (λ g. 0) gs

  unfoldable pub touch_grant : Bool → ℕ → String → ℕ → grants.State → grants.State
  touch_grant up user app_id now gs =
      let touched =
        (find_first_and_update grants ascending (λ k g. is_granted user app_id g) (λ g. 0)
          (λ g. record g { last_used_at = some now }) gs).1 in
      if up then touched else gs

  abbrev pub Answer : Type 0
  Answer = Result AuthenticationError AuthResult × grants.State

  -- After the grant was looked up.
  unfoldable pub with_grant :
      Option (ℕ × AppGrantDoc) → UserDoc → ℕ → String → Bool → ℕ → grants.State → Answer
  unfolding touch_grant
  with_grant none u user app_id up now gs = (err access_revoked, gs)
  with_grant (some (id, g)) u user app_id up now gs = (
    ok (record {
      user = u;
      app_id = some app_id;
      scopes = effective_scopes g (app_registry g.app_id);
    }),
    touch_grant up user app_id now gs,
  )

  -- From `scopes = None` on: a token without an app has no grant.
  unfoldable pub issue : UserDoc → ℕ → Option String → Bool → ℕ → grants.State → Answer
  unfolding with_grant find_active_grant
  issue u user none up now gs = (ok (record { user = u; app_id = none; scopes = none }), gs)
  issue u user (some app_id) up now gs =
      let granted = with_grant (find_active_grant user app_id gs) u user app_id up now gs in
      if str_eq app_id ""
      then (ok (record { user = u; app_id = some app_id; scopes = none }), gs)
      else granted

  unfoldable pub with_user :
      AuthenticationError → Option UserDoc → ℕ → Option String → Bool → ℕ → grants.State → Answer
  unfolding issue
  with_user refusal none user app_id up now gs = (err refusal, gs)
  with_user refusal (some u) user app_id up now gs =
      let issued = issue u user app_id up now gs in
      if is_active u.status then issued else (err refusal, gs)

  -- `refresh_device_tokens`, from what the refresh token claims: the subject and the app.
  unfoldable pub refresh_device_tokens :
      ℕ → Option String → Bool → ℕ → users.State → grants.State → Answer
  unfolding with_user
  refresh_device_tokens user app_id up now us gs =
      with_user invalid_refresh_token (users.get us user) user app_id up now gs

  -- The PKCE check
  abbrev pub is_bound : Option String → String → Bool
  is_bound none verifier = false
  is_bound (some challenge) verifier = not (str_eq challenge "") && str_eq (s256 verifier) challenge

  -- After the code has been consumed.
  unfoldable pub with_token :
      Option (ℕ × VerificationTokenDoc) → String → Bool → ℕ → users.State → grants.State → Answer
  unfolding with_user
  with_token none verifier up now us gs = (err invalid_code, gs)
  with_token (some (k, d)) verifier up now us gs =
      let rest =
        with_user user_not_found_or_inactive (users.get us d.user_id) d.user_id d.app_id up now
          gs in
      if is_bound d.code_challenge verifier then rest else (err invalid_code, gs)

  unfoldable pub exchange_device_code :
      String
      → String
      → Bool
      → ℕ
      → users.State
      → grants.State × tokens.State
      → Result AuthenticationError AuthResult × grants.State × tokens.State
  unfolding with_token
  exchange_device_code raw verifier up now us (gs, ts) =
      let (found, ts') = consume_by_hash tokens (hash_token raw) device_auth now ts in
      let (answer, gs') = with_token found verifier up now us gs in (answer, gs', ts')
