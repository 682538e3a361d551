-- ===== src/Auth/FlowTests.antt =====
-- Tests of the flows that a code completes, and their theorems at concrete inputs. The hashes are the
-- identity here, and the challenge of a verifier is the verifier.
use spoo.Base.{
  eq_iff, ℕ, String, true, false, Option, none, some, [], ◌∷◌, ok, err, ◌≡◌, ◌≢◌, refl, sym, ◌∙◌,
  arith, inl, inr, ℕ-cases,
}
use spoo.Base.Collection.{Collection, find_and_update}
use spoo.Base.Memory.{by_id}
use spoo.Auth.{VerificationTokenDoc, UserDoc, active, password_reset, device_auth}
use spoo.Auth.Tokens.{
  create, consume_by_hash, consume_if_unused, delete_by_user, find_latest_by_user, used,
}
use spoo.Auth.Otp.{verify_otp, new_token}
use spoo.Auth.Passwords.{validate_account_password, too_short, no_uppercase, no_number, no_special}
use spoo.Auth.Accounts.{AccountServices, reset_password, with_password, find_by_email}
use spoo.Auth.Authorised.{Outcome as ResetOutcome, reset_password-Outcome}
use spoo.Auth.Device.{
  AuthResult, DeviceAuthService, live, AppGrantDoc, AppEntry, invalid_code, access_revoked,
  create_device_auth_code, exchange_device_code, is_valid_pkce_challenge, validate_redirect_uri,
  find_active_grant,
}
use spoo.Auth.Exchanged.{Outcome, exchange-Outcome}
use spoo.Auth.Consume.{delete, insert, write_all}
use spoo.Auth.Minted.{MayHave, create-exchange}
use spoo.Auth.Once.{IsUnique, exchange-once}

abbrev accounts : Collection ℕ UserDoc
accounts = by_id {D = UserDoc}

abbrev app_grants : Collection ℕ AppGrantDoc
app_grants = by_id {D = AppGrantDoc}

abbrev codes : Collection ℕ VerificationTokenDoc
codes = by_id {D = VerificationTokenDoc}

abbrev same_text : String → String
same_text c = c

abbrev user : UserDoc
user = record {
  id = 7;
  email = "a@b.c";
  email_verified = false;
  password_hash = some "old";
  password_set = true;
  status = active;
}

abbrev users : accounts.State
users = ((7, user) ∷ [], (refl, tt))

abbrev no_codes : codes.State
no_codes = ([], tt)

abbrev reset_code : VerificationTokenDoc
reset_code = new_token 7 "a@b.c" "123456" password_reset 1000

abbrev reset_codes : codes.State
reset_codes = ((1, reset_code) ∷ [], (refl, tt))

weak_test :
    validate_account_password 8 128 "weak" ≡ too_short ∷ no_uppercase ∷ no_number ∷ no_special ∷ []
unfolding validate_account_password
weak_test = refl

abbrev account_services : AccountServices
account_services = record {
  users = accounts;
  tokens = codes;
  hash_token = same_text;
  hash_password = same_text;
  min_length = 8;
  max_length = 128;
}

reset_test :
    reset_password account_services "a@b.c" "123456" "Str0ng!pw" 1100 (users, reset_codes) ≡ (
      ok tt,
      (
        accounts.put 7 (with_password "Str0ng!pw" user) users,
        codes.put 1 (used 1100 reset_code) reset_codes,
      ),
    )
unfolding reset_password validate_account_password find_by_email verify_otp find_latest_by_user
    consume_if_unused find_and_update
reset_test = refl

reset_password-Outcome_example :
    ResetOutcome account_services "a@b.c" "123456" "Str0ng!pw" 1100
      (users, reset_codes)
      (reset_password account_services "a@b.c" "123456" "Str0ng!pw" 1100 (users, reset_codes))
reset_password-Outcome_example =
    reset_password-Outcome account_services "a@b.c" "123456" "Str0ng!pw" 1100 (users, reset_codes)

abbrev registry : String → Option AppEntry
registry app_id = some (record {
  status = live;
  redirect_uris = "https://cli.example/cb" ∷ [];
  scopes = "shorten:create" ∷ [];
})

abbrev service : DeviceAuthService
service = record {
  users = accounts;
  grants = app_grants;
  tokens = codes;
  app_registry = registry;
  hash_token = same_text;
  s256 = same_text;
}

abbrev challenge : String
challenge = "E9Melhoa2OwvFrEMTJguCHaoeK1t8URWbuGJSstw-cM"

abbrev minted : codes.State
minted = (create_device_auth_code service 7 "a@b.c" challenge (some "cli") "raw" 1 1000 no_codes).1

abbrev device_code : VerificationTokenDoc
device_code = record {
  user_id = 7;
  email = "a@b.c";
  token_hash = "raw";
  token_type = device_auth;
  expires_at = 1300;
  created_at = some 1000;
  used_at = none;
  attempts = 0;
  app_id = some "cli";
  code_challenge = some challenge;
}

abbrev device_codes : codes.State
device_codes = codes.put 1 device_code no_codes

abbrev grant : AppGrantDoc
grant = record {
  user_id = 7;
  app_id = "cli";
  last_used_at = none;
  revoked_at = none;
  scopes = some ("shorten:create" ∷ []);
}

abbrev granted : app_grants.State
granted = app_grants.put 3 grant ([], tt)

challenge_test : is_valid_pkce_challenge challenge "S256" ≡ true
unfolding is_valid_pkce_challenge
challenge_test = refl

plain_test : is_valid_pkce_challenge challenge "plain" ≡ false
unfolding is_valid_pkce_challenge
plain_test = refl

uri_test :
    validate_redirect_uri "https://evil.example"
      (record { status = live; redirect_uris = "https://cli.example/cb" ∷ []; scopes = [] })
    ≡ false
unfolding validate_redirect_uri
uri_test = refl

minted_test : minted ≡ device_codes
unfolding create_device_auth_code create delete_by_user
minted_test = refl

exchange_test :
    (exchange_device_code service "raw" challenge true 1100 users (granted, device_codes)).0
    ≡ ok (record { user = user; app_id = some "cli"; scopes = some ("shorten:create" ∷ []) })
unfolding exchange_device_code consume_by_hash find_active_grant
exchange_test = refl

mismatch_test :
    (exchange_device_code service "raw" "other" true 1100 users (granted, device_codes)).0
    ≡ err invalid_code
unfolding exchange_device_code consume_by_hash
mismatch_test = refl

revoked_test :
    (exchange_device_code service "raw" challenge true 1100 users
      (app_grants.put 3 (record grant { revoked_at = some 1050 }) granted, device_codes)).0
    ≡ err access_revoked
unfolding exchange_device_code consume_by_hash find_active_grant
revoked_test = refl

exchange-Outcome_example :
    Outcome service "raw" challenge 1100 users
      (granted, device_codes)
      (exchange_device_code service "raw" challenge true 1100 users (granted, device_codes))
exchange-Outcome_example =
    exchange-Outcome service "raw" challenge true 1100 users (granted, device_codes)

one-IsUnique : IsUnique codes "raw" device_codes
one-IsUnique k j d e found found' h h' = sym (only k d found) ∙ only j e found'
  where
    only : (i : ℕ) (x : VerificationTokenDoc) → codes.get device_codes i ≡ some x → 1 ≡ i
    only i x here = elim (ℕ-cases 1 i) [
      | inl same ↦ same
      | inr apart ↦ absurd (ground (arith, codes.get-put_ne 1 i device_code no_codes apart, here))
    ]

abbrev second_code : VerificationTokenDoc
second_code = record device_code { token_hash = "new" }

exchange-once_example :
    exchange_device_code service "raw" challenge true 1200 users (
      granted,
      write_all codes
          (delete 8 none none ∷ insert 2 second_code ∷ [])
          (exchange_device_code service "raw" "other" true 1100 users (granted, device_codes)).2,
    )
    ≡ (
      err invalid_code,
      granted,
      write_all codes
          (delete 8 none none ∷ insert 2 second_code ∷ [])
          (exchange_device_code service "raw" "other" true 1100 users (granted, device_codes)).2,
    )
exchange-once_example =
    exchange-once service "raw" "other" challenge true true 1100 1200 users users granted granted
      device_codes (delete 8 none none ∷ insert 2 second_code ∷ [])
      (write_all codes (delete 8 none none ∷ insert 2 second_code ∷ [])
        (exchange_device_code service "raw" "other" true 1100 users (granted, device_codes)).2)
      (omega arith) one-IsUnique (tt, (refl, tt)) refl

cli_ne : ◌≢◌ {A = String} "cli" ""
cli_ne h = ground (arith, (eq_iff "cli" "").1 h)

abbrev may_have : MayHave service 7 "cli" users granted
may_have = record {
  holder = user;
  known = refl;
  status = refl;
  grant_id = 3;
  grant = grant;
  granted = refl;
  owner = refl;
  app = refl;
  standing = refl;
  named = cli_ne;
}

create-exchange_example :
    (answer : AuthResult) × ((exchange_device_code service
        (create_device_auth_code service 7 "a@b.c" challenge (some "cli") "raw" 1 1000 no_codes).0
        challenge
        true
        1100
        users
        (
          granted,
          (create_device_auth_code service 7 "a@b.c" challenge
              (some "cli")
              "raw"
              1
              1000
              no_codes).1,
        )).0
      ≡ ok answer)
    × (answer.user ≡ user)
    × (answer.app_id ≡ some "cli")
create-exchange_example =
    create-exchange service 7 1 "a@b.c" "raw" challenge "cli" 1000 1100 users granted no_codes true
      (omega arith) (λ h. ground (arith, (eq_iff challenge "").1 h)) (λ j d h. cc) may_have
