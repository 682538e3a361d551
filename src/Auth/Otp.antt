-- ===== src/Auth/Otp.antt =====
-- services/auth/otp.py. The random code, the hash function, the clock and the new `_id` are
-- arguments; one reading of the clock serves a whole call. A call is a read and, after other requests
-- may have written, the rest: `create_counted`, `check_token`. `create_otp` and `verify_otp` are the
-- calls without a write in between; `Guesses` and `Created` interleave the two halves.
use spoo.Base.{ℕ, ◌+◌, String, Bool, none, some, Result, ok, err, leb, str_eq, if◌then◌else◌}
use spoo.Base.Collection.{Collection}
use spoo.Auth.{VerificationTokenDoc, TokenType, password_reset, type_eq}
use spoo.Auth.Tokens.{
  create, count_recent, delete_by_user, find_latest_by_user, increment_attempts, consume_if_unused,
}

abbrev pub otp_expiry_seconds : ℕ
otp_expiry_seconds = 600

abbrev pub max_tokens_per_hour : ℕ
max_tokens_per_hour = 3

abbrev pub max_verification_attempts : ℕ
max_verification_attempts = 5

-- The two messages of RateLimitError, and the messages of ValidationError.
pub data OtpError : Type 0 where
  too_many_resets too_many_verifications : OtpError
  invalid_or_expired expired too_many_attempts : OtpError

abbrev pub new_token : ℕ → String → String → TokenType → ℕ → VerificationTokenDoc
new_token user email hash type now = record {
  user_id = user;
  email = email;
  token_hash = hash;
  token_type = type;
  expires_at = now + otp_expiry_seconds;
  created_at = some now;
  used_at = none;
  attempts = 0;
  app_id = none;
  code_challenge = none;
}

module _ (hash_token : String → String) (db : Collection ℕ VerificationTokenDoc) where
  open db use {State}

  -- The rest of `create_otp`, once the recent tokens have been counted.
  abbrev pub create_counted :
      ℕ → ℕ → String → TokenType → Bool → String → ℕ → ℕ → State → Result OtpError String × State
  create_counted recent user email type delete_existing code id now s =
      if leb max_tokens_per_hour recent
      then (
        err (if type_eq type password_reset then too_many_resets else too_many_verifications),
        s,
      )
      else (
        ok code,
        create db id (new_token user email (hash_token code) type now)
            (if delete_existing then (delete_by_user db user (some type) none s).1 else s),
      )

  unfoldable pub create_otp :
      ℕ → String → TokenType → Bool → String → ℕ → ℕ → State → Result OtpError String × State
  create_otp user email type delete_existing code id now s =
      create_counted (count_recent db user type 60 now s) user email type delete_existing code id
        now s

  -- The checks on the token that was found, in order.
  unfoldable pub check_token :
      ℕ × VerificationTokenDoc → String → ℕ → State → Result OtpError (Unit {0}) × State
  check_token (id, d) code now s =
      if leb d.expires_at now
      then (err expired, s)
      else if leb max_verification_attempts d.attempts
      then (err too_many_attempts, s)
      else if str_eq d.token_hash (hash_token code)
      then (let (consumed, s') = consume_if_unused db id now s in
          if consumed then (ok tt, s') else (err invalid_or_expired, s'))
      else (err invalid_or_expired, (increment_attempts db id s).1)

  unfoldable pub verify_otp :
      ℕ → String → TokenType → ℕ → State → Result OtpError (Unit {0}) × State
  unfolding check_token
  verify_otp user code type now s = elim (find_latest_by_user db user type s) [
    | none ↦ (err invalid_or_expired, s)
    | some t ↦ check_token t code now s
  ]
