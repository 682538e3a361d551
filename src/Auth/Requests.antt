-- ===== src/Auth/Requests.antt =====
-- `request_password_reset` of services/auth/password.py and `send_verification` of
-- services/auth/verification.py: the two flows that ask for a code. The user that the repository
-- finds and whether the mail was sent are arguments, since another service answers them.
use spoo.Base.{ℕ, String, Bool, true, false, Option, none, some, Result, ok, err, if◌then◌else◌}
use spoo.Base.Collection.{Collection}
use spoo.Auth.{UserDoc, VerificationTokenDoc, email_verify, password_reset}
use spoo.Auth.Otp.{OtpError, create_otp}

pub data RequestError : Type 0 where
  user_not_found already_verified email_failed : RequestError
  otp_refused : OtpError → RequestError

module _ (hash_token : String → String) (db : Collection ℕ VerificationTokenDoc) where
  open db use {State}

  -- Every outcome is the same to the caller; the flag says whether a mail with a code was sent.
  unfoldable pub request_password_reset :
      Option UserDoc → Bool → String → ℕ → ℕ → State → Bool × State
  request_password_reset none sent code id now s = (false, s)
  request_password_reset (some user) sent code id now s =
      if user.password_set
      then (let (r, s') =
            create_otp hash_token db user.id user.email password_reset true code id now s in
          elim r [ ok c ↦ (sent, s') | err e ↦ (false, s') ])
      else (false, s)

  unfoldable pub send_verification :
      Option UserDoc → Bool → String → ℕ → ℕ → State → Result RequestError (Unit {0}) × State
  send_verification none sent code id now s = (err user_not_found, s)
  send_verification (some user) sent code id now s =
      if user.email_verified
      then (err already_verified, s)
      else (let (r, s') =
            create_otp hash_token db user.id user.email email_verify false code id now s in
          elim r [
            | ok c ↦ (if sent then ok tt else err email_failed, s')
            | err e ↦ (err (otp_refused e), s')
          ])
