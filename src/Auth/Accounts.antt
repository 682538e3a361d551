-- ===== src/Auth/Accounts.antt =====
-- services/auth/password.py and services/auth/verification.py: the flows that a code completes, over
-- the users (repositories/user_repository.py) and the tokens. The hash of a password is an argument;
-- hashing, the issue of tokens, the welcome mail and logging are left out. A result holds the user
-- that the tokens are issued for.
use spoo.Base.{
  ℕ, String, true, Option, none, some, List, [], ◌∷◌, Result, ok, err, is_none, str_eq,
  if◌then◌else◌,
}
use spoo.Base.Collection.{Collection, ascending, find_and_update}
use spoo.Auth.{VerificationTokenDoc, UserDoc, email_verify, password_reset}
use spoo.Auth.Otp.{OtpError, verify_otp}
use spoo.Auth.Passwords.{Missing, validate_account_password}

pub data AccountError : Type 0 where
  user_not_found password_already_set email_already_verified : AccountError
  invalid_email_or_code update_failed : AccountError
  weak_password : List Missing → AccountError
  otp_refused : OtpError → AccountError

abbrev pub with_password : String → UserDoc → UserDoc
with_password hash u = record u { password_hash = some hash; password_set = true }

abbrev pub verified : UserDoc → UserDoc
verified u = record u { email_verified = true }

-- What the services are built with, and the hashes of a code and of a password.
pub record AccountServices : Type 1 where
  pub users : Collection ℕ UserDoc
  pub tokens : Collection ℕ VerificationTokenDoc
  pub hash_token : String → String
  pub hash_password : String → String
  pub min_length : ℕ
  pub max_length : ℕ

module _ (service : AccountServices) where
  open service use {users, tokens, hash_token, hash_password, min_length, max_length}

  unfoldable pub find_by_email : String → users.State → Option (ℕ × UserDoc)
  find_by_email email us = users.pick ascending (λ k u. str_eq u.email email) (λ u. 0) us

  -- `update`, and the check of its answer.
  unfoldable pub update_user :
      ℕ → (UserDoc → UserDoc) → users.State → Result AccountError (Unit {0}) × users.State
  update_user id f us =
      let (before, us') = find_and_update users id (λ u. true) f us in
      (if is_none before then err update_failed else ok tt, us')

  -- The rest of `set_password` and of `reset_password`, once a password has been found to lack
  -- something, or nothing.
  unfoldable pub store_password :
      List Missing → ℕ → String → users.State → Result AccountError (Unit {0}) × users.State
  unfolding update_user
  store_password [] id password us = update_user id (with_password (hash_password password)) us
  store_password (m ∷ ms) id password us = (err (weak_password (m ∷ ms)), us)

  unfoldable pub set_password_for :
      Option UserDoc → ℕ → String → users.State → Result AccountError (Unit {0}) × users.State
  unfolding store_password
  set_password_for none id password us = (err user_not_found, us)
  set_password_for (some u) id password us =
      if u.password_set
      then (err password_already_set, us)
      else store_password (validate_account_password min_length max_length password) id password us

  unfoldable pub set_password :
      ℕ → String → users.State → Result AccountError (Unit {0}) × users.State
  unfolding set_password_for
  set_password id password us = set_password_for (users.get us id) id password us

  abbrev pub State : Type 0
  State = users.State × tokens.State

  -- After the code has been verified: any refusal reads the same to the caller.
  unfoldable pub after_code :
      Result OtpError (Unit {0}) → ℕ → String → State → Result AccountError (Unit {0}) × State
  unfolding update_user
  after_code (err e) id password s = (err invalid_email_or_code, s)
  after_code (ok passed) id password (us, ts) =
      let (r, us') = update_user id (with_password (hash_password password)) us in (r, (us', ts))

  -- After the password has been checked.
  unfoldable pub reset_for :
      Option (ℕ × UserDoc) → String → String → ℕ → State → Result AccountError (Unit {0}) × State
  unfolding after_code
  reset_for none code password now s = (err invalid_email_or_code, s)
  reset_for (some (id, u)) code password now (us, ts) =
      let (r, ts') = verify_otp hash_token tokens id code password_reset now ts in
      after_code r id password (us, ts')

  abbrev pub checked :
      List Missing
      → Result AccountError (Unit {0}) × State
      → State
      → Result AccountError (Unit {0}) × State
  checked [] rest s = rest
  checked (m ∷ ms) rest s = (err (weak_password (m ∷ ms)), s)

  unfoldable pub reset_password :
      String → String → String → ℕ → State → Result AccountError (Unit {0}) × State
  unfolding reset_for
  reset_password email code password now s =
      checked (validate_account_password min_length max_length password)
        (reset_for (find_by_email email s.0) code password now s) s

  -- The end of `verify_email`: the user whose tokens are issued has the flag set.
  unfoldable pub mark_verified :
      Result OtpError (Unit {0}) → ℕ → UserDoc → State → Result AccountError UserDoc × State
  unfolding update_user
  mark_verified (err e) id u s = (err (otp_refused e), s)
  mark_verified (ok passed) id u (us, ts) =
      let (r, us') = update_user id verified us in
      (elim r [ ok done ↦ ok (verified u) | err e ↦ err e ], (us', ts))

  unfoldable pub verify_email_of :
      Option UserDoc → ℕ → String → ℕ → State → Result AccountError UserDoc × State
  unfolding mark_verified
  verify_email_of none id code now s = (err user_not_found, s)
  verify_email_of (some u) id code now (us, ts) =
      let (r, ts') = verify_otp hash_token tokens id code email_verify now ts in
      let rest = mark_verified r id u (us, ts') in
      if u.email_verified then (err email_already_verified, (us, ts)) else rest

  unfoldable pub verify_email : ℕ → String → ℕ → State → Result AccountError UserDoc × State
  unfolding verify_email_of
  verify_email id code now s = verify_email_of (users.get s.0 id) id code now s
