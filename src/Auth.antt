-- ===== src/Auth.antt =====
-- One-time codes (services/auth/otp.py, services/auth/password.py, services/auth/verification.py,
-- repositories/token_repository.py, schemas/models/token.py): the documents. `Tokens` has the token
-- repository, `Otp` the code service, `Requests` the two flows that ask for a code, `Passwords` and
-- `Accounts` those that a code completes, and `Device` the codes of apps. `Guesses` and `Created`
-- interleave the reads and writes of many requests. The other modules have the proofs.
pub mod Tokens
pub mod Otp
pub mod Requests
pub mod Passwords
pub mod Accounts
pub mod Device
pub mod Authorised
pub mod Issued
pub mod Exchanged
pub mod Once
pub mod Minted
pub mod Consume
pub mod Verify
pub mod Guesses
pub mod Created
pub mod Limits
mod FlowTests
mod Tests
use spoo.Base.{ℕ, Bool, Option, String, true, false}

pub data TokenType : Type 0 where
  email_verify password_reset device_auth deletion_restore : TokenType

-- Equality of the `str` enum's members.
abbrev pub type_eq : TokenType → TokenType → Bool
type_eq email_verify email_verify = true
type_eq password_reset password_reset = true
type_eq device_auth device_auth = true
type_eq deletion_restore deletion_restore = true
type_eq _ _ = false

-- The document; its `_id` is its key in the collection. Times are seconds since the epoch.
pub record VerificationTokenDoc : Type 0 where
  pub user_id : ℕ
  pub email : String
  pub token_hash : String
  pub token_type : TokenType
  pub expires_at : ℕ
  pub created_at : Option ℕ
  pub used_at : Option ℕ
  pub attempts : ℕ
  pub app_id : Option String
  pub code_challenge : Option String

pub data UserStatus : Type 0 where
  active inactive pending_deletion erasing : UserStatus

-- What these flows read and write of a user document; times are left out.
pub record UserDoc : Type 0 where
  pub id : ℕ
  pub email : String
  pub email_verified : Bool
  pub password_hash : Option String
  pub password_set : Bool
  pub status : UserStatus
