-- ===== src/Auth/Limits.antt =====
-- The password reset deletes the tokens that the hourly limit of `create_otp` counts.
use spoo.Base.{
  ℕ, suc, ◌<◌, ◌≤◌, String, ◌≡◌, ap, refl, Bool, true, not, ◌&&◌, Option, none, some, List, [], ◌∷◌,
  arith, length, if◌then◌else◌,
}
use spoo.Base.Collection.{Collection, tally}
use spoo.Auth.{UserDoc, VerificationTokenDoc, password_reset}
use spoo.Auth.Tokens.{create, count_recent, delete_by_user, is_recent, is_of_user}
use spoo.Auth.Otp.{create_otp, max_tokens_per_hour, new_token}
use spoo.Auth.Requests.{request_password_reset}

-- A request for a code: the code, the new `_id` and the time.
pub record Issue : Type 0 where
  pub code : String
  pub id : ℕ
  pub now : ℕ

module _ (hash_token : String → String) (db : Collection ℕ VerificationTokenDoc) where
  open db use {
    State, get, put, count, count-put, count_mono, count-none, count-delete_many, get-put_ne,
  }

  -- The reset requests of one user, the mail being sent each time: the number of codes sent.
  unfoldable pub reset_all : UserDoc → List Issue → State → ℕ × State
  reset_all user [] s = (0, s)
  reset_all user (i ∷ is) s =
      let (sent, s') = request_password_reset hash_token db (some user) true i.code i.id i.now s in
      let (n, s'') = reset_all user is s' in (if sent then suc n else n, s'')

  -- The tokens that a reset deletes.
  abbrev resets : UserDoc → VerificationTokenDoc → Bool
  resets user = is_of_user user.id (some password_reset) none

  reset-sent :
      (user : UserDoc) (i : Issue) (s : State)
      → user.password_set ≡ true
      → count (resets user) s < max_tokens_per_hour
      → request_password_reset hash_token db (some user) true i.code i.id i.now s ≡ (
        true,
        put i.id
            (new_token user.id user.email (hash_token i.code) password_reset i.now)
            (db.delete_many (resets user) s),
      )
  unfolding request_password_reset create_otp create count_recent delete_by_user
  reset-sent user i s set few =
      let fewer =
        count_mono (is_recent user.id password_reset 60 i.now) (resets user) s
          (λ d m. ground arith) in
      ground (arith, set, fewer, few)

  reset-leaves_one :
      (user : UserDoc) (id : ℕ) (d : VerificationTokenDoc) (s : State)
      → count (resets user) (put id d (db.delete_many (resets user) s)) ≤ 1
  reset-leaves_one user id d s = omega (
    arith,
    count-put (resets user) id d (db.delete_many (resets user) s),
    count-delete_many (resets user) (resets user) s,
    count-none (λ e. resets user e && not (resets user e)) s (λ e. ground arith),
    tally_le (some d),
  )
    where
      tally_le : (o : Option VerificationTokenDoc) → tally (resets user) o ≤ 1
      tally_le none = omega arith
      tally_le (some e) = ground arith

  -- The hourly limit never stops a password reset. Each request deletes the user's earlier reset
  -- tokens, which are what the limit counts: from a state with fewer than three of them, every
  -- request of a user with a password, one after the other, has its code sent, however many there are and
  -- however close.
  pub request_password_reset-unlimited :
      (user : UserDoc) (is : List Issue) (s : State)
      → user.password_set ≡ true
      → count (is_of_user user.id (some password_reset) none) s < max_tokens_per_hour
      → (reset_all user is s).0 ≡ length is
  unfolding reset_all
  request_password_reset-unlimited user [] s set few = refl
  request_password_reset-unlimited user (i ∷ is) s set few =
      let d = new_token user.id user.email (hash_token i.code) password_reset i.now in
      rw (reset-sent user i s set few) (
        ap suc (
          request_password_reset-unlimited user is _ set
            (omega (arith, reset-leaves_one user i.id d s))))
