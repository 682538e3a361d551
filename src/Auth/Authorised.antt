-- ===== src/Auth/Authorised.antt =====
-- services/auth/password.py: a reset changes a password only on a live code, and its refusals tell
-- nothing of the account.
use spoo.Base.{
  ℕ, String, true, Option, none, some, List, [], ◌∷◌, Result, ok, err, str_eq, eq_iff, ◌≡◌, ◌⊎◌,
  inl, inr, refl, sym, ap, ◌∙◌, arith, Result-cases,
}
use spoo.Base.Collection.{ascending, find_and_update-match}
use spoo.Auth.{VerificationTokenDoc, UserDoc, password_reset}
use spoo.Auth.Tokens.{find_latest_by_user, used}
use spoo.Auth.Otp.{OtpError, verify_otp}
use spoo.Auth.Verify.{Passes, verify_otp-ok, verify_otp-ok_iff}
use spoo.Auth.Passwords.{Missing, validate_account_password}
use spoo.Auth.Accounts.{
  AccountServices, AccountError, weak_password, invalid_email_or_code, with_password, find_by_email,
  update_user, after_code, reset_for, checked, reset_password, State,
}

module _ (service : AccountServices) where
  open service use {users, tokens, hash_token, hash_password, min_length, max_length}
  open users use {get, put, pick-some}

  -- What allows a reset: an account with the address, and its newest unused reset code, which is live,
  -- has fewer than five wrong guesses and matches; and what the reset writes.
  pub record IsAuthorised (email code password : String) (now : ℕ) (s t : State service)
      : Type 0 where
    pub id : ℕ
    pub user : UserDoc
    pub token_id : ℕ
    pub token : VerificationTokenDoc
    pub strong : validate_account_password min_length max_length password ≡ []
    pub stored : get s.0 id ≡ some user
    pub addressed : user.email ≡ email
    pub newest : find_latest_by_user tokens id password_reset s.1 ≡ some (token_id, token)
    pub passes : Passes hash_token token code now
    pub written : t ≡ (
      put id (with_password (hash_password password) user) s.0,
      tokens.put token_id (used now token) s.1,
    )

  -- No account with the address has a reset code that passes.
  abbrev pub IsUnproven : String → String → ℕ → State service → Type 0
  IsUnproven email code now s =
      (id k : ℕ) (u : UserDoc) (d : VerificationTokenDoc)
      → find_by_email service email s.0 ≡ some (id, u)
      → find_latest_by_user tokens id password_reset s.1 ≡ some (k, d)
      → Passes hash_token d code now
      → ⊥

  -- What the caller of a reset learns, and what has changed.
  abbrev pub Outcome :
      String
      → String
      → String
      → ℕ
      → State service
      → Result AccountError (Unit {0}) × State service
      → Type 0
  Outcome email code password now s (ok done, t) = IsAuthorised email code password now s t
  Outcome email code password now s (err e, t) =
      (t.0 ≡ s.0)
      × ((e ≡ weak_password (validate_account_password min_length max_length password))
            × (t.1 ≡ s.1)
          ⊎ (validate_account_password min_length max_length password ≡ [])
            × (e ≡ invalid_email_or_code)
            × IsUnproven email code now s)

  addressed-email :
      (email : String) (us : users.State) (id : ℕ) (u : UserDoc)
      → find_by_email service email us ≡ some (id, u)
      → (get us id ≡ some u) × (u.email ≡ email)
  unfolding find_by_email
  addressed-email email us id u h =
      let (here, same, _) =
        pick-some ascending (λ k u'. str_eq u'.email email) (λ u'. 0) us id u h in
      (here, (eq_iff u.email email).0 same)

  refused-Passes :
      (id i k : ℕ) (d : VerificationTokenDoc) (code : String) (now : ℕ) (ts : tokens.State)
      (e : OtpError)
      → id ≡ i
      → find_latest_by_user tokens i password_reset ts ≡ some (k, d)
      → (verify_otp hash_token tokens id code password_reset now ts).0 ≡ err e
      → Passes hash_token d code now
      → ⊥
  refused-Passes id i k d code now ts e same newest refused passes =
      let accepted =
        (verify_otp-ok_iff hash_token tokens i code password_reset now ts k d newest).1 passes in
      let moved =
        ap (λ j. (verify_otp hash_token tokens j code password_reset now ts).0) same
        ∙ ap (λ r. r.0) accepted in
      ground (arith, refused, moved)

  reset_for-Outcome :
      (o : Option (ℕ × UserDoc)) (email code password : String) (now : ℕ) (us : users.State)
      (ts : tokens.State)
      → find_by_email service email us ≡ o
      → validate_account_password min_length max_length password ≡ []
      → Outcome email code password now (us, ts) (reset_for service o code password now (us, ts))
  unfolding reset_for after_code update_user
  reset_for-Outcome none email code password now us ts h strong =
      (refl, inr (strong, refl, λ i k u d found. absurd (ground (arith, h, found))))
  reset_for-Outcome (some (id, u)) email code password now us ts h strong =
      elim (Result-cases (verify_otp hash_token tokens id code password_reset now ts).0) [
        | inl (e, refused) ↦ rw refused (
          refl,
          inr (
            strong,
            refl,
            λ i k v t found newest passes.
                refused-Passes id i k t code now ts e
                  (ap {B = ℕ} (λ (o : Option (ℕ × UserDoc)). elim o [ none ↦ 0 | some x ↦ x.0 ])
                    (sym h ∙ found))
                  newest refused passes,
          ),
        )
        | inr (passed, accepted) ↦
            let (here, same) = addressed-email email us id u h in
            let (k, d, newest, passes, spent) =
              verify_otp-ok hash_token tokens id code password_reset now ts accepted in
            let matched =
              find_and_update-match users id (λ u'. true) (with_password (hash_password password))
                us u here refl in
            rw (accepted, matched, spent)
              (record {
                id = id;
                user = u;
                token_id = k;
                token = d;
                strong = strong;
                stored = here;
                addressed = same;
                newest = newest;
                passes = passes;
                written = refl;
              })
      ]

  -- A reset writes a password only if it lacks nothing, there is an account with the address, and the
  -- newest unused reset code of that account has not expired, has fewer than five wrong guesses
  -- against it and matches; it then stores the hash of the password, marks the code as used, and
  -- changes nothing else. Otherwise no account is changed, and the answer does not tell a missing
  -- account from a code that does not pass: it says what the password lacks, in which case no code
  -- is looked at, or the same for everything else, in which case no code passes.
  pub reset_password-Outcome :
      (email code password : String) (now : ℕ) (s : State service)
      → Outcome email code password now s (reset_password service email code password now s)
  unfolding reset_password
  reset_password-Outcome email code password now (us, ts) =
      by_missing (validate_account_password min_length max_length password) refl
    where
      by_missing :
          (missing : List Missing)
          → validate_account_password min_length max_length password ≡ missing
          → Outcome email code password now
              (us, ts)
              (checked service missing
                (reset_for service (find_by_email service email us) code password now (us, ts))
                (us, ts))
      by_missing [] strong =
          reset_for-Outcome (find_by_email service email us) email code password now us ts refl
            strong
      by_missing (m ∷ ms) weak = (refl, inl (ap weak_password (sym weak), refl))
