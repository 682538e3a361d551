-- ===== src/Auth/Verify.antt =====
-- What a verification accepts and what it writes.
use spoo.Base.{
  ℕ, ◌<◌, String, ◌≡◌, ◌↔◌, ◌⊎◌, ap, true, not, none, some, ok, err, inl, inr, arith, is_none,
  Option-cases, Bool-cases, leb, str_eq, eq_iff, if◌then◌else◌,
}
use spoo.Base.Collection.{Collection, find_and_update-match, descending}
use spoo.Auth.{VerificationTokenDoc, TokenType}
use spoo.Auth.Tokens.{
  consume_if_unused, increment_attempts, find_latest_by_user, is_consumable, is_open, used,
  created_key,
}
use spoo.Auth.Otp.{check_token, verify_otp, max_verification_attempts, expired, too_many_attempts}

-- The token passes.
abbrev pub Passes : (String → String) → VerificationTokenDoc → String → ℕ → Type 0
Passes hash_token d code now =
    (now < d.expires_at)
    × (d.attempts < max_verification_attempts)
    × (d.token_hash ≡ hash_token code)

module _ (hash_token : String → String) (db : Collection ℕ VerificationTokenDoc) where
  open db use {State, get, put, pick, pick-some, get-put_self}

  -- The token that a verification looks at is there and unused.
  pub latest-open :
      (user : ℕ) (type : TokenType) (s : State) (k : ℕ) (d : VerificationTokenDoc)
      → find_latest_by_user db user type s ≡ some (k, d)
      → (get s k ≡ some d) × (d.used_at ≡ none)
  unfolding find_latest_by_user
  latest-open user type s k d h =
      let (here, open_, _) =
        pick-some descending (λ k d. is_open user type d) created_key s k d h in
      (here, ground arith)

  consume-live :
      (k now : ℕ) (s : State) (d : VerificationTokenDoc)
      → get s k ≡ some d
      → d.used_at ≡ none
      → now < d.expires_at
      → consume_if_unused db k now s ≡ (true, put k (used now d) s)
  unfolding consume_if_unused
  consume-live k now s d here unused live =
      let e = find_and_update-match db k (is_consumable now) (used now) s d here (ground arith) in
      ap (λ r. (not (is_none (r.0)), r.1)) e

  check_token-Passes :
      (k now : ℕ) (d : VerificationTokenDoc) (code : String) (s : State)
      → get s k ≡ some d
      → d.used_at ≡ none
      → Passes hash_token d code now
      → check_token hash_token db (k, d) code now s ≡ (ok tt, put k (used now d) s)
  unfolding check_token
  check_token-Passes k now d code s here unused (live, few, same) =
      ground (
        arith,
        consume-live k now s d here unused live,
        eq_iff d.token_hash (hash_token code),
        same,
      )

  check_token-ok :
      (k now : ℕ) (d : VerificationTokenDoc) (code : String) (s : State)
      → (check_token hash_token db (k, d) code now s).0 ≡ ok tt
      → Passes hash_token d code now
  unfolding check_token
  check_token-ok k now d code s h =
      (ground arith, ground arith, (eq_iff d.token_hash (hash_token code)).0 (ground arith))

  -- A verification that no other write comes into succeeds exactly if the newest unused token of the user and type has not expired,
  -- has fewer than five wrong guesses against it, and holds the hash of the code; it then marks that
  -- token as used and changes nothing else.
  pub verify_otp-ok_iff :
      (user : ℕ) (code : String) (type : TokenType) (now : ℕ) (s : State) (k : ℕ)
      (d : VerificationTokenDoc)
      → find_latest_by_user db user type s ≡ some (k, d)
      → (verify_otp hash_token db user code type now s ≡ (ok tt, put k (used now d) s))
        ↔ Passes hash_token d code now
  unfolding verify_otp
  verify_otp-ok_iff user code type now s k d found =
      let (here, unused) = latest-open user type s k d found in
      (
        λ e. check_token-ok k now d code s (ground (arith, found, e)),
        λ p. ground (arith, found, check_token-Passes k now d code s here unused p),
      )

  -- What a success says, of any user and type.
  pub verify_otp-ok :
      (user : ℕ) (code : String) (type : TokenType) (now : ℕ) (s : State)
      → (verify_otp hash_token db user code type now s).0 ≡ ok tt
      → (k : ℕ) × (d : VerificationTokenDoc) × (find_latest_by_user db user type s ≡ some (k, d))
        × Passes hash_token d code now
        × ((verify_otp hash_token db user code type now s).1 ≡ put k (used now d) s)
  unfolding verify_otp
  verify_otp-ok user code type now s h = elim (Option-cases (find_latest_by_user db user type s)) [
    | inl absent ↦ absurd (ground (arith, absent, h))
    | inr ((k, d), found) ↦
        let (here, unused) = latest-open user type s k d found in
        let passes = check_token-ok k now d code s (ground (arith, found, h)) in
        (
          k,
          d,
          found,
          passes,
          ground (arith, found, check_token-Passes k now d code s here unused passes),
        )
  ]

  -- The contents after the checks.
  pub check_token-contents :
      (k now : ℕ) (d : VerificationTokenDoc) (code : String) (s : State)
      → ((check_token hash_token db (k, d) code now s).1 ≡ s)
        ⊎ ((check_token hash_token db (k, d) code now s).1 ≡ (consume_if_unused db k now s).1)
        ⊎ ((d.attempts < max_verification_attempts)
            × ((check_token hash_token db (k, d) code now s).1 ≡ (increment_attempts db k s).1))
  unfolding check_token
  check_token-contents k now d code s = elim (Bool-cases (leb d.expires_at now)) [
    | inl late ↦ inl (ground (arith, late))
    | inr live ↦ elim (Bool-cases (leb max_verification_attempts d.attempts)) [
      | inl many ↦ inl (ground (arith, live, many))
      | inr few ↦ elim (Bool-cases (str_eq d.token_hash (hash_token code))) [
        | inl same ↦ inr (inl (ground (arith, live, few, same)))
        | inr other ↦ inr (inr (ground arith, ground (arith, live, few, other)))
      ]
    ]
  ]

  -- A token with five wrong guesses against it is dead: whatever the code, a verification that looks
  -- at it fails and writes nothing.
  pub verify_otp-exhausted :
      (user : ℕ) (code : String) (type : TokenType) (now : ℕ) (s : State) (k : ℕ)
      (d : VerificationTokenDoc)
      → find_latest_by_user db user type s ≡ some (k, d)
      → d.attempts ≡ max_verification_attempts
      → verify_otp hash_token db user code type now s
        ≡ (err (if leb d.expires_at now then expired else too_many_attempts), s)
  unfolding verify_otp check_token
  verify_otp-exhausted user code type now s k d found many = ground (arith, found, many)
