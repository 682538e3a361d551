-- ===== src/Auth/Exchanged.antt =====
-- services/auth/device.py: what the exchange of a code requires.
use spoo.Base.{
  ℕ, String, Bool, true, false, not, Option, none, some, Result, ok, err, str_eq, eq_iff, ◌≡◌, ◌≢◌,
  ◌⊎◌, inl, inr, refl, sym, ap, subst, arith, Bool-cases, and-eq-true,
}
use spoo.Auth.{VerificationTokenDoc, active, device_auth}
use spoo.Auth.Tokens.{consume_by_hash, is_live, used}
use spoo.Auth.Consume.{consume-cases}
use spoo.Auth.Issued.{Scoped, Denied, Issues, with_user-Issues}
use spoo.Auth.Device.{
  DeviceAuthService, invalid_code, AuthenticationError, AuthResult, user_not_found_or_inactive,
  with_user, is_bound, with_token, exchange_device_code,
}

module _ (service : DeviceAuthService) where
  open service use {users, grants, tokens, app_registry, hash_token, s256}

  -- What an answer with tokens requires of what was stored before.
  pub record IsAuthorised (raw verifier : String) (now : ℕ) (us : users.State) (gs : grants.State)
      (ts ts' : tokens.State) (r : AuthResult) : Type 0 where
    pub token_id : ℕ
    pub token : VerificationTokenDoc
    pub challenge : String
    pub stored : tokens.get ts token_id ≡ some token
    pub live : is_live (hash_token raw) device_auth now token ≡ true
    pub spent : ts' ≡ tokens.put token_id (used now token) ts
    pub bound : token.code_challenge ≡ some challenge
    pub proven : s256 verifier ≡ challenge
    pub user : users.get us token.user_id ≡ some r.user
    pub status : r.user.status ≡ active
    pub app : r.app_id ≡ token.app_id
    pub scoped : Scoped service token.user_id token.app_id r.scopes gs

  bound-challenge :
      (o : Option String) (verifier : String)
      → is_bound service o verifier ≡ true
      → (challenge : String) × (o ≡ some challenge) × (s256 verifier ≡ challenge)
  bound-challenge none verifier h = cc
  bound-challenge (some challenge) verifier h = (
    challenge,
    refl,
    (eq_iff (s256 verifier) challenge).0
        (and-eq-true (not (str_eq challenge "")) (str_eq (s256 verifier) challenge) h).1,
  )

  -- The verifier does not show the challenge that the code is bound to.
  abbrev pub Unproven : Option String → String → Type 0
  Unproven bound verifier =
      (challenge : String) → bound ≡ some challenge → (challenge ≡ "") ⊎ (s256 verifier ≢ challenge)

  -- What a refusal says: no code is live; or one was, is spent, and the verifier, the user or the
  -- grant is at fault.
  abbrev pub Refused :
      String
      → String
      → ℕ
      → users.State
      → grants.State
      → tokens.State
      → tokens.State
      → AuthenticationError
      → Type 0
  Refused raw verifier now us gs ts ts' e =
      (((k : ℕ) (d : VerificationTokenDoc)
          → tokens.get ts k ≡ some d
          → is_live (hash_token raw) device_auth now d ≡ false)
        × (e ≡ invalid_code)
        × (ts' ≡ ts))
      ⊎ ((k : ℕ) × (d : VerificationTokenDoc) × (tokens.get ts k ≡ some d)
          × (is_live (hash_token raw) device_auth now d ≡ true)
          × (ts' ≡ tokens.put k (used now d) ts)
          × ((e ≡ invalid_code) × Unproven d.code_challenge verifier
              ⊎ Denied service user_not_found_or_inactive (users.get us d.user_id) d.user_id
                  d.app_id gs e))

  unproven :
      (o : Option String) (verifier : String)
      → is_bound service o verifier ≡ false
      → Unproven o verifier
  unproven o verifier h challenge same = elim (Bool-cases (str_eq challenge "")) [
    | inl t ↦ inl ((eq_iff challenge "").0 t)
    | inr n ↦ inr (λ e. ground (
      arith,
      h,
      ap (λ b. is_bound service b verifier) same,
      n,
      (eq_iff (s256 verifier) challenge).1 e,
    ))
  ]

  -- What an exchange answers.
  abbrev pub Outcome :
      String
      → String
      → ℕ
      → users.State
      → grants.State × tokens.State
      → Result AuthenticationError AuthResult × grants.State × tokens.State
      → Type 0
  Outcome raw verifier now us (gs, ts) (err e, gs', ts') =
      (gs' ≡ gs) × Refused raw verifier now us gs ts ts' e
  Outcome raw verifier now us (gs, ts) (ok r, gs', ts') =
      IsAuthorised raw verifier now us gs ts ts' r

  authorised :
      (raw verifier : String) (now : ℕ) (us : users.State) (gs : grants.State) (ts : tokens.State)
      (k : ℕ) (d : VerificationTokenDoc)
      (answer : Result AuthenticationError AuthResult × grants.State)
      → tokens.get ts k ≡ some d
      → is_live (hash_token raw) device_auth now d ≡ true
      → is_bound service d.code_challenge verifier ≡ true
      → Issues service user_not_found_or_inactive
          (users.get us d.user_id)
          d.user_id
          d.app_id
          gs
          answer
      → Outcome raw verifier now us (gs, ts) (answer.0, answer.1, tokens.put k (used now d) ts)
  authorised raw verifier now us gs ts k d (err e, gs') here live proof_ (same, why) =
      (same, inr (k, d, here, live, refl, inr why))
  authorised raw verifier now us gs ts k d (ok r, gs') here live proof_ (found, on, app, scoped) =
      let (challenge, bound, proven) = bound-challenge d.code_challenge verifier proof_ in
      record {
        token_id = k;
        token = d;
        challenge = challenge;
        stored = here;
        live = live;
        spent = refl;
        bound = bound;
        proven = proven;
        user = found;
        status = on;
        app = app;
        scoped = scoped;
      }

  -- An exchange, by what the consumption of the code answers.
  pub exchange-consume :
      (o : Option (ℕ × VerificationTokenDoc)) (raw verifier : String) (up : Bool) (now : ℕ)
      (us : users.State) (gs : grants.State) (ts ts' : tokens.State)
      → consume_by_hash tokens (hash_token raw) device_auth now ts ≡ (o, ts')
      → exchange_device_code service raw verifier up now us (gs, ts) ≡ (
        (with_token service o verifier up now us gs).0,
        (with_token service o verifier up now us gs).1,
        ts',
      )
  unfolding exchange_device_code
  exchange-consume o raw verifier up now us gs ts ts' h =
      ap
        (λ r. (
          (with_token service r.0 verifier up now us gs).0,
          (with_token service r.0 verifier up now us gs).1,
          r.1,
        ))
        h

  with_token-Outcome :
      (k : ℕ) (d : VerificationTokenDoc) (raw verifier : String) (up : Bool) (now : ℕ)
      (us : users.State) (gs : grants.State) (ts : tokens.State)
      → tokens.get ts k ≡ some d
      → is_live (hash_token raw) device_auth now d ≡ true
      → Outcome raw verifier now us
          (gs, ts)
          (
            (with_token service (some (k, d)) verifier up now us gs).0,
            (with_token service (some (k, d)) verifier up now us gs).1,
            tokens.put k (used now d) ts,
          )
  unfolding with_token
  with_token-Outcome k d raw verifier up now us gs ts here live =
      elim (Bool-cases (is_bound service d.code_challenge verifier)) [
        | inr n ↦
            rw n
              (refl, inr (k, d, here, live, refl, inl (refl, unproven d.code_challenge verifier n)))
        | inl t ↦ rw t (
            authorised raw verifier now us gs ts k d
              (with_user service user_not_found_or_inactive (users.get us d.user_id) d.user_id
                d.app_id up now gs)
              here live t
              (with_user-Issues service user_not_found_or_inactive (users.get us d.user_id)
                d.user_id d.app_id up now gs))
      ]

  -- An exchange gives tokens only on a live code, which it spends, and its S256 challenge shown by the
  -- verifier, to the code's user, who is active, for the code's app, and with the scopes of an active
  -- grant of that user for the app, or without limit if the code names no app. Otherwise it leaves the
  -- grants as they are, and says why: the answer is the same for a code that is not live and for a
  -- verifier that does not show the challenge, and the code is spent in every case but the first.
  pub exchange-Outcome :
      (raw verifier : String) (up : Bool) (now : ℕ) (us : users.State)
      (s : grants.State × tokens.State)
      → Outcome raw verifier now us s (exchange_device_code service raw verifier up now us s)
  unfolding with_token
  exchange-Outcome raw verifier up now us (gs, ts) =
      elim (consume-cases tokens (hash_token raw) device_auth now ts) [
        | inl (absent, nothing) ↦
            subst (Outcome raw verifier now us (gs, ts))
              (sym (exchange-consume none raw verifier up now us gs ts ts nothing))
              (refl, inl (absent, refl, refl))
        | inr (k, d, here, live, consumed) ↦
            subst (Outcome raw verifier now us (gs, ts))
              (sym (
                exchange-consume (some (k, d)) raw verifier up now us gs ts
                  (tokens.put k (used now d) ts) consumed))
              (with_token-Outcome k d raw verifier up now us gs ts here live)
      ]
