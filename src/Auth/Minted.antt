-- ===== src/Auth/Minted.antt =====
-- services/auth/device.py: a code that was just made can be exchanged.
use spoo.Base.{
  some-injective, ℕ, ◌+◌, ◌<◌, String, Bool, true, none, some, Result, ok, err, str_eq, eq_iff, ◌≡◌,
  ◌≢◌, ◌⊎◌, inl, inr, refl, sym, ap, ◌∙◌, arith, Bool-cases,
}
use spoo.Base.Collection.{delete_many-before}
use spoo.Auth.{VerificationTokenDoc, UserDoc, active, device_auth}
use spoo.Auth.Tokens.{create, delete_by_user, is_live, is_of_user}
use spoo.Auth.Device.{
  invalid_code, user_not_found_or_inactive, DeviceAuthService, AppGrantDoc, AuthenticationError,
  AuthResult, device_auth_expiry_seconds, device_token, create_device_auth_code,
  exchange_device_code,
}
use spoo.Auth.Issued.{Denied}
use spoo.Auth.Exchanged.{Unproven, Outcome, exchange-Outcome}
use spoo.Auth.Once.{found-put}

module _ (service : DeviceAuthService) where
  open service use {users, grants, tokens, app_registry, hash_token, s256}

  -- No stored code has the hash.
  abbrev pub IsNew : String → tokens.State → Type 0
  IsNew hash ts =
      (j : ℕ) (d : VerificationTokenDoc) → tokens.get ts j ≡ some d → d.token_hash ≢ hash

  -- What the exchange needs beside the code.
  pub record MayHave (user : ℕ) (app_id : String) (us : users.State) (gs : grants.State)
      : Type 0 where
    pub holder : UserDoc
    pub known : users.get us user ≡ some holder
    pub status : holder.status ≡ active
    pub grant_id : ℕ
    pub grant : AppGrantDoc
    pub granted : grants.get gs grant_id ≡ some grant
    pub owner : grant.user_id ≡ user
    pub app : grant.app_id ≡ app_id
    pub standing : grant.revoked_at ≡ none
    pub named : app_id ≢ ""

  module _ (user id : ℕ) (email raw verifier app_id : String) (now later : ℕ) (us : users.State)
      (gs : grants.State) (ts : tokens.State) where
    abbrev made : String × tokens.State
    made = create_device_auth_code service user email (s256 verifier) (some app_id) raw id now ts

    abbrev token : VerificationTokenDoc
    token = device_token service user email raw (s256 verifier) (some app_id) now

    -- The new code is the only one that the raw code finds.
    only :
        (j : ℕ) (d : VerificationTokenDoc)
        → IsNew (hash_token raw) ts
        → tokens.get made.1 j ≡ some d
        → is_live (hash_token raw) device_auth later d ≡ true
        → d ≡ token
    unfolding create_device_auth_code create delete_by_user
    only j d new here live =
        elim (found-put tokens id j token d
          (tokens.delete_many (is_of_user user (some device_auth) (some app_id)) ts) here) [
            | inl same ↦ sym same
            | inr (apart, before) ↦
                let stored =
                  delete_many-before tokens (is_of_user user (some device_auth) (some app_id)) j ts
                    d before in
                absurd
                  (new j d stored ((eq_iff d.token_hash (hash_token raw)).0 (ground (arith, live))))
          ]

    found : tokens.get made.1 id ≡ some token
    unfolding create_device_auth_code create delete_by_user
    found = tokens.get-put_self id token _

    for_app : app_id ≢ "" → token.app_id ≡ some app_id
    for_app named = elim (Bool-cases (str_eq app_id "")) [
      | inl empty ↦ absurd (named ((eq_iff app_id "").0 empty))
      | inr full ↦ rw full refl
    ]

    -- The code, the verifier, the user and the grant are not at fault.
    faultless :
        (e : AuthenticationError) (d : VerificationTokenDoc)
        → s256 verifier ≢ ""
        → MayHave user app_id us gs
        → d ≡ token
        → (e ≡ invalid_code) × Unproven service d.code_challenge verifier
          ⊎ Denied service user_not_found_or_inactive
              (users.get us d.user_id)
              d.user_id
              d.app_id
              gs
              e
        → ⊥
    faultless e d shown m same (inl (_, unproven)) =
        elim (unproven (s256 verifier) (ap (λ x. x.code_challenge) same)) [
          | inl empty ↦ shown empty
          | inr other ↦ other refl
        ]
    faultless e d shown m same (inr (inl (_, off))) =
        off m.holder (ap (λ x. users.get us x.user_id) same ∙ m.known) m.status
    faultless e d shown m same (inr (inr (a, named, _, _, lost))) =
        lost m.grant_id m.grant m.granted (m.owner ∙ sym (ap (λ x. x.user_id) same))
          (m.app
            ∙ some-injective app_id a
                (sym (for_app m.named) ∙ sym (ap (λ x. x.app_id) same) ∙ named))
          m.standing

    given :
        (r : Result AuthenticationError AuthResult) (gs' : grants.State) (ts' : tokens.State)
        → later < now + device_auth_expiry_seconds
        → s256 verifier ≢ ""
        → IsNew (hash_token raw) ts
        → (m : MayHave user app_id us gs)
        → Outcome service raw verifier later us (gs, made.1) (r, gs', ts')
        → (answer : AuthResult) × (r ≡ ok answer)
          × (answer.user ≡ m.holder)
          × (answer.app_id ≡ some app_id)
    given (err e) gs' ts' early shown new m (same, inl (absent, _, _)) =
        absurd
          (ground (arith, absent id token found, (eq_iff (hash_token raw) (hash_token raw)).1 refl))
    given (err e) gs' ts' early shown new m (same, inr (j, d, here, live, _, why)) =
        absurd (faultless e d shown m (only j d new here live) why)
    given (ok r) gs' ts' early shown new m o =
        let same = only o.token_id o.token new o.stored o.live in
        (
          r,
          refl,
          some-injective r.user m.holder
              (sym o.user ∙ ap (λ x. users.get us x.user_id) same ∙ m.known),
          o.app ∙ ap (λ x. x.app_id) same ∙ for_app m.named,
        )

    -- A code that a user has just let an app have works: within five minutes of its making, with a
    -- verifier of its challenge, whatever codes were stored if none had its hash, the exchange gives
    -- tokens for that user and app, if the user is active and has a grant for the app that is not
    -- revoked.
    pub create-exchange :
        (up : Bool)
        → later < now + device_auth_expiry_seconds
        → s256 verifier ≢ ""
        → IsNew (hash_token raw) ts
        → (m : MayHave user app_id us gs)
        → (answer : AuthResult) × ((exchange_device_code service
              (create_device_auth_code service user email
                (s256 verifier)
                (some app_id)
                raw
                id
                now
                ts).0
              verifier
              up
              later
              us
              (
                gs,
                (create_device_auth_code service user email
                    (s256 verifier)
                    (some app_id)
                    raw
                    id
                    now
                    ts).1,
              )).0
            ≡ ok answer)
          × (answer.user ≡ m.holder)
          × (answer.app_id ≡ some app_id)
    unfolding create_device_auth_code
    create-exchange up early shown new m =
        let r = exchange_device_code service raw verifier up later us (gs, made.1) in
        given r.0 r.1 r.2 early shown new m
          (exchange-Outcome service raw verifier up later us (gs, made.1))
