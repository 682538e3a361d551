-- ===== src/Auth/Issued.antt =====
-- services/auth/device.py: which users and apps tokens are issued to, and with which scopes.
use spoo.Base.{
  ℕ, String, Bool, true, false, Option, none, some, List, Result, ok, err, str_eq, eq_iff, ◌≡◌, ◌≢◌,
  ◌⊎◌, inl, inr, refl, ap, arith, Option-cases, Bool-cases,
}
use spoo.Base.Collection.{ascending}
use spoo.Auth.{UserDoc, UserStatus, active, inactive, pending_deletion, erasing}
use spoo.Auth.Device.{
  DeviceAuthService, AppGrantDoc, AuthenticationError, AuthResult, access_revoked, is_active,
  is_granted, effective_scopes, find_active_grant, with_grant, issue, with_user,
}

module _ (service : DeviceAuthService) where
  open service use {users, grants, tokens, app_registry, hash_token, s256}

  -- What tokens are issued with, for the app of a code: with an app, the scopes of an active grant of
  -- that user; without one, no limit.
  abbrev pub Scoped : ℕ → Option String → Option (List String) → grants.State → Type 0
  Scoped user none scopes gs = scopes ≡ none
  Scoped user (some app_id) scopes gs =
      ((app_id ≡ "") × (scopes ≡ none))
      ⊎ ((k : ℕ) × (g : AppGrantDoc) × (grants.get gs k ≡ some g)
          × (g.user_id ≡ user)
          × (g.app_id ≡ app_id)
          × (g.revoked_at ≡ none)
          × (scopes ≡ effective_scopes g (app_registry g.app_id)))

  -- The user has no grant for the app that is not revoked.
  abbrev pub NoGrant : ℕ → String → grants.State → Type 0
  NoGrant user app_id gs =
      (k : ℕ) (g : AppGrantDoc)
      → grants.get gs k ≡ some g
      → g.user_id ≡ user
      → g.app_id ≡ app_id
      → g.revoked_at ≢ none

  -- Why no tokens are issued: the user is missing or not active, or the grant is.
  abbrev pub Denied :
      AuthenticationError
      → Option UserDoc
      → ℕ
      → Option String
      → grants.State
      → AuthenticationError
      → Type 0
  Denied refusal o user app_id gs e =
      ((e ≡ refusal) × ((u : UserDoc) → o ≡ some u → u.status ≢ active))
      ⊎ ((a : String) × (app_id ≡ some a) × (a ≢ "") × (e ≡ access_revoked) × NoGrant user a gs)

  is_active-eq : (s : UserStatus) → is_active s ≡ true → s ≡ active
  is_active-eq active h = refl
  is_active-eq inactive h = cc
  is_active-eq pending_deletion h = cc
  is_active-eq erasing h = cc

  off : (u v : UserDoc) → is_active u.status ≡ false → some u ≡ some v → v.status ≢ active
  off u v n same on = ground (
    arith,
    n,
    ap {B = Bool} (λ (o : Option UserDoc). elim o [ none ↦ false | some w ↦ is_active w.status ])
        same,
    ap is_active on,
  )

  -- What a request for tokens of this user and app answers, in either case.
  abbrev pub Issues :
      AuthenticationError
      → Option UserDoc
      → ℕ
      → Option String
      → grants.State
      → Result AuthenticationError AuthResult × grants.State
      → Type 0
  Issues refusal o user app_id gs (err e, gs') = (gs' ≡ gs) × Denied refusal o user app_id gs e
  Issues refusal o user app_id gs (ok r, gs') =
      (o ≡ some r.user)
      × (r.user.status ≡ active)
      × (r.app_id ≡ app_id)
      × Scoped user app_id r.scopes gs

  granted :
      (refusal : AuthenticationError) (u : UserDoc) (user : ℕ) (app_id : String) (up : Bool)
      (now : ℕ) (gs : grants.State)
      → u.status ≡ active
      → app_id ≢ ""
      → Issues refusal
          (some u)
          user
          (some app_id)
          gs
          (with_grant service (find_active_grant service user app_id gs) u user app_id up now gs)
  unfolding with_grant find_active_grant
  granted refusal u user app_id up now gs on named =
      elim (Option-cases
        (grants.pick ascending (λ k g. is_granted service user app_id g) (λ g. 0) gs)) [
          | inl nothing ↦ rw nothing (
            refl,
            inr (
              app_id,
              refl,
              named,
              refl,
              λ k g here owner app standing. absurd (
                  ground (
                    arith,
                    grants.pick-none ascending (λ k' g'. is_granted service user app_id g')
                        (λ g'. 0) gs nothing k g here,
                    eq_iff g.app_id app_id,
                  )),
            ),
          )
          | inr ((k, g), found) ↦
              let (here, matches, _) =
                grants.pick-some ascending (λ k' g'. is_granted service user app_id g') (λ g'. 0) gs
                  k g found in
              rw found (
                refl,
                on,
                refl,
                inr (
                  k,
                  g,
                  here,
                  ground (arith, matches, eq_iff g.app_id app_id),
                  ground (arith, matches, eq_iff g.app_id app_id),
                  ground (arith, matches),
                  refl,
                ),
              )
        ]

  issue-Issues :
      (refusal : AuthenticationError) (u : UserDoc) (user : ℕ) (app_id : Option String) (up : Bool)
      (now : ℕ) (gs : grants.State)
      → u.status ≡ active
      → Issues refusal (some u) user app_id gs (issue service u user app_id up now gs)
  unfolding issue
  issue-Issues refusal u user none up now gs on = (refl, on, refl, refl)
  issue-Issues refusal u user (some app_id) up now gs on = elim (Bool-cases (str_eq app_id "")) [
    | inl t ↦ rw t (refl, on, refl, inl ((eq_iff app_id "").0 t, refl))
    | inr n ↦ rw n (
        granted refusal u user app_id up now gs on
          (λ same. ground (arith, n, (eq_iff app_id "").1 same)))
  ]

  pub with_user-Issues :
      (refusal : AuthenticationError) (o : Option UserDoc) (user : ℕ) (app_id : Option String)
      (up : Bool) (now : ℕ) (gs : grants.State)
      → Issues refusal o user app_id gs (with_user service refusal o user app_id up now gs)
  unfolding with_user
  with_user-Issues refusal none user app_id up now gs = (refl, inl (refl, λ u. cc))
  with_user-Issues refusal (some u) user app_id up now gs = elim (Bool-cases (is_active u.status)) [
    | inl t ↦ rw t (issue-Issues refusal u user app_id up now gs (is_active-eq u.status t))
    | inr n ↦ rw n (refl, inl (refl, λ v same. off u v n same))
  ]
