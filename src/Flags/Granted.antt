-- ===== src/Flags/Granted.antt =====
-- services/feature_flag_service.py: its answers are those of the stored flag, read apart from the code.
use spoo.Base.{
  ℕ, String, Bool, true, false, Option, none, some, List, [], ◌∷◌, Result, ok, err, ◌≡◌, ◌⊎◌, inl,
  inr, refl, sym, subst, if◌then◌else◌,
}
use spoo.Base.Collection.{Collection}
use spoo.Base.KeyValue.{KeyValue}
use spoo.Flags.{FeatureFlagDoc, CurrentUser, FeatureState, enabled_state, hidden, Digest, decide}
use spoo.Flags.Stored.{StoredFlag}
use spoo.Flags.Cache.{Stored, FeatureFlagCache}
use spoo.Flags.Service.{
  ReadError, exposed_features, FlagError, feature_state, find_by_name, lookup, is_enabled, states,
  states_for, require, not_found, forbidden,
}
use spoo.Flags.Admits.{Admits, decide-Admits}
use spoo.Flags.Agrees.{Agrees, lookup-Finds}

module _ (flags : Collection ℕ StoredFlag) (redis : KeyValue String Stored)
    (cache : FeatureFlagCache) (lower : String → String) (blake2b : Digest) where
  -- The flag is registered by a document that passes its validators, on, and its rollout lets the
  -- caller in.
  abbrev pub Granted : String → Option CurrentUser → flags.State → Type 0
  Granted name user s =
      (flag : FeatureFlagDoc) × (find_by_name flags lower name s ≡ ok (some flag))
      × Admits lower blake2b flag user

  -- What an answer means: no answer of true without the grant, and no grant is refused while
  -- MongoDB answers.
  abbrev pub Means : Bool → String → Option CurrentUser → Bool → flags.State → Type 0
  Means answer name user up s =
      (answer ≡ true → Granted name user s) × (up ≡ true → Granted name user s → answer ≡ true)

  decide-Means :
      (found : Option FeatureFlagDoc) (name : String) (user : Option CurrentUser) (up : Bool)
      (s : flags.State)
      → (ok found ≡ find_by_name flags lower name s)
        ⊎ ((found ≡ none)
            × ((up ≡ false) ⊎ ((e : ReadError) × (find_by_name flags lower name s ≡ err e))))
      → Means (decide lower blake2b found user) name user up s
  unfolding decide
  decide-Means none name user up s where_from = (
    λ h. cc,
    λ answers (flag, registered, lets_in). elim where_from [
      | inl same ↦ cc (same, registered)
      | inr (nothing, inl down) ↦ cc (down, answers)
      | inr (nothing, inr (e, refused)) ↦ cc (refused, registered)
    ],
  )
  decide-Means (some flag) name user up s (inl same) = (
    λ h. (flag, sym same, (decide-Admits lower blake2b flag user).0 h),
    λ answers (flag', registered, lets_in).
        let one : flag' ≡ flag = cc (registered, same) in
        (decide-Admits lower blake2b flag user).1
          (subst (λ x. Admits lower blake2b x user) one lets_in),
  )
  decide-Means (some flag) name user up s (inr (nothing, why)) = cc nothing

  is_enabled-Means :
      (name : String) (user : Option CurrentUser) (up : Bool) (s : flags.State) (r : redis.State)
      → Agrees flags redis cache lower s r
      → Means (is_enabled flags redis cache lower blake2b name user up s r).0 name user up s
        × Agrees flags redis cache lower s
            (is_enabled flags redis cache lower blake2b name user up s r).1
  unfolding is_enabled
  is_enabled-Means name user up s r before =
      let (where_from, after) = lookup-Finds flags redis cache lower blake2b name up s r before in
      (
        decide-Means (lookup flags redis cache lower blake2b name up s r).0 name user up s
            where_from,
        after,
      )

  -- What a client is shown of one feature, in the order of the names that were asked for.
  abbrev pub Shows :
      List (String × FeatureState) → List String → Option CurrentUser → Bool → flags.State → Type 0
  Shows [] [] user up s = Unit
  Shows [] (name ∷ names) user up s = ⊥
  Shows ((name, state) ∷ shown) [] user up s = ⊥
  Shows ((name, state) ∷ shown) (asked ∷ names) user up s =
      (name ≡ asked)
      × (((state ≡ enabled_state) × Granted asked user s)
          ⊎ ((state ≡ hidden) × (up ≡ true → Granted asked user s → ⊥)))
      × Shows shown names user up s

  shown :
      (answer : Bool) (name : String) (user : Option CurrentUser) (up : Bool) (s : flags.State)
      → Means answer name user up s
      → ((feature_state answer ≡ enabled_state) × Granted name user s)
        ⊎ ((feature_state answer ≡ hidden) × (up ≡ true → Granted name user s → ⊥))
  shown true name user up s (sound, complete) = inl (refl, sound refl)
  shown false name user up s (sound, complete) =
      inr (refl, λ answers granted. cc (complete answers granted))

  states-Shows :
      (names : List String) (user : Option CurrentUser) (up : Bool) (s : flags.State)
      (r : redis.State)
      → Agrees flags redis cache lower s r
      → Shows (states flags redis cache lower blake2b names user up s r).0 names user up s
        × Agrees flags redis cache lower s
            (states flags redis cache lower blake2b names user up s r).1
  unfolding states
  states-Shows [] user up s r before = (tt, before)
  states-Shows (name ∷ names) user up s r before =
      let (answer, r') = is_enabled flags redis cache lower blake2b name user up s r in
      let (means, after) = is_enabled-Means name user up s r before in
      let (rest, last) = states-Shows names user up s r' after in
      ((refl, shown answer name user up s means, rest), last)

  -- The features that a client is shown, over a cache that agrees with the collection: exactly the
  -- exposed names, in order, each enabled with a grant (the flag is registered, on, and its rollout
  -- lets the caller in) or else hidden, never locked; while MongoDB answers, no feature with a grant
  -- is hidden. The cache stays in agreement.
  pub states_for-Shows :
      (user : Option CurrentUser) (up : Bool) (s : flags.State) (r : redis.State)
      → Agrees flags redis cache lower s r
      → Shows (states_for flags redis cache lower blake2b user up s r).0 exposed_features user up s
        × Agrees flags redis cache lower s
            (states_for flags redis cache lower blake2b user up s r).1
  unfolding states_for
  states_for-Shows user up s r before = states-Shows exposed_features user up s r before

  -- How a guarded endpoint goes on: past the guard only with the grant; else with the error that
  -- was asked for, and not to a caller with the grant while MongoDB answers.
  abbrev pub Guards :
      Result FlagError (Unit {0}) → String → Option CurrentUser → Bool → Bool → flags.State → Type 0
  Guards (ok passed) name user hide up s = Granted name user s
  Guards (err e) name user hide up s =
      (e ≡ (if hide then not_found else forbidden name)) × (up ≡ true → Granted name user s → ⊥)

  guarded :
      (answer : Bool) (name : String) (user : Option CurrentUser) (hide up : Bool) (s : flags.State)
      → Means answer name user up s
      → Guards
          (if answer then ok tt else if hide then err not_found else err (forbidden name))
          name
          user
          hide
          up
          s
  guarded true name user hide up s (sound, complete) = sound refl
  guarded false name user true up s (sound, complete) =
      (refl, λ answers granted. cc (complete answers granted))
  guarded false name user false up s (sound, complete) =
      (refl, λ answers granted. cc (complete answers granted))

  -- A guard on a feature, over a cache that agrees with the collection: `require` passes only with a
  -- grant (the flag is registered, on, and its rollout lets the caller in), whatever MongoDB and
  -- Redis do; else it raises a 404 where the feature is to stay concealed and a 403 where not, and
  -- never to a caller with a grant while MongoDB answers. The cache stays in agreement.
  pub require-Guards :
      (name : String) (user : Option CurrentUser) (hide up : Bool) (s : flags.State)
      (r : redis.State)
      → Agrees flags redis cache lower s r
      → Guards (require flags redis cache lower blake2b name user hide up s r).0 name user hide up s
        × Agrees flags redis cache lower s
            (require flags redis cache lower blake2b name user hide up s r).1
  unfolding require
  require-Guards name user hide up s r before =
      let (means, after) = is_enabled-Means name user up s r before in
      (
        guarded (is_enabled flags redis cache lower blake2b name user up s r).0 name user hide up s
            means,
        after,
      )
