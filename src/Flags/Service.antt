-- ===== src/Flags/Service.antt =====
-- services/feature_flag_service.py. Whether MongoDB answers is an argument (`up`); the time does not
-- matter here but to the cache. `states_for` gathers its answers one after the other.
use spoo.Base.{
  ℕ, String, Bool, true, false, Option, none, some, List, [], ◌∷◌, Result, ok, err, str_eq,
  if◌then◌else◌,
}
use spoo.Base.Collection.{Collection, ascending}
use spoo.Base.KeyValue.{KeyValue}
use spoo.Flags.{FeatureFlagDoc, CurrentUser, FeatureState, enabled_state, hidden, Digest, decide}
use spoo.Flags.Stored.{StoredFlag, stored_name, from_mongo}
use spoo.Flags.Cache.{
  Stored, Cached, missed, negative_miss, hit, FeatureFlagCache, get, set, set_negative,
}

-- `EXPOSED_FEATURES`
abbrev pub exposed_features : List String
exposed_features =
    "custom_domains" ∷ "geo_targeting" ∷ "custom_meta_tags" ∷ "ab_testing" ∷ "webhooks"
    ∷ "expired_fallback" ∷ "link_scheduling" ∷ []

-- What `require` raises; the message of a 403 names the feature.
pub data FlagError : Type 0 where
  not_found : FlagError
  forbidden : String → FlagError

abbrev pub feature_state : Bool → FeatureState
feature_state true = enabled_state
feature_state false = hidden

-- What the read of a document raises.
pub data ReadError : Type 0 where
  validation_error : ReadError

module _ (flags : Collection ℕ StoredFlag) (lower : String → String) where
  -- `_find_one`: the document, if there is one, is read by `from_mongo`.
  abbrev pub read : Option (ℕ × StoredFlag) → Result ReadError (Option FeatureFlagDoc)
  read none = ok none
  read (some (id, doc)) = elim (from_mongo lower doc) [
    | none ↦ err validation_error
    | some flag ↦ ok (some flag)
  ]

  -- `find_by_name`, where MongoDB answers
  unfoldable pub find_by_name : String → flags.State → Result ReadError (Option FeatureFlagDoc)
  find_by_name name s = read (flags.pick ascending (λ id d. str_eq (stored_name d) name) (λ d. 0) s)

module _ (flags : Collection ℕ StoredFlag) (redis : KeyValue String Stored)
    (cache : FeatureFlagCache) (lower : String → String) (blake2b : Digest) where
  -- After MongoDB has answered: the cache is filled.
  unfoldable pub filled :
      String → Option FeatureFlagDoc → redis.State → Option FeatureFlagDoc × redis.State
  filled name none r = (none, set_negative redis cache name r)
  filled name (some doc) r = (some doc, set redis cache name doc r)

  -- After the read: an error is taken for a flag that is not there, and not cached.
  unfoldable pub after_read :
      Result ReadError (Option FeatureFlagDoc)
      → String
      → redis.State
      → Option FeatureFlagDoc × redis.State
  unfolding filled
  after_read (err e) name r = (none, r)
  after_read (ok found) name r = filled name found r

  -- After the cache has answered.
  unfoldable pub after_cache :
      Cached → String → Bool → flags.State → redis.State → Option FeatureFlagDoc × redis.State
  unfolding after_read
  after_cache negative_miss name up s r = (none, r)
  after_cache (hit doc) name up s r = (some doc, r)
  after_cache missed name up s r =
      if up then after_read (find_by_name flags lower name s) name r else (none, r)

  -- `_lookup`
  unfoldable pub lookup :
      String → Bool → flags.State → redis.State → Option FeatureFlagDoc × redis.State
  unfolding after_cache
  lookup name up s r = after_cache (get redis cache name r) name up s r

  unfoldable pub is_enabled :
      String → Option CurrentUser → Bool → flags.State → redis.State → Bool × redis.State
  unfolding lookup
  is_enabled name user up s r =
      let (flag, r') = lookup name up s r in (decide lower blake2b flag user, r')

  -- The answers for a list of names, with the cache that each call leaves to the next.
  unfoldable pub states :
      List String
      → Option CurrentUser
      → Bool
      → flags.State
      → redis.State
      → List (String × FeatureState) × redis.State
  unfolding is_enabled
  states [] user up s r = ([], r)
  states (name ∷ names) user up s r =
      let (answer, r') = is_enabled name user up s r in
      let (rest, r'') = states names user up s r' in ((name, feature_state answer) ∷ rest, r'')

  unfoldable pub states_for :
      Option CurrentUser
      → Bool
      → flags.State
      → redis.State
      → List (String × FeatureState) × redis.State
  unfolding states
  states_for user up s r = states exposed_features user up s r

  unfoldable pub require :
      String
      → Option CurrentUser
      → Bool
      → Bool
      → flags.State
      → redis.State
      → Result FlagError (Unit {0}) × redis.State
  unfolding is_enabled
  require name user hide up s r =
      let (answer, r') = is_enabled name user up s r in
      (if answer then ok tt else if hide then err not_found else err (forbidden name), r')
