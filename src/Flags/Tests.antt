-- ===== src/Flags/Tests.antt =====
-- Tests of the feature flags, and their theorems at concrete inputs.
use spoo.Base.{
  ℕ, ◌≡◌, refl, Bool, true, false, Option, none, some, [], ◌∷◌, String, ok, err, str_eq, eq_iff,
}
use spoo.Base.Collection.{Collection}
use spoo.Base.Memory.{by_id}
use spoo.Base.KeyValue.{KeyValue, in_memory}
use spoo.Flags.{
  FeatureFlagDoc, CurrentUser, Digest, RolloutType, enabled_state, hidden, allowlist, by_percentage,
  hex_digit, by_tier, everyone, off, decide,
}
use spoo.Flags.Stored.{ℤ, pos, negsuc, StoredFlag, typed, ill_typed, from_mongo}
use spoo.Flags.Cache.{Stored, FeatureFlagCache, get, set, set_negative, negative_miss}
use spoo.Flags.Service.{
  exposed_features, require, states_for, states, is_enabled, lookup, after_cache, filled,
  after_read, find_by_name, forbidden, not_found,
}
use spoo.Flags.Agrees.{Agrees}
use spoo.Flags.Granted.{Guards, Shows, require-Guards, states_for-Shows}

abbrev flags : Collection ℕ StoredFlag
flags = by_id {D = StoredFlag}

abbrev redis : KeyValue String Stored
redis = in_memory str_eq eq_iff

abbrev settings : FeatureFlagCache
settings = record { has_redis = true; ttl_seconds = 60; negative_ttl_seconds = 30 }

-- `str.lower` on the texts of the tests, and a digest.
abbrev lower : String → String
lower s = s

abbrev blake2b : Digest
blake2b size user_id salt = user_id

abbrev flag : String → RolloutType → FeatureFlagDoc
flag name rollout = record {
  name = name;
  enabled = true;
  rollout_type = rollout;
  allowlist_user_ids = 7 ∷ [];
  allowlist_emails = "a@example.com" ∷ [];
  percentage = 25;
  enabled_digits = "b" ∷ [];
  tier = none;
}

-- The same as stored, with an e-mail address as it was typed and a percentage.
abbrev stored : String → RolloutType → ℤ → StoredFlag
stored name rollout percentage = typed (record {
  name = name;
  enabled = true;
  rollout_type = rollout;
  allowlist_user_ids = 7 ∷ [];
  allowlist_emails = " a@example.com " ∷ "  " ∷ [];
  percentage = percentage;
  enabled_digits = "b" ∷ "b" ∷ [];
  tier = none;
})

read_test :
    (from_mongo lower (stored "f" allowlist (pos 25)) ≡ some (flag "f" allowlist))
    × (from_mongo lower (stored "f" by_percentage (pos 101)) ≡ none)
    × (from_mongo lower (stored "f" by_percentage (negsuc 0)) ≡ none)
    × (from_mongo lower (stored " " everyone (pos 1)) ≡ none)
    × (from_mongo lower (ill_typed "f") ≡ none)
unfolding from_mongo
read_test = (refl, refl, refl, refl, refl)

abbrev user : ℕ → Option String → CurrentUser
user id email = record { user_id = id; email = email; tier = none }

-- Three flags are registered, one by a document that is refused.
abbrev registered : flags.State
registered = (
  (1, stored "webhooks" allowlist (pos 25))
      ∷ (2, stored "ab_testing" by_percentage (pos 25))
      ∷ (3, stored "link_scheduling" everyone (pos 101))
      ∷ [],
  (refl, (refl, (refl, tt))),
)

abbrev cold : redis.State
cold = λ k. none

abbrev answer_to : FeatureFlagDoc → Option CurrentUser → Bool
answer_to f u = decide lower blake2b (some f) u

decided_test :
    (answer_to (flag "f" allowlist) (some (user 7 none)) ≡ true)
    × (answer_to (flag "f" allowlist) (some (user 8 (some "a@example.com"))) ≡ true)
    × (answer_to (flag "f" allowlist) (some (user 8 (some ""))) ≡ false)
    × (answer_to (flag "f" by_percentage) (some (user 124 none)) ≡ true)
    × (answer_to (flag "f" by_percentage) (some (user 125 none)) ≡ false)
    × (answer_to (flag "f" hex_digit) (some (user 0xb3 none)) ≡ true)
    × (answer_to (flag "f" by_tier) (some (user 7 none)) ≡ false)
    × (answer_to (flag "f" everyone) none ≡ true)
    × (answer_to (flag "f" off) (some (user 7 none)) ≡ false)
unfolding decide
decided_test = (refl, refl, refl, refl, refl, refl, refl, refl, refl)

-- The cache after a first request of user 7, while MongoDB answers.
abbrev warm : redis.State
warm = (states_for flags redis settings lower blake2b (some (user 7 none)) true registered cold).1

states_test :
    (states_for flags redis settings lower blake2b (some (user 7 none)) true registered cold).0
    ≡ ("custom_domains", hidden)
      ∷ ("geo_targeting", hidden)
      ∷ ("custom_meta_tags", hidden)
      ∷ ("ab_testing", enabled_state)
      ∷ ("webhooks", enabled_state)
      ∷ ("expired_fallback", hidden)
      ∷ ("link_scheduling", hidden)
      ∷ []
unfolding decide states_for states is_enabled lookup after_cache filled after_read from_mongo
    find_by_name get set set_negative
states_test = refl

-- The warm cache answers without MongoDB; an unknown name does not pass.
warm_test :
    ((require flags redis settings lower blake2b "webhooks"
        (some (user 7 none))
        true
        false
        registered
        warm).0
      ≡ ok tt)
    × ((require flags redis settings lower blake2b "webhooks"
          (some (user 8 none))
          true
          false
          registered
          warm).0
        ≡ err not_found)
    × ((require flags redis settings lower blake2b "other"
          (some (user 7 none))
          false
          false
          registered
          warm).0
        ≡ err (forbidden "other"))
    × ((get redis settings "geo_targeting" warm) ≡ negative_miss)
unfolding decide states_for states is_enabled lookup after_cache filled after_read from_mongo
    find_by_name get set set_negative require
warm_test = (refl, refl, refl, refl)

states_for-Shows_example :
    Shows flags redis settings lower blake2b
      (states_for flags redis settings lower blake2b (some (user 7 none)) true registered cold).0
      exposed_features
      (some (user 7 none))
      true
      registered
    × Agrees flags redis settings lower registered warm
states_for-Shows_example =
    states_for-Shows flags redis settings lower blake2b (some (user 7 none)) true registered cold
      (λ name w h. cc)

warm-Agrees : Agrees flags redis settings lower registered warm
warm-Agrees =
    (states_for-Shows flags redis settings lower blake2b (some (user 7 none)) true registered cold
      (λ name w h. cc)).1

require-Guards_example :
    Guards flags redis settings lower blake2b
      (require flags redis settings lower blake2b "webhooks"
        (some (user 7 none))
        true
        false
        registered
        warm).0
      "webhooks"
      (some (user 7 none))
      true
      false
      registered
    × Agrees flags redis settings lower registered
        (require flags redis settings lower blake2b "webhooks"
          (some (user 7 none))
          true
          false
          registered
          warm).1
require-Guards_example =
    require-Guards flags redis settings lower blake2b "webhooks" (some (user 7 none)) true false
      registered warm warm-Agrees
