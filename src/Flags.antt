-- ===== src/Flags.antt =====
-- Feature flags (services/feature_flag_service.py, infrastructure/cache/feature_flag_cache.py,
-- repositories/feature_flag_repository.py, schemas/models/feature_flag.py): the documents and who is
-- in a rollout. `Stored` has what a document of the collection must hold to be read, `Cache` the cache, `Service` the service, `Admits` the description of a rollout
-- on its own, and `Agrees` and `Granted` the proofs. The digests of hashlib and `str.lower` are arguments.
pub mod Stored
pub mod Cache
pub mod Service
pub mod Admits
pub mod Agrees
pub mod Granted
mod Tests
use spoo.Base.{
  ℕ, zero, suc, ◌/◌, ◌%◌, String, Bool, true, false, ◌||◌, ◌&&◌, not, Option, none, some, List, [],
  ◌∷◌, any, str_eq, ltb, ◌==◌, if◌then◌else◌,
}
use spoo.Base.Text.{opt_eq}

pub data RolloutType : Type 0 where
  off everyone allowlist by_percentage hex_digit by_tier : RolloutType

pub data FeatureState : Type 0 where
  enabled_state locked hidden : FeatureState

-- A flag that has passed the validators, but for its description and dates.
pub record FeatureFlagDoc : Type 0 where
  pub name : String
  pub enabled : Bool
  pub rollout_type : RolloutType
  pub allowlist_user_ids : List ℕ
  pub allowlist_emails : List String
  pub percentage : ℕ
  pub enabled_digits : List String
  pub tier : Option String

-- What a flag reads of the caller: `email` and `tier` may be missing.
pub record CurrentUser : Type 0 where
  pub user_id : ℕ
  pub email : Option String
  pub tier : Option String

-- `bool(email and email.lower() in self.allowlist_emails)`: the empty text is falsy.
abbrev pub email_listed : (String → String) → List String → Option String → Bool
email_listed lower listed none = false
email_listed lower listed (some e) = not (str_eq e "") && any (str_eq (lower e)) listed

abbrev pub is_user_in_allowlist : (String → String) → FeatureFlagDoc → ℕ → Option String → Bool
is_user_in_allowlist lower flag user_id email =
    if any (λ i. user_id == i) flag.allowlist_user_ids
    then true
    else email_listed lower flag.allowlist_emails email

-- A digest of `hashlib.blake2b` of `f"{salt}:{user_id}"`, read as a number: the size in bytes, the
-- user and the salt.
abbrev pub Digest : Type 0
Digest = ℕ → ℕ → String → ℕ

-- `_stable_hash`
abbrev pub stable_hash : Digest → ℕ → String → ℕ
stable_hash blake2b user_id salt = blake2b 4 user_id salt % 100

-- The sixteen digits of `hexdigest()`, and the one for a number below sixteen.
abbrev pub hex_digits : List String
hex_digits =
    "0" ∷ "1" ∷ "2" ∷ "3" ∷ "4" ∷ "5" ∷ "6" ∷ "7" ∷ "8" ∷ "9" ∷ "a" ∷ "b" ∷ "c" ∷ "d" ∷ "e" ∷ "f"
    ∷ []

abbrev pub nth : List String → ℕ → String
nth [] n = ""
nth (d ∷ ds) zero = d
nth (d ∷ ds) (suc n) = nth ds n

-- `_digit_bucket`: the first of the two digits of one byte
abbrev pub digit_bucket : Digest → ℕ → String → String
digit_bucket blake2b user_id salt = nth hex_digits (blake2b 1 user_id salt / 16)

-- What `is_enabled` does with the rollout of a flag that is on, once there is a user.
abbrev pub in_rollout :
    (String → String) → Digest → FeatureFlagDoc → RolloutType → CurrentUser → Bool
in_rollout lower blake2b flag off user = false
in_rollout lower blake2b flag everyone user = true
in_rollout lower blake2b flag allowlist user =
    is_user_in_allowlist lower flag user.user_id user.email
in_rollout lower blake2b flag by_percentage user =
    ltb (stable_hash blake2b user.user_id flag.name) flag.percentage
in_rollout lower blake2b flag hex_digit user =
    any (str_eq (digit_bucket blake2b user.user_id flag.name)) flag.enabled_digits
in_rollout lower blake2b flag by_tier user = elim flag.tier [
  | none ↦ false
  | some t ↦ opt_eq user.tier (some t)
]

-- Without a user only EVERYONE is answered with true.
abbrev pub anonymous : RolloutType → Bool
anonymous off = false
anonymous everyone = true
anonymous allowlist = false
anonymous by_percentage = false
anonymous hex_digit = false
anonymous by_tier = false

-- The body of `is_enabled` after the lookup.
unfoldable pub decide :
    (String → String) → Digest → Option FeatureFlagDoc → Option CurrentUser → Bool
decide lower blake2b none user = false
decide lower blake2b (some flag) none = if flag.enabled then anonymous flag.rollout_type else false
decide lower blake2b (some flag) (some user) =
    if flag.enabled then in_rollout lower blake2b flag flag.rollout_type user else false
