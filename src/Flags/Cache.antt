-- ===== src/Flags/Cache.antt =====
-- infrastructure/cache/feature_flag_cache.py. Every error of Redis is swallowed. A document that was
-- cached has passed the validators, which change nothing of it when it is read back.
use spoo.Base.{ℕ, ◌≡◌, String, Bool, Option, none, some, if◌then◌else◌}
use spoo.Base.KeyValue.{KeyValue}
use spoo.Flags.{FeatureFlagDoc}
use Prim.Native.String.{◌∷◌}

-- The text under a key: the sentinel, the JSON of a document, or what does not decode.
pub data Stored : Type 0 where
  negative_sentinel undecodable : Stored
  json : FeatureFlagDoc → Stored

-- What `get` returns.
pub data Cached : Type 0 where
  missed negative_miss : Cached
  hit : FeatureFlagDoc → Cached

-- `ttl_seconds` and `negative_ttl_seconds`, and whether there is a Redis client.
pub record FeatureFlagCache : Type 0 where
  pub has_redis : Bool
  pub ttl_seconds : ℕ
  pub negative_ttl_seconds : ℕ

-- `_key`
abbrev pub key : String → String
key name = "f" ∷ "l" ∷ "a" ∷ "g" ∷ ":" ∷ name

pub key_injective : (a b : String) → key a ≡ key b → a ≡ b
key_injective a b h = cc

-- A reply of Redis as `get` reads it; the reply `none` is a call that raised.
abbrev pub decoded : Option (Option Stored) → Cached
decoded none = missed
decoded (some none) = missed
decoded (some (some negative_sentinel)) = negative_miss
decoded (some (some (json doc))) = hit doc
decoded (some (some undecodable)) = missed

module _ (redis : KeyValue String Stored) (cache : FeatureFlagCache) where
  unfoldable pub get : String → redis.State → Cached
  get name s = if cache.has_redis then decoded (redis.get (key name) s) else missed

  unfoldable pub set : String → FeatureFlagDoc → redis.State → redis.State
  set name doc s =
      if cache.has_redis then (redis.setex (key name) cache.ttl_seconds (json doc) s).1 else s

  unfoldable pub set_negative : String → redis.State → redis.State
  set_negative name s =
      if cache.has_redis
      then (redis.setex (key name) cache.negative_ttl_seconds negative_sentinel s).1
      else s

  unfoldable pub invalidate : String → redis.State → redis.State
  invalidate name s = if cache.has_redis then (redis.delete (key name) s).1 else s
