-- ===== src/Flags/Agrees.antt =====
-- services/feature_flag_service.py over a cache that agrees with the collection: a lookup finds the
-- stored flag, and leaves the cache in agreement.
use spoo.Base.{
  ℕ, String, Bool, true, false, Option, none, some, Result, ok, err, ◌≡◌, ◌⊎◌, inl, inr, refl, sym,
  subst, Bool-cases,
}
use spoo.Base.Collection.{Collection}
use spoo.Base.KeyValue.{KeyValue}
use spoo.Flags.{FeatureFlagDoc, Digest}
use spoo.Flags.Stored.{StoredFlag}
use spoo.Flags.Cache.{
  Stored, negative_sentinel, undecodable, json, Cached, missed, negative_miss, hit,
  FeatureFlagCache, key, key_injective, decoded, get, set, set_negative,
}
use spoo.Flags.Service.{ReadError, find_by_name, filled, after_read, after_cache, lookup}

-- What a text in the cache says of the flag in the collection.
abbrev pub Says : Stored → Result ReadError (Option FeatureFlagDoc) → Type 0
Says negative_sentinel stored = stored ≡ ok none
Says undecodable stored = Unit
Says (json doc) stored = stored ≡ ok (some doc)

module _ (flags : Collection ℕ StoredFlag) (redis : KeyValue String Stored)
    (cache : FeatureFlagCache) (lower : String → String) where
  -- The cache agrees with the collection: under every flag's key.
  abbrev pub Agrees : flags.State → redis.State → Type 0
  Agrees s r =
      (name : String) (w : Stored)
      → redis.value r (key name) ≡ some w
      → Says w (find_by_name flags lower name s)

  setex-Agrees :
      (name : String) (ttl : ℕ) (v : Stored) (s : flags.State) (r : redis.State)
      → Says v (find_by_name flags lower name s)
      → Agrees s r
      → Agrees s (redis.setex (key name) ttl v r).1
  setex-Agrees name ttl v s r says before other w h =
      elim (redis.value-setex (key name) (key other) ttl v w r h) [
        | inr old ↦ before other w old
        | inl (same_key, same_text) ↦
            subst (λ x. Says x (find_by_name flags lower other s)) same_text
              (subst (λ n. Says v (find_by_name flags lower n s))
                (key_injective name other same_key) says)
      ]

  set-Agrees :
      (name : String) (doc : FeatureFlagDoc) (s : flags.State) (r : redis.State)
      → find_by_name flags lower name s ≡ ok (some doc)
      → Agrees s r
      → Agrees s (set redis cache name doc r)
  unfolding set
  set-Agrees name doc s r found before = elim (Bool-cases cache.has_redis) [
    | inl t ↦ rw t (setex-Agrees name cache.ttl_seconds (json doc) s r found before)
    | inr n ↦ rw n before
  ]

  set_negative-Agrees :
      (name : String) (s : flags.State) (r : redis.State)
      → find_by_name flags lower name s ≡ ok none
      → Agrees s r
      → Agrees s (set_negative redis cache name r)
  unfolding set_negative
  set_negative-Agrees name s r absent before = elim (Bool-cases cache.has_redis) [
    | inl t ↦
        rw t (setex-Agrees name cache.negative_ttl_seconds negative_sentinel s r absent before)
    | inr n ↦ rw n before
  ]

  -- What the cache's answer says of the collection.
  abbrev Told : Cached → Result ReadError (Option FeatureFlagDoc) → Type 0
  Told missed stored = Unit
  Told negative_miss stored = stored ≡ ok none
  Told (hit doc) stored = stored ≡ ok (some doc)

  decoded-Told :
      (reply : Option (Option Stored)) (stored : Result ReadError (Option FeatureFlagDoc))
      → ((w : Stored) → reply ≡ some (some w) → Says w stored)
      → Told (decoded reply) stored
  decoded-Told none stored h = tt
  decoded-Told (some none) stored h = tt
  decoded-Told (some (some negative_sentinel)) stored h = h negative_sentinel refl
  decoded-Told (some (some undecodable)) stored h = tt
  decoded-Told (some (some (json doc))) stored h = h (json doc) refl

  get-Told :
      (name : String) (s : flags.State) (r : redis.State)
      → Agrees s r
      → Told (get redis cache name r) (find_by_name flags lower name s)
  unfolding get
  get-Told name s r before = elim (Bool-cases cache.has_redis) [
    | inr n ↦ rw n tt
    | inl t ↦ rw t (
        decoded-Told (redis.get (key name) r) (find_by_name flags lower name s)
          (λ w h. before name w (sym (redis.get-value (key name) r (some w) h))))
  ]

  module _ (blake2b : Digest) where
    -- A lookup finds the stored flag; or nothing, where its document is refused or MongoDB does not
    -- answer.
    abbrev pub Finds : String → Bool → flags.State → Option FeatureFlagDoc × redis.State → Type 0
    Finds name up s (found, r') =
        ((ok found ≡ find_by_name flags lower name s)
          ⊎ ((found ≡ none)
              × ((up ≡ false) ⊎ ((e : ReadError) × (find_by_name flags lower name s ≡ err e)))))
        × Agrees s r'

    filled-Finds :
        (name : String) (up : Bool) (s : flags.State) (r : redis.State) (o : Option FeatureFlagDoc)
        → find_by_name flags lower name s ≡ ok o
        → Agrees s r
        → Finds name up s (filled flags redis cache lower blake2b name o r)
    unfolding filled
    filled-Finds name up s r none h before = (inl (sym h), set_negative-Agrees name s r h before)
    filled-Finds name up s r (some doc) h before = (inl (sym h), set-Agrees name doc s r h before)

    after_read-Finds :
        (o : Result ReadError (Option FeatureFlagDoc)) (name : String) (up : Bool) (s : flags.State)
        (r : redis.State)
        → find_by_name flags lower name s ≡ o
        → Agrees s r
        → Finds name up s (after_read flags redis cache lower blake2b o name r)
    unfolding after_read
    after_read-Finds (err e) name up s r h before = (inr (refl, inr (e, h)), before)
    after_read-Finds (ok o) name up s r h before = filled-Finds name up s r o h before

    after_cache-Finds :
        (c : Cached) (name : String) (up : Bool) (s : flags.State) (r : redis.State)
        → Told c (find_by_name flags lower name s)
        → Agrees s r
        → Finds name up s (after_cache flags redis cache lower blake2b c name up s r)
    unfolding after_cache
    after_cache-Finds negative_miss name up s r told before = (inl (sym told), before)
    after_cache-Finds (hit doc) name up s r told before = (inl (sym told), before)
    after_cache-Finds missed name true s r told before =
        after_read-Finds (find_by_name flags lower name s) name true s r refl before
    after_cache-Finds missed name false s r told before = (inr (refl, inl refl), before)

    pub lookup-Finds :
        (name : String) (up : Bool) (s : flags.State) (r : redis.State)
        → Agrees s r
        → Finds name up s (lookup flags redis cache lower blake2b name up s r)
    unfolding lookup
    lookup-Finds name up s r before =
        after_cache-Finds (get redis cache name r) name up s r (get-Told name s r before) before
