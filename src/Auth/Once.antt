-- ===== src/Auth/Once.antt =====
-- services/auth/device.py: a code serves once, whatever else is written in between.
use spoo.Base.{
  ◌&&◌, some-injective, ℕ, ◌≤◌, String, Bool, true, false, none, some, List, [], ◌∷◌, All, err,
  str_eq, ◌≡◌, ◌≢◌, ◌⊎◌, inl, inr, sym, ap, ◌∙◌, subst, arith, Bool-cases, ℕ-cases,
}
use spoo.Base.Collection.{Collection, find_and_update, find_and_update-before, delete_many-before}
use spoo.Auth.{VerificationTokenDoc, type_eq, device_auth}
use spoo.Auth.Tokens.{
  create, consume_by_hash, consume_if_unused, mark_as_used, increment_attempts, delete_by_user,
  delete_by_hash, is_live, is_unused, is_consumable, is_of_user, used, attempted,
}
use spoo.Auth.Consume.{
  Write, insert, consume, mark, increment, delete, delete_hash, delete_account, delete_account-many,
  write, write_all, consume-cases,
}
use spoo.Auth.Device.{DeviceAuthService, invalid_code, with_token, exchange_device_code}
use spoo.Auth.Exchanged.{exchange-consume}

-- The code is drawn once: a new token has another hash.
abbrev pub IsOther : String → Write → Type 0
IsOther hash (insert id d) = str_eq d.token_hash hash ≡ false
IsOther hash (consume id now) = Unit
IsOther hash (mark id now) = Unit
IsOther hash (increment id) = Unit
IsOther hash (delete user type app) = Unit
IsOther hash (delete_hash other type) = Unit
IsOther hash (delete_account user email) = Unit

module _ (tokens : Collection ℕ VerificationTokenDoc) where
  open tokens use {State, get, put, get-put_self, get-put_ne, get-delete_many}

  -- No two unused device codes have the same hash.
  abbrev pub IsUnique : String → State → Type 0
  IsUnique hash ts =
      (k j : ℕ) (d e : VerificationTokenDoc)
      → get ts k ≡ some d
      → get ts j ≡ some e
      → is_unused hash device_auth d ≡ true
      → is_unused hash device_auth e ≡ true
      → k ≡ j

  -- Nothing that a code could be exchanged with is left.
  abbrev IsSpent : String → ℕ → State → Type 0
  IsSpent hash now ts =
      (k : ℕ) (d : VerificationTokenDoc)
      → get ts k ≡ some d
      → is_live hash device_auth now d ≡ false

  -- What is found where a document was put, or elsewhere.
  pub found-put :
      (k j : ℕ) (d e : VerificationTokenDoc) (ts : State)
      → get (put k d ts) j ≡ some e
      → (d ≡ e) ⊎ ((k ≢ j) × (get ts j ≡ some e))
  found-put k j d e ts here = elim (ℕ-cases k j) [
    | inl same ↦ inl (
        some-injective d e
          (sym (get-put_self k d ts) ∙ subst (λ i. get (put k d ts) i ≡ some e) (sym same) here))
    | inr apart ↦ inr (apart, sym (get-put_ne k j d ts apart) ∙ here)
  ]

  consume-IsSpent :
      (hash : String) (now later : ℕ) (ts : State)
      → now ≤ later
      → IsUnique hash ts
      → IsSpent hash later (consume_by_hash tokens hash device_auth now ts).1
  consume-IsSpent hash now later ts since unique =
      elim (consume-cases tokens hash device_auth now ts) [
        | inl (absent, nothing) ↦
            subst (λ r. IsSpent hash later r.1) (sym nothing)
              (λ j e here. ground (arith, absent j e here))
        | inr (k, d, stored, live, consumed) ↦
            subst (λ r. IsSpent hash later r.1) (sym consumed)
              (λ j e here. elim (found-put k j (used now d) e ts here) [
                | inl same ↦ ap (is_live hash device_auth later) (sym same) ∙ ground arith
                | inr (apart, before) ↦ elim (Bool-cases (is_live hash device_auth later e)) [
                  | inr dead ↦ dead
                  | inl alive ↦ absurd (
                      apart (
                        unique k j d e stored before (ground (arith, live))
                          (ground (arith, alive))))
                ]
              ])
      ]

  update-IsSpent :
      (hash : String) (now id : ℕ) (q : VerificationTokenDoc → Bool)
      (f : VerificationTokenDoc → VerificationTokenDoc) (ts : State)
      → ((d : VerificationTokenDoc)
          → is_live hash device_auth now d ≡ false
          → is_live hash device_auth now (f d) ≡ false)
      → IsSpent hash now ts
      → IsSpent hash now (find_and_update tokens id q f ts).1
  update-IsSpent hash now id q f ts keep h k d stored =
      let (e, before, origin) = find_and_update-before tokens id k q f ts d (ℕ-cases id k) stored in
      elim origin [
        | inl same ↦ ap (is_live hash device_auth now) same ∙ h k e before
        | inr (m, changed) ↦ ap (is_live hash device_auth now) changed ∙ keep e (h k e before)
      ]

  write-IsSpent :
      (hash : String) (now : ℕ) (w : Write) (ts : State)
      → IsOther hash w
      → IsSpent hash now ts
      → IsSpent hash now (write tokens w ts)
  unfolding write create consume_if_unused mark_as_used increment_attempts delete_by_user
      delete_by_hash
  write-IsSpent hash now (insert id d) ts other h = λ j e here. elim (found-put id j d e ts here) [
    | inl same ↦ ap (is_live hash device_auth now) (sym same) ∙ ground (arith, other)
    | inr (apart, before) ↦ h j e before
  ]
  write-IsSpent hash now (consume id at) ts other h =
      update-IsSpent hash now id (is_consumable at) (used at) ts (λ d x. ground arith) h
  write-IsSpent hash now (mark id at) ts other h =
      update-IsSpent hash now id (λ d. true) (used at) ts (λ d x. ground arith) h
  write-IsSpent hash now (increment id) ts other h =
      update-IsSpent hash now id (λ d. true) attempted ts (λ d x. x) h
  write-IsSpent hash now (delete user type app) ts other h =
      λ j e here. h j e (delete_many-before tokens (is_of_user user type app) j ts e here)
  write-IsSpent hash now (delete_hash gone type) ts other h = λ j e here. h j e (
      delete_many-before tokens (λ d. str_eq d.token_hash gone && type_eq d.token_type type) j ts e
        here)
  write-IsSpent hash now (delete_account user email) ts other h =
      let (q, same) = delete_account-many tokens user email ts in
      subst (IsSpent hash now) (sym same)
        (λ j e here. h j e (delete_many-before tokens q j ts e here))

  write_all-IsSpent :
      (hash : String) (now : ℕ) (ws : List Write) (ts : State)
      → All (IsOther hash) ws
      → IsSpent hash now ts
      → IsSpent hash now (write_all tokens ws ts)
  unfolding write_all
  write_all-IsSpent hash now [] ts other h = h
  write_all-IsSpent hash now (w ∷ ws) ts (o, other) h =
      write_all-IsSpent hash now ws (write tokens w ts) other (write-IsSpent hash now w ts o h)

module _ (service : DeviceAuthService) where
  open service use {users, grants, tokens, app_registry, hash_token, s256}

  spent-refused :
      (raw verifier : String) (up : Bool) (now : ℕ) (us : users.State) (gs : grants.State)
      (ts : tokens.State)
      → IsSpent tokens (hash_token raw) now ts
      → exchange_device_code service raw verifier up now us (gs, ts) ≡ (err invalid_code, gs, ts)
  unfolding with_token
  spent-refused raw verifier up now us gs ts spent =
      elim (consume-cases tokens (hash_token raw) device_auth now ts) [
        | inl (absent, nothing) ↦
            exchange-consume service none raw verifier up now us gs ts ts nothing
        | inr (k, d, stored, live, consumed) ↦ absurd (ground (arith, live, spent k d stored))
      ]

  -- A device code serves once. After an exchange of it, whatever that answered, every later exchange
  -- of the same code is refused as an invalid code and changes nothing, with any verifier and
  -- whatever the users and grants are then, and whatever other requests write to the tokens in
  -- between, if at most one unused device code had the hash before and no new one has it.
  pub exchange-once :
      (raw first second : String) (up up' : Bool) (now later : ℕ) (us us' : users.State)
      (gs gs' : grants.State) (ts : tokens.State) (ws : List Write) (ts' : tokens.State)
      → now ≤ later
      → IsUnique tokens (hash_token raw) ts
      → All (IsOther (hash_token raw)) ws
      → ts' ≡ write_all tokens ws (exchange_device_code service raw first up now us (gs, ts)).2
      → exchange_device_code service raw second up' later us' (gs', ts')
        ≡ (err invalid_code, gs', ts')
  unfolding exchange_device_code
  exchange-once raw first second up up' now later us us' gs gs' ts ws ts' since unique other after =
      spent-refused raw second up' later us' gs' ts' (
        subst (IsSpent tokens (hash_token raw) later) (sym after) (
          write_all-IsSpent tokens (hash_token raw) later ws
            (consume_by_hash tokens (hash_token raw) device_auth now ts).1 other
            (consume-IsSpent tokens (hash_token raw) now later ts since unique)))
