-- ===== src/Auth/Consume.antt =====
-- A token is spent once, however the calls on the collection interleave.
use spoo.Base.{
  ℕ, String, ◌≡◌, ◌≢◌, ◌⊎◌, ◌∙◌, ap, refl, sym, subst, Bool-cases, str_eq, ◌==◌, ◌||◌, ◌&&◌, Bool,
  true, false, not, Option, none, some, List, [], ◌∷◌, inl, inr, arith, All, is_none, Option-cases,
  ℕ-cases,
}
use spoo.Base.Collection.{
  Collection, ascending, find_and_update, find_and_update-done, find_and_update-before,
  find_and_update-miss, find_and_update-absent, delete_many-before,
}
use spoo.Auth.{VerificationTokenDoc, TokenType, type_eq}
use spoo.Auth.Tokens.{
  create, consume_by_hash, consume_if_unused, mark_as_used, increment_attempts, delete_by_user,
  delete_by_hash, delete_by_user_or_email, is_live, is_consumable, used, attempted, is_of_user,
}

-- The writes that concurrent requests may make on the collection.
pub data Write : Type 0 where
  insert : ℕ → VerificationTokenDoc → Write
  consume : ℕ → ℕ → Write
  mark : ℕ → ℕ → Write
  increment : ℕ → Write
  delete : ℕ → Option TokenType → Option String → Write
  delete_hash : String → TokenType → Write
  delete_account : ℕ → String → Write

-- The driver never gives a new document an `_id` that was in use.
abbrev pub IsNew : ℕ → Write → Type 0
IsNew k (insert id d) = id ≢ k
IsNew k (consume id now) = Unit
IsNew k (mark id now) = Unit
IsNew k (increment id) = Unit
IsNew k (delete user type app) = Unit
IsNew k (delete_hash hash type) = Unit
IsNew k (delete_account user email) = Unit

module _ (db : Collection ℕ VerificationTokenDoc) where
  open db use {
    State, get, put, pick, pick-some, pick-none, get-put_self, get-put_ne, get-delete_many,
  }

  unfoldable pub write : Write → State → State
  write (insert id d) s = create db id d s
  write (consume id now) s = (consume_if_unused db id now s).1
  write (mark id now) s = (mark_as_used db id now s).1
  write (increment id) s = (increment_attempts db id s).1
  write (delete user type app) s = (delete_by_user db user type app s).1
  write (delete_hash hash type) s = (delete_by_hash db hash type s).1
  write (delete_account user email) s = (delete_by_user_or_email db user email s).1

  -- The deletion of an account is one of documents by a filter.
  pub delete_account-many :
      (user : ℕ) (email : String) (s : State)
      → (q : VerificationTokenDoc → Bool) × ((delete_by_user_or_email db user email s).1
          ≡ db.delete_many q s)
  unfolding delete_by_user_or_email
  delete_account-many user email s = elim (Bool-cases (str_eq email "")) [
    | inl t ↦ ((λ d. d.user_id == user), rw t refl)
    | inr n ↦ ((λ d. d.user_id == user || str_eq d.email email), rw n refl)
  ]

  unfoldable pub write_all : List Write → State → State
  write_all [] s = s
  write_all (w ∷ ws) s = write_all ws (write w s)

  -- The token, if it is still there, has been used.
  abbrev IsSpent : ℕ → State → Type 0
  IsSpent k s = (d : VerificationTokenDoc) → get s k ≡ some d → is_none d.used_at ≡ false

  update-IsSpent :
      (id k : ℕ) (q : VerificationTokenDoc → Bool) (f : VerificationTokenDoc → VerificationTokenDoc)
      (s : State)
      → ((d : VerificationTokenDoc) → is_none d.used_at ≡ false → is_none (f d).used_at ≡ false)
      → IsSpent k s
      → IsSpent k (find_and_update db id q f s).1
  update-IsSpent id k q f s keep h d stored =
      let (e, before, origin) = find_and_update-before db id k q f s d (ℕ-cases id k) stored in
      elim origin [
        | inl same ↦ ap (λ (x : VerificationTokenDoc). is_none x.used_at) same ∙ h e before
        | inr (m, changed) ↦
            ap (λ (x : VerificationTokenDoc). is_none x.used_at) changed ∙ keep e (h e before)
      ]

  delete-IsSpent :
      (k : ℕ) (q : VerificationTokenDoc → Bool) (s : State)
      → IsSpent k s
      → IsSpent k (db.delete_many q s)
  delete-IsSpent k q s h d stored = h d (delete_many-before db q k s d stored)

  write-IsSpent : (k : ℕ) (w : Write) (s : State) → IsNew k w → IsSpent k s → IsSpent k (write w s)
  unfolding write create consume_if_unused mark_as_used increment_attempts delete_by_user
      delete_by_hash
  write-IsSpent k (insert id d) s new h = λ e stored. h e (sym (get-put_ne id k d s new) ∙ stored)
  write-IsSpent k (consume id now) s new h =
      update-IsSpent id k (is_consumable now) (used now) s (λ d x. refl) h
  write-IsSpent k (mark id now) s new h =
      update-IsSpent id k (λ d. true) (used now) s (λ d x. refl) h
  write-IsSpent k (increment id) s new h = update-IsSpent id k (λ d. true) attempted s (λ d x. x) h
  write-IsSpent k (delete user type app) s new h =
      λ d stored. delete-IsSpent k (is_of_user user type app) s h d stored
  write-IsSpent k (delete_hash hash type) s new h = λ d stored.
      delete-IsSpent k (λ e. str_eq e.token_hash hash && type_eq e.token_type type) s h d stored
  write-IsSpent k (delete_account user email) s new h =
      let (q, same) = delete_account-many user email s in
      subst (IsSpent k) (sym same) (λ d stored. delete-IsSpent k q s h d stored)

  write_all-IsSpent :
      (k : ℕ) (ws : List Write) (s : State)
      → All (IsNew k) ws
      → IsSpent k s
      → IsSpent k (write_all ws s)
  unfolding write_all
  write_all-IsSpent k [] s new h = h
  write_all-IsSpent k (w ∷ ws) s (n, new) h =
      write_all-IsSpent k ws (write w s) new (write-IsSpent k w s n h)

  consume-IsSpent :
      (k now : ℕ) (s : State)
      → (consume_if_unused db k now s).0 ≡ true
      → IsSpent k (consume_if_unused db k now s).1
  unfolding consume_if_unused
  consume-IsSpent k now s h d stored =
      let (e, here, m, done) = find_and_update-done db k (is_consumable now) (used now) s h in
      ground (arith, ap (λ r. get (r.1) k) done, get-put_self k (used now e) s, stored)

  spent-refused : (k now : ℕ) (s : State) → IsSpent k s → (consume_if_unused db k now s).0 ≡ false
  unfolding consume_if_unused
  spent-refused k now s h = elim (Option-cases (get s k)) [
    | inl gone ↦
        ap (λ r. not (is_none (r.0)))
          (find_and_update-absent db k (is_consumable now) (used now) s gone)
    | inr (d, here) ↦
        ap (λ r. not (is_none (r.0)))
          (find_and_update-miss db k (is_consumable now) (used now) s d here
            (ground (arith, h d here)))
  ]

  -- No double use. Once a call consumed a token, no later call consumes it, whatever other requests
  -- write in between: new tokens, other consumptions, counted attempts, deletions.
  pub consume_if_unused-once :
      (k now now' : ℕ) (s : State) (ws : List Write)
      → (consume_if_unused db k now s).0 ≡ true
      → All (IsNew k) ws
      → (consume_if_unused db k now' (write_all ws (consume_if_unused db k now s).1)).0 ≡ false
  consume_if_unused-once k now now' s ws h new =
      spent-refused k now' (write_all ws (consume_if_unused db k now s).1)
        (write_all-IsSpent k ws (consume_if_unused db k now s).1 new (consume-IsSpent k now s h))

  -- A consumption finds no live token and changes nothing, or takes a live one.
  pub consume-cases :
      (hash : String) (type : TokenType) (now : ℕ) (s : State)
      → (((k : ℕ) (d : VerificationTokenDoc) → get s k ≡ some d → is_live hash type now d ≡ false)
          × (consume_by_hash db hash type now s ≡ (none, s)))
        ⊎ ((k : ℕ) × (d : VerificationTokenDoc) × (get s k ≡ some d)
            × (is_live hash type now d ≡ true)
            × (consume_by_hash db hash type now s ≡ (some (k, d), put k (used now d) s)))
  unfolding consume_by_hash
  consume-cases hash type now s =
      elim (Option-cases (pick ascending (λ k d. is_live hash type now d) (λ d. 0) s)) [
        | inl nothing ↦ inl (
          pick-none ascending (λ k d. is_live hash type now d) (λ d. 0) s nothing,
          rw (nothing, consume_by_hash) refl,
        )
        | inr ((k, d), found) ↦
            let (here, live, _) =
              pick-some ascending (λ k d. is_live hash type now d) (λ d. 0) s k d found in
            inr (k, d, here, live, rw (found, consume_by_hash) refl)
      ]
