-- ===== src/Auth/Tokens.antt =====
-- repositories/token_repository.py over a collection keyed by `_id`. The clock is an argument, and
-- so is the `_id` that the driver gives a new document.
use spoo.Base.{
  ℕ, ◌+◌, ◌*◌, String, Bool, true, false, ◌&&◌, ◌||◌, not, Option, none, some, is_none, leb, ltb,
  str_eq, ◌==◌, if◌then◌else◌,
}
use spoo.Base.Collection.{Collection, ascending, descending, find_and_update}
use spoo.Base.Text.{opt_eq}
use spoo.Auth.{VerificationTokenDoc, TokenType, type_eq}

-- `{"token_hash": .., "token_type": .., "used_at": None}`
abbrev pub is_unused : String → TokenType → VerificationTokenDoc → Bool
is_unused hash type d = str_eq d.token_hash hash && (type_eq d.token_type type && is_none d.used_at)

-- The same, and `"expires_at": {"$gt": now}`.
abbrev pub is_live : String → TokenType → ℕ → VerificationTokenDoc → Bool
is_live hash type now d = is_unused hash type d && ltb now d.expires_at

-- The filter of `consume_if_unused` beside the `_id`.
abbrev pub is_consumable : ℕ → VerificationTokenDoc → Bool
is_consumable now d = is_none d.used_at && ltb now d.expires_at

abbrev pub used : ℕ → VerificationTokenDoc → VerificationTokenDoc
used now d = record d { used_at = some now }

abbrev pub attempted : VerificationTokenDoc → VerificationTokenDoc
attempted d = record d { attempts = d.attempts + 1 }

-- The filter of `find_latest_by_user`.
abbrev pub is_open : ℕ → TokenType → VerificationTokenDoc → Bool
is_open user type d = d.user_id == user && (type_eq d.token_type type && is_none d.used_at)

-- The key of the sort: a null sorts below every date.
abbrev pub created_key : VerificationTokenDoc → ℕ
created_key d = elim d.created_at [ none ↦ 0 | some t ↦ t + 1 ]

-- The filter of `count_recent`; a null never matches `$gte`.
abbrev pub is_recent : ℕ → TokenType → ℕ → ℕ → VerificationTokenDoc → Bool
is_recent user type minutes now d =
    d.user_id == user
    && (type_eq d.token_type type
        && elim d.created_at [ none ↦ false | some t ↦ leb now (t + 60 * minutes) ])

-- The query of `delete_by_user`; an argument that is `None` adds no clause.
abbrev pub is_of_user : ℕ → Option TokenType → Option String → VerificationTokenDoc → Bool
is_of_user user type app d =
    d.user_id == user
    && (elim type [ none ↦ true | some t ↦ type_eq d.token_type t ]
        && elim app [ none ↦ true | some a ↦ opt_eq d.app_id (some a) ])

module _ (db : Collection ℕ VerificationTokenDoc) where
  open db use {State, get, put, pick, count, delete_many}

  unfoldable pub create : ℕ → VerificationTokenDoc → State → State
  create id d s = put id d s

  unfoldable pub find_by_hash_and_type :
      String → TokenType → State → Option (ℕ × VerificationTokenDoc)
  find_by_hash_and_type hash type s = pick ascending (λ k d. is_unused hash type d) (λ d. 0) s

  unfoldable pub find_valid_by_hash :
      String → TokenType → ℕ → State → Option (ℕ × VerificationTokenDoc)
  find_valid_by_hash hash type now s = pick ascending (λ k d. is_live hash type now d) (λ d. 0) s

  -- The document as it was before the update.
  unfoldable pub consume_by_hash :
      String → TokenType → ℕ → State → Option (ℕ × VerificationTokenDoc) × State
  consume_by_hash hash type now s =
      elim (pick ascending (λ k d. is_live hash type now d) (λ d. 0) s) [
        | none ↦ (none, s)
        | some (k, d) ↦ (some (k, d), put k (used now d) s)
      ]

  unfoldable pub mark_as_used : ℕ → ℕ → State → Bool × State
  mark_as_used id now s =
      let (before, s') = find_and_update db id (λ d. true) (used now) s in
      (not (is_none before), s')

  unfoldable pub consume_if_unused : ℕ → ℕ → State → Bool × State
  consume_if_unused id now s =
      let (before, s') = find_and_update db id (is_consumable now) (used now) s in
      (not (is_none before), s')

  unfoldable pub find_latest_by_user : ℕ → TokenType → State → Option (ℕ × VerificationTokenDoc)
  find_latest_by_user user type s = pick descending (λ k d. is_open user type d) created_key s

  unfoldable pub increment_attempts : ℕ → State → Bool × State
  increment_attempts id s =
      let (before, s') = find_and_update db id (λ d. true) attempted s in (not (is_none before), s')

  -- `_delete_many`: the number of documents that matched, and what is left.
  abbrev pub deleted : (VerificationTokenDoc → Bool) → State → ℕ × State
  deleted q s = (count q s, delete_many q s)

  unfoldable pub delete_by_user : ℕ → Option TokenType → Option String → State → ℕ × State
  delete_by_user user type app s = deleted (is_of_user user type app) s

  unfoldable pub delete_by_hash : String → TokenType → State → ℕ × State
  delete_by_hash hash type s =
      deleted (λ d. str_eq d.token_hash hash && type_eq d.token_type type) s

  unfoldable pub delete_by_user_or_email : ℕ → String → State → ℕ × State
  delete_by_user_or_email user email s =
      if str_eq email ""
      then deleted (λ d. d.user_id == user) s
      else deleted (λ d. d.user_id == user || str_eq d.email email) s

  unfoldable pub count_recent : ℕ → TokenType → ℕ → ℕ → State → ℕ
  count_recent user type minutes now s = count (is_recent user type minutes now) s
