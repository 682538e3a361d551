-- ===== src/Auth/Created.antt =====
-- services/auth/otp.py, `create_otp`, by many requests at once: each counts the recent tokens, and
-- later stores a new one. How many codes an hour are made then.
use spoo.Base.{
  ℕ, suc, ◌+◌, ◌<◌, ◌≤◌, String, ◌≡◌, ap, refl, Bool, true, false, none, some, List, [], ◌∷◌, ◌++◌,
  Result, ok, err, inl, inr, arith, length, Bool-cases, leb, ltb, if◌then◌else◌,
}
use spoo.Base.Collection.{Collection, tally}
use spoo.Auth.{
  VerificationTokenDoc, TokenType, email_verify, password_reset, device_auth, deletion_restore,
  type_eq,
}
use spoo.Auth.Tokens.{create, count_recent, is_recent}
use spoo.Auth.Otp.{OtpError, create_counted, max_tokens_per_hour, new_token}

type_eq_refl : (t : TokenType) → type_eq t t ≡ true
type_eq_refl email_verify = refl
type_eq_refl password_reset = refl
type_eq_refl device_auth = refl
type_eq_refl deletion_restore = refl

is_recent_later :
    (user : ℕ) (type : TokenType) (now later : ℕ) (d : VerificationTokenDoc)
    → now ≤ later
    → is_recent user type 60 later d ≡ true
    → is_recent user type 60 now d ≡ true
is_recent_later user type now later d h r = ground arith

is_recent-new_token :
    (user : ℕ) (email hash : String) (type : TokenType) (now start : ℕ)
    → start ≤ now
    → is_recent user type 60 (start + 3600) (new_token user email hash type now) ≡ true
is_recent-new_token user email hash type now start h = ground (arith, type_eq_refl type)

-- A request that has counted the recent tokens, with what it counted.
abbrev pub passers : List ℕ → ℕ
passers [] = 0
passers (c ∷ cs) = let rest = passers cs in if ltb c max_tokens_per_hour then suc rest else rest

passers-length : (cs : List ℕ) → passers cs ≤ length cs
passers-length [] = omega arith
passers-length (c ∷ cs) = ground (arith, passers-length cs)

passers-middle :
    (before after : List ℕ) (c : ℕ)
    → passers (before ++ c ∷ after) ≡ passers (c ∷ []) + passers (before ++ after)
passers-middle [] after c = ground arith
passers-middle (b ∷ before) after c = ground (arith, passers-middle before after c)

length-middle :
    (before after : List ℕ) (c : ℕ) → length (before ++ c ∷ after) ≡ suc (length (before ++ after))
length-middle [] after c = refl
length-middle (b ∷ before) after c = ap suc (length-middle before after c)

abbrev pub made_by : Result OtpError String → ℕ
made_by (ok code) = 1
made_by (err e) = 0

-- The tokens, the number of codes made, and the counts of the requests in flight.
pub record Requests (S : Type 0) : Type 0 where
  pub tokens : S
  pub made : ℕ
  pub counts : List ℕ

module _ (hash_token : String → String) (db : Collection ℕ VerificationTokenDoc) (n user : ℕ)
    (type : TokenType) (start : ℕ) where
  open db use {State, get, put, count, count-put, count_mono}

  -- The state after the rest of a request, by what it counted.
  abbrev pub after_answer :
      ℕ → List ℕ → List ℕ → String → String → ℕ → ℕ → ℕ → State → Requests State
  after_answer recent before after email code id now made s =
      let (r, s') = create_counted hash_token db recent user email type false code id now s in
      record { tokens = s'; made = made + made_by r; counts = before ++ after }

  -- The requests of one user for one type of code within the hour from `start` on, without deletion,
  -- at most `n` in flight.
  pub data Step : Requests State → Requests State → Type 0 where
    counted :
        (now : ℕ) (r : Requests State)
        → start ≤ now
        → now ≤ start + 3600
        → length r.counts < n
        → Step r (record r { counts = count_recent db user type 60 now r.tokens ∷ r.counts })
    answered :
        (recent : ℕ) (before after : List ℕ) (email code : String) (id now made : ℕ) (s : State)
        → start ≤ now
        → get s id ≡ none
        → Step
            (record { tokens = s; made = made; counts = before ++ recent ∷ after })
            (after_answer recent before after email code id now made s)

  pub data Reaches (s : Requests State) : Requests State → Type 0 where
    here : Reaches s s
    next : {t u : Requests State} → Reaches s t → Step t u → Reaches s u

  -- The codes that were made are counted by whoever counts, and those in flight have room.
  abbrev pub HasRoom : Requests State → Type 0
  HasRoom r =
      (length r.counts ≤ n)
      × (r.made ≤ count (is_recent user type 60 (start + 3600)) r.tokens)
      × (r.made + passers r.counts < max_tokens_per_hour + n)

  answered-HasRoom :
      (recent : ℕ) (before after : List ℕ) (email code : String) (id now made : ℕ) (s : State)
      → start ≤ now
      → get s id ≡ none
      → HasRoom (record { tokens = s; made = made; counts = before ++ recent ∷ after })
      → HasRoom (after_answer recent before after email code id now made s)
  unfolding create
  answered-HasRoom recent before after email code id now made s from fresh (few, known, room) =
      let split = passers-middle before after recent in
      let fewer = length-middle before after recent in
      elim (Bool-cases (leb max_tokens_per_hour recent)) [
        | inl full ↦
            rw full (omega (arith, few, fewer), omega (arith, known), omega (arith, room, split))
        | inr free ↦
            let d = new_token user email (hash_token code) type now in
            let q = is_recent user type 60 (start + 3600) in
            let one : tally q (some d) ≡ 1 =
              ap (λ (b : Bool). if b then 1 else 0)
                (is_recent-new_token user email (hash_token code) type now start from) in
            let passes : passers (recent ∷ []) ≡ 1 = ground (arith, free) in
            rw free (
              omega (arith, few, fewer),
              omega (arith, known, count-put q id d s, ap (tally q) fresh, one),
              omega (arith, room, split, passes),
            )
      ]

  Step-HasRoom : {r t : Requests State} → Step r t → HasRoom r → HasRoom t
  unfolding count_recent
  Step-HasRoom (counted now r from until free) (few, known, room) =
      let q = is_recent user type 60 now in
      let more =
        count_mono (is_recent user type 60 (start + 3600)) q r.tokens
          (λ d m. is_recent_later user type now (start + 3600) d until m) in
      (
        omega (arith, free),
        known,
        elim (Bool-cases (ltb (count q r.tokens) max_tokens_per_hour)) [
          | inr full ↦ ground (arith, full, room)
          | inl passes ↦
              let low : count q r.tokens < max_tokens_per_hour = ground (arith, passes) in
              omega (arith, known, more, low, free, passers-length (count q r.tokens ∷ r.counts))
        ],
      )
  Step-HasRoom (answered recent before after email code id now made s from fresh) h =
      answered-HasRoom recent before after email code id now made s from fresh h

  Reaches-HasRoom : {r t : Requests State} → HasRoom r → Reaches r t → HasRoom t
  Reaches-HasRoom h here = h
  Reaches-HasRoom h (next run step) = Step-HasRoom step (Reaches-HasRoom h run)

  -- The hourly limit, by the number of requests at once. Of the requests of one user for one type of
  -- code that count and store within an hour and delete nothing, where no more than n are ever in
  -- flight between the two, at most 2 + n make a code, in any interleaving: three where the requests
  -- come one after another. A new token gets an `_id` that no stored token has.
  pub created-Bounded :
      (s : State) (t : Requests State)
      → Reaches (record { tokens = s; made = 0; counts = [] }) t
      → t.made ≤ 2 + n
  created-Bounded s t run =
      let (few, known, room) =
        Reaches-HasRoom {r = record { tokens = s; made = 0; counts = [] }} {t = t}
          (omega arith, omega arith, omega arith) run in
      omega (arith, room)
