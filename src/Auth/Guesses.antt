-- ===== src/Auth/Guesses.antt =====
-- services/auth/otp.py, `verify_otp`, by many requests at once: each reads the token, and later writes
-- what it made of it. How many wrong guesses a token allows then.
use spoo.Base.{
  ℕ, suc, ◌+◌, ◌<◌, ◌≤◌, String, ◌≡◌, ◌∙◌, ap, refl, sym, subst, Bool, true, ◌&&◌, some, List, [],
  ◌∷◌, ◌++◌, inl, inr, arith, length, Bool-cases, ℕ-cases, some-injective, ltb, ◌==◌, if◌then◌else◌,
}
use spoo.Base.Collection.{
  Collection, find_and_update, find_and_update-before, get-find_and_update_ne, delete_many-before,
}
use spoo.Auth.{VerificationTokenDoc, TokenType}
use spoo.Auth.Tokens.{
  create, consume_if_unused, increment_attempts, find_latest_by_user, is_consumable, used,
  attempted,
}
use spoo.Auth.Otp.{check_token, new_token, max_verification_attempts}
use spoo.Auth.Verify.{latest-open, check_token-contents}
use spoo.Auth.Once.{found-put}

-- A verification between its read and its write: the token as it was read, the code and the time.
pub record Guess : Type 0 where
  pub id : ℕ
  pub token : VerificationTokenDoc
  pub code : String
  pub now : ℕ

-- The guesses that read the token `j` and are let through by the attempts that they read.
abbrev pub passers : ℕ → List Guess → ℕ
passers j [] = 0
passers j (g ∷ gs) =
    let rest = passers j gs in
    if g.id == j && ltb g.token.attempts max_verification_attempts then suc rest else rest

passers-length : (j : ℕ) (gs : List Guess) → passers j gs ≤ length gs
passers-length j [] = omega arith
passers-length j (g ∷ gs) = ground (arith, passers-length j gs)

passers-middle :
    (j : ℕ) (before after : List Guess) (g : Guess)
    → passers j (before ++ g ∷ after) ≡ passers j (g ∷ []) + passers j (before ++ after)
passers-middle j [] after g = ground arith
passers-middle j (b ∷ before) after g = ground (arith, passers-middle j before after g)

length-middle :
    (before after : List Guess) (g : Guess)
    → length (before ++ g ∷ after) ≡ suc (length (before ++ after))
length-middle [] after g = refl
length-middle (b ∷ before) after g = ap suc (length-middle before after g)

module _ (hash_token : String → String) (db : Collection ℕ VerificationTokenDoc) (n : ℕ) where
  open db use {State, get, put, delete_many}

  -- The tokens, and the verifications in flight, at most `n`. New codes are made and codes deleted.
  pub data Step : State × List Guess → State × List Guess → Type 0 where
    looked :
        (user k now : ℕ) (type : TokenType) (d : VerificationTokenDoc) (code : String) (s : State)
        (gs : List Guess)
        → find_latest_by_user db user type s ≡ some (k, d)
        → length gs < n
        → Step (s, gs) (s, record { id = k; token = d; code = code; now = now } ∷ gs)
    settled :
        (g : Guess) (before after : List Guess) (s : State)
        → Step
            (s, before ++ g ∷ after)
            ((check_token hash_token db (g.id, g.token) g.code g.now s).1, before ++ after)
    created :
        (user id now : ℕ) (email hash : String) (type : TokenType) (s : State) (gs : List Guess)
        → Step (s, gs) (create db id (new_token user email hash type now) s, gs)
    deleted :
        (q : VerificationTokenDoc → Bool) (s : State) (gs : List Guess)
        → Step (s, gs) (delete_many q s, gs)

  pub data Reaches (s : State × List Guess) : State × List Guess → Type 0 where
    here : Reaches s s
    next : {t u : State × List Guess} → Reaches s t → Step t u → Reaches s u

  module _ (j : ℕ) where
    -- Every guess that is still let through has room.
    abbrev pub HasRoom : State × List Guess → Type 0
    HasRoom (s, gs) =
        (length gs ≤ n)
        × ((e : VerificationTokenDoc)
            → get s j ≡ some e
            → e.attempts + passers j gs < max_verification_attempts + n)

    -- What a write makes of the attempts.
    kept-attempts :
        (k : ℕ) (q : VerificationTokenDoc → Bool) (f : VerificationTokenDoc → VerificationTokenDoc)
        (s : State) (e : VerificationTokenDoc)
        → ((d : VerificationTokenDoc) → (f d).attempts ≡ d.attempts)
        → get (find_and_update db k q f s).1 j ≡ some e
        → (d : VerificationTokenDoc) × (get s j ≡ some d) × (e.attempts ≡ d.attempts)
    kept-attempts k q f s e keep after =
        let (d, before, origin) = find_and_update-before db k j q f s e (ℕ-cases k j) after in
        elim origin [
          | inl same ↦ (d, before, ap (λ x. x.attempts) same)
          | inr (m, changed) ↦ (d, before, ap (λ x. x.attempts) changed ∙ keep d)
        ]

    settled-HasRoom :
        (g : Guess) (before after : List Guess) (s : State)
        → HasRoom (s, before ++ g ∷ after)
        → HasRoom ((check_token hash_token db (g.id, g.token) g.code g.now s).1, before ++ after)
    unfolding consume_if_unused increment_attempts
    settled-HasRoom g before after s (few, room) =
        let split = passers-middle j before after g in
        (
          omega (arith, few, length-middle before after g),
          λ e stored. elim (check_token-contents hash_token db g.id g.now g.token g.code s) [
            | inl same ↦ omega (arith, split, room e (sym (ap (λ t. get t j) same) ∙ stored))
            | inr (inl consumed) ↦
                let (d, was, attempts) =
                  kept-attempts g.id (is_consumable g.now) (used g.now) s e (λ d. refl)
                    (sym (ap (λ t. get t j) consumed) ∙ stored) in
                omega (arith, split, attempts, room d was)
            | inr (inr (passes, counted)) ↦
                let now_stored = sym (ap (λ t. get t j) counted) ∙ stored in
                elim (ℕ-cases g.id j) [
                  | inr other ↦ omega (
                    arith,
                    split,
                    room e (
                        sym (get-find_and_update_ne db g.id j (λ d. true) attempted s other)
                        ∙ now_stored),
                  )
                  | inl own ↦
                      let one : passers j (g ∷ []) ≡ 1 = ground (arith, own, passes) in
                      let (d, was, origin) =
                        find_and_update-before db g.id j (λ d. true) attempted s e (inl own)
                          now_stored in
                      elim origin [
                        | inl same ↦
                            omega (arith, split, one, ap (λ x. x.attempts) same, room d was)
                        | inr (m, changed) ↦
                            omega (arith, split, one, ap (λ x. x.attempts) changed, room d was)
                      ]
                ]
          ],
        )

    looked-HasRoom :
        (g : Guess) (s : State) (gs : List Guess)
        → get s g.id ≡ some g.token
        → length gs < n
        → HasRoom (s, gs)
        → HasRoom (s, g ∷ gs)
    looked-HasRoom g s gs read free (few, room) = (
      omega (arith, free),
      λ e stored. elim (ℕ-cases g.id j) [
        | inr other ↦ ground (arith, other, room e stored)
        | inl own ↦
            let same : g.token ≡ e =
              some-injective g.token e (sym read ∙ ap (get s) own ∙ stored) in
            elim (Bool-cases (ltb g.token.attempts max_verification_attempts)) [
              | inr spent ↦ ground (arith, spent, room e stored)
              | inl passes ↦
                  let low : e.attempts < max_verification_attempts =
                    subst (λ x. x.attempts < max_verification_attempts) same
                      (ground (arith, passes)) in
                  omega (arith, low, free, passers-length j (g ∷ gs))
            ]
      ],
    )

    Step-HasRoom : {s t : State × List Guess} → Step s t → HasRoom s → HasRoom t
    unfolding create
    Step-HasRoom (looked user k now type d code s gs found free) h =
        looked-HasRoom (record { id = k; token = d; code = code; now = now }) s gs
          (latest-open hash_token db user type s k d found).0 free h
    Step-HasRoom (settled g before after s) h = settled-HasRoom g before after s h
    Step-HasRoom (created user id now email hash type s gs) (few, room) = (
      few,
      λ e stored. elim (found-put db id j (new_token user email hash type now) e s stored) [
        | inl fresh ↦ omega (arith, ap (λ x. x.attempts) fresh, few, passers-length j gs)
        | inr (apart, was) ↦ room e was
      ],
    )
    Step-HasRoom (deleted q s gs) (few, room) =
        (few, λ e stored. room e (delete_many-before db q j s e stored))

    Reaches-HasRoom : {s t : State × List Guess} → HasRoom s → Reaches s t → HasRoom t
    Reaches-HasRoom h here = h
    Reaches-HasRoom h (next r step) = Step-HasRoom step (Reaches-HasRoom h r)

    -- Guessing is bounded by the number of requests at once. Where no more than n verifications are
    -- ever in flight between their read of a token and their write, in any interleaving with each
    -- other, with new codes and with deletions, whatever the users, codes, types and times, a token
    -- that starts with at most 4 + n wrong guesses against it never has more: five where the
    -- verifications come one after another.
    pub guesses-Bounded :
        (s t : State) (gs : List Guess) (e : VerificationTokenDoc)
        → ((d : VerificationTokenDoc)
            → get s j ≡ some d
            → d.attempts < max_verification_attempts + n)
        → Reaches (s, []) (t, gs)
        → get t j ≡ some e
        → e.attempts ≤ 4 + n
    guesses-Bounded s t gs e start run stored =
        let (few, room) =
          Reaches-HasRoom {s = (s, [])} {t = (t, gs)}
            (omega arith, λ d was. omega (arith, start d was)) run in
        omega (arith, room e stored)
