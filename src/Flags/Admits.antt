-- ===== src/Flags/Admits.antt =====
-- Who a rollout lets in, as schemas/enums/rollout_type.py describes it, apart from the code of the
-- checks and their order.
use spoo.Base.{
  Listed, any-Listed, ◌<◌, String, Bool, true, false, not, Option, none, some, List, any, str_eq,
  eq_iff, ◌==◌, ◌≡◌, ◌≢◌, ◌↔◌, ◌⊎◌, inl, inr, refl, sym, ◌∙◌, arith, Bool-cases, Option-cases,
  if◌then◌else◌, subst, and-eq-true, ==_iff,
}
use spoo.Base.Text.{opt_eq→eq, opt_eq_refl}
use spoo.Flags.{
  RolloutType, off, everyone, allowlist, by_percentage, hex_digit, by_tier, FeatureFlagDoc,
  CurrentUser, Digest, stable_hash, digit_bucket, email_listed, is_user_in_allowlist, in_rollout,
  anonymous, decide,
}

module _ (lower : String → String) (blake2b : Digest) where
  -- The rollout of a flag admits a user.
  abbrev pub Includes : FeatureFlagDoc → RolloutType → CurrentUser → Type 0
  Includes flag off user = ⊥
  Includes flag everyone user = Unit
  Includes flag allowlist user =
      Listed user.user_id flag.allowlist_user_ids
      ⊎ ((e : String) × (user.email ≡ some e) × (e ≢ "") × Listed (lower e) flag.allowlist_emails)
  Includes flag by_percentage user = stable_hash blake2b user.user_id flag.name < flag.percentage
  Includes flag hex_digit user =
      Listed (digit_bucket blake2b user.user_id flag.name) flag.enabled_digits
  Includes flag by_tier user = (t : String) × (flag.tier ≡ some t) × (user.tier ≡ some t)

  -- A flag lets a caller in: it is on, and its rollout is EVERYONE or includes the user.
  abbrev pub Admits : FeatureFlagDoc → Option CurrentUser → Type 0
  Admits flag none = (flag.enabled ≡ true) × (flag.rollout_type ≡ everyone)
  Admits flag (some user) = (flag.enabled ≡ true) × Includes flag flag.rollout_type user

  email-Listed :
      (listed : List String) (email : Option String)
      → (email_listed lower listed email ≡ true)
        ↔ ((e : String) × (email ≡ some e) × (e ≢ "") × Listed (lower e) listed)
  email-Listed listed none = (λ h. cc, λ (e, h, named, found). cc)
  email-Listed listed (some e) = (
    λ h.
        let (present, found) = and-eq-true (not (str_eq e "")) (any (str_eq (lower e)) listed) h in
        (
          e,
          refl,
          λ empty. cc (present, (eq_iff e "").1 empty),
          (any-Listed str_eq eq_iff (lower e) listed).0 found,
        ),
    λ (e', same, named, found).
        let same_text : e ≡ e' = cc in
        let present : str_eq e "" ≡ false = elim (Bool-cases (str_eq e "")) [
          | inl t ↦ absurd (named (sym same_text ∙ (eq_iff e "").0 t))
          | inr n ↦ n
        ] in
        let listed_ : any (str_eq (lower e)) listed ≡ true =
          (any-Listed str_eq eq_iff (lower e) listed).1
            (subst (λ x. Listed (lower x) listed) (sym same_text) found) in
        rw present listed_,
  )

  allowlist-Listed :
      (flag : FeatureFlagDoc) (user : CurrentUser)
      → (is_user_in_allowlist lower flag user.user_id user.email ≡ true)
        ↔ Includes flag allowlist user
  allowlist-Listed flag user = (
    λ h. elim (Bool-cases (any (λ i. user.user_id == i) flag.allowlist_user_ids)) [
      | inl t ↦ inl (by_id.0 t)
      | inr n ↦ inr (by_email.0 (ground (arith, n, h)))
    ],
    λ h. elim h [
      | inl listed ↦ ground (arith, by_id.1 listed)
      | inr listed ↦ elim (Bool-cases (any (λ i. user.user_id == i) flag.allowlist_user_ids)) [
        | inl t ↦ ground (arith, t)
        | inr n ↦ rw n (by_email.1 listed)
      ]
    ],
  )
    where
      by_id :
          (any (λ i. user.user_id == i) flag.allowlist_user_ids ≡ true)
          ↔ Listed user.user_id flag.allowlist_user_ids
      by_id = any-Listed ◌==◌ ==_iff user.user_id flag.allowlist_user_ids

      by_email : (email_listed lower flag.allowlist_emails user.email ≡ true) ↔ (
          (e : String) × (user.email ≡ some e) × (e ≢ "") × Listed (lower e) flag.allowlist_emails)
      by_email = email-Listed flag.allowlist_emails user.email

  tier-Includes :
      (flag : FeatureFlagDoc) (user : CurrentUser)
      → (in_rollout lower blake2b flag by_tier user ≡ true) ↔ Includes flag by_tier user
  tier-Includes flag user = elim (Option-cases flag.tier) [
    | inl unset ↦ (λ h. absurd (ground (arith, unset, h)), λ (t, h, mine). cc)
    | inr (t, paid) ↦ (
      λ h. (t, paid, opt_eq→eq user.tier (some t) (ground (arith, paid, h))),
      λ (t', h, mine).
          let same : user.tier ≡ some t = mine ∙ sym h ∙ paid in
          rw (paid, same) (opt_eq_refl (some t)),
    )
  ]

  in_rollout-Includes :
      (flag : FeatureFlagDoc) (rollout : RolloutType) (user : CurrentUser)
      → (in_rollout lower blake2b flag rollout user ≡ true) ↔ Includes flag rollout user
  in_rollout-Includes flag off user = (λ h. cc, λ h. absurd h)
  in_rollout-Includes flag everyone user = (λ h. tt, λ h. refl)
  in_rollout-Includes flag allowlist user = allowlist-Listed flag user
  in_rollout-Includes flag by_percentage user = (λ h. ground (arith, h), λ h. ground (arith, h))
  in_rollout-Includes flag hex_digit user =
      any-Listed str_eq eq_iff (digit_bucket blake2b user.user_id flag.name) flag.enabled_digits
  in_rollout-Includes flag by_tier user = tier-Includes flag user

  anonymous_iff : (rollout : RolloutType) → (anonymous rollout ≡ true) ↔ (rollout ≡ everyone)
  anonymous_iff off = (λ h. cc, λ h. cc)
  anonymous_iff everyone = (λ h. refl, λ h. refl)
  anonymous_iff allowlist = (λ h. cc, λ h. cc)
  anonymous_iff by_percentage = (λ h. cc, λ h. cc)
  anonymous_iff hex_digit = (λ h. cc, λ h. cc)
  anonymous_iff by_tier = (λ h. cc, λ h. cc)

  on_iff :
      {P : Type 0} (on answer : Bool)
      → (answer ≡ true) ↔ P
      → ((if on then answer else false) ≡ true) ↔ ((on ≡ true) × P)
  on_iff true answer iff = (λ h. (refl, iff.0 h), λ (h, p). iff.1 p)
  on_iff false answer iff = (λ h. cc, λ (h, p). cc)

  -- The code decides what is described here.
  pub decide-Admits :
      (flag : FeatureFlagDoc) (user : Option CurrentUser)
      → (decide lower blake2b (some flag) user ≡ true) ↔ Admits flag user
  unfolding decide
  decide-Admits flag none =
      on_iff flag.enabled (anonymous flag.rollout_type) (anonymous_iff flag.rollout_type)
  decide-Admits flag (some user) =
      on_iff flag.enabled (in_rollout lower blake2b flag flag.rollout_type user)
        (in_rollout-Includes flag flag.rollout_type user)
