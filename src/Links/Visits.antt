-- ===== src/Links/Visits.antt =====
-- What a redirect of routes/redirect_routes.py, `redirect_url`, needs, and where it goes.
use spoo.Base.{
  ℕ, zero, suc, String, ◌≡◌, ◌⊎◌, ◌∙◌, refl, sym, ap, subst, Bool, true, false, ◌&&◌, not, Option,
  none, some, List, [], ◌∷◌, inl, inr, Result, ok, err, arith, str_eq, eq_iff, Bool-cases,
  Option-cases, is_none, if◌then◌else◌, and-eq-true,
}
use spoo.Links.{UrlCacheData, AbVariant, SchemaVersion, is_v2}
use spoo.Links.Cached.{
  truthy, ResolveError, not_found, blocked_url, gone, expired_redirect, not_yet_live,
}
use spoo.Links.Variants.{pick_variant}
use spoo.Links.Redirect.{
  Visit, Classifiers, Response, preview_page, password_page, forbidden_page, redirect, on_error,
  verify_password, wants_preview, is_untracked, should_block_bot, entry, rules_of, variants_of,
  country, matched_rule, url_at, split, destination_of, destination, is_empty, serve, redirect_url,
}

-- A url of some rule, and of some variant.
abbrev pub IsRuleUrl : String → List (String × String) → Type 0
IsRuleUrl u [] = ⊥
IsRuleUrl u ((k, w) ∷ rules) = (u ≡ w) ⊎ IsRuleUrl u rules

abbrev pub IsVariantUrl : String → List AbVariant → Type 0
IsVariantUrl u [] = ⊥
IsVariantUrl u (v ∷ vs) = (u ≡ v.url) ⊎ IsVariantUrl u vs

-- One of the destinations that the owner gave the link.
abbrev pub IsDestination : String → UrlCacheData → Type 0
IsDestination u link =
    (u ≡ link.long_url) ⊎ (IsRuleUrl u (rules_of link) ⊎ IsVariantUrl u (variants_of link))

entry-IsRuleUrl :
    (rules : List (String × String)) (k u : String) → entry rules k ≡ some u → IsRuleUrl u rules
entry-IsRuleUrl [] k u h = ground (arith, h)
entry-IsRuleUrl ((j, w) ∷ rules) k u h = elim (Bool-cases (str_eq j k)) [
  | inl here ↦ inl (ground (arith, here, h))
  | inr there ↦ inr (entry-IsRuleUrl rules k u (ground (arith, there, h)))
]

matched_rule-IsRuleUrl :
    (rules : List (String × String)) (o : Option String) (u : String)
    → matched_rule rules o ≡ some u
    → IsRuleUrl u rules
matched_rule-IsRuleUrl rules none u h = ground (arith, h)
matched_rule-IsRuleUrl rules (some k) u h = entry-IsRuleUrl rules k u h

url_at-IsVariantUrl :
    (vs : List AbVariant) (n : ℕ) (other : String)
    → (url_at vs n other ≡ other) ⊎ IsVariantUrl (url_at vs n other) vs
url_at-IsVariantUrl [] n other = inl refl
url_at-IsVariantUrl (v ∷ vs) zero other = inr (inl refl)
url_at-IsVariantUrl (v ∷ vs) (suc n) other = elim (url_at-IsVariantUrl vs n other) [
  | inl same ↦ inl same
  | inr later ↦ inr (inr later)
]

split-IsVariantUrl :
    (vs : List AbVariant) (o : Option ℕ) (other : String)
    → (split vs o other ≡ other) ⊎ IsVariantUrl (split vs o other) vs
split-IsVariantUrl vs none other = inl refl
split-IsVariantUrl vs (some n) other = url_at-IsVariantUrl vs n other

destination-IsDestination :
    (c : Classifiers) (v : Visit) (link : UrlCacheData) → IsDestination (destination c v link) link
unfolding destination
destination-IsDestination c v link =
    go (matched_rule (rules_of link) (country c v))
      (λ u h. matched_rule-IsRuleUrl (rules_of link) (country c v) u h)
  where
    go :
        (o : Option String)
        → ((u : String) → o ≡ some u → IsRuleUrl u (rules_of link))
        → IsDestination (destination_of o link v.roll) link
    go (some u) rule = inr (inl (rule u refl))
    go none rule =
        elim (split-IsVariantUrl (variants_of link) (pick_variant (variants_of link) v.roll)
          link.long_url) [ inl same ↦ inl same | inr variant ↦ inr (inr variant) ]

on_error-redirect :
    (e : ResolveError) (u : String) (store : Bool) → on_error e ≡ redirect u store → ⊥
unfolding on_error
on_error-redirect not_found u store h = ground (arith, h)
on_error-redirect blocked_url u store h = ground (arith, h)
on_error-redirect gone u store h = ground (arith, h)
on_error-redirect (expired_redirect url) u store h = ground (arith, h)
on_error-redirect (not_yet_live url) u store h = elim (Option-cases (truthy url)) [
  | inl page ↦ ground (arith, page, h)
  | inr (w, away) ↦ ground (arith, away, h)
]

is_empty-nil {ℓ} : {A : Type ℓ} (xs : List A) → is_empty xs ≡ true → xs ≡ []
is_empty-nil [] h = refl
is_empty-nil (x ∷ xs) h = absurd (ground (arith, h))

matched_rule-none : (o : Option String) → matched_rule [] o ≡ none
matched_rule-none none = refl
matched_rule-none (some k) = refl

-- A link without rules and variants has one destination.
sole-destination :
    (c : Classifiers) (v : Visit) (link : UrlCacheData)
    → (is_empty (rules_of link) && is_empty (variants_of link)) ≡ true
    → destination c v link ≡ link.long_url
unfolding destination pick_variant
sole-destination c v link h =
    let (no_rules, no_variants) =
      and-eq-true (is_empty (rules_of link)) (is_empty (variants_of link)) h in
    let unmatched : matched_rule (rules_of link) (country c v) ≡ none =
      ap (λ rules. matched_rule rules (country c v)) (is_empty-nil (rules_of link) no_rules)
      ∙ matched_rule-none (country c v) in
    ap (λ o. destination_of o link v.roll) unmatched
    ∙ ap (λ vs. split vs (pick_variant vs v.roll) link.long_url)
        (is_empty-nil (variants_of link) no_variants)

-- What a redirect says of a bot: a link of the older generations that blocks bots answers a known bot
-- only where the request is not tracked or names no agent; for a link of the second generation the
-- answer is the same to a bot as to anyone, whether the link blocks bots or not.
abbrev pub Meets : Classifiers → Visit → UrlCacheData → SchemaVersion → Response → Type 0
Meets c v link schema answer =
    (link.block_bots ≡ true
      → is_v2 schema ≡ false
      → c.is_bot_request v.user_agent ≡ true
      → (is_untracked v.method ≡ true) ⊎ (v.user_agent ≡ ""))
    × (is_v2 schema ≡ true
        → (b : Bool)
        → redirect_url (record c { is_bot_request = λ agent. b }) v (ok (link, schema)) ≡ answer)

meets :
    (c : Classifiers) (v : Visit) (link : UrlCacheData) (schema : SchemaVersion) (u : String)
    (store : Bool)
    → redirect_url c v (ok (link, schema)) ≡ redirect u store
    → should_block_bot c v link schema ≡ false
    → Meets c v link schema (redirect u store)
unfolding redirect_url serve should_block_bot destination wants_preview
meets c v link schema u store h human = (
  λ blocks old bot. elim (Bool-cases (is_untracked v.method)) [
    | inl untracked ↦ inl untracked
    | inr tracked ↦ inr (unnamed blocks old bot tracked)
  ],
  λ two b. ap after_bots (free two b ∙ sym human) ∙ h,
)
  where
    -- The rest of the chain, by whether the visitor is blocked.
    after_bots : Bool → Response
    after_bots blocked =
        if not (is_none link.meta_title) && (is_v2 schema && wants_preview c v)
        then preview_page
        else if not (verify_password c.verify_hash link v.password)
        then password_page
        else if blocked
        then forbidden_page
        else if not (is_untracked v.method) && c.sink_forbids
        then forbidden_page
        else redirect (destination c v link)
            (is_empty (rules_of link) && is_empty (variants_of link))

    free :
        is_v2 schema ≡ true
        → (b : Bool)
        → should_block_bot (record c { is_bot_request = λ agent. b }) v link schema ≡ false
    free two b = ground (arith, two)

    unnamed :
        link.block_bots ≡ true
        → is_v2 schema ≡ false
        → c.is_bot_request v.user_agent ≡ true
        → is_untracked v.method ≡ false
        → v.user_agent ≡ ""
    unnamed blocks old bot tracked = elim (Bool-cases (str_eq v.user_agent "")) [
      | inl empty ↦ (eq_iff v.user_agent "").0 empty
      | inr named ↦ absurd (ground (arith, blocks, old, bot, tracked, named, human))
    ]

-- A redirect keeps the owner's rules. Whatever the matchers, the country, the roll and the click sink
-- say, a redirect goes to a destination that the owner gave the resolved link, with its password
-- given if it has one, and an answer that may be stored goes to the link's default destination. A
-- link of the older generations that blocks bots redirects a known bot only where the request is a
-- HEAD or OPTIONS or names no agent; a link of the second generation redirects a bot like anyone,
-- also where it blocks bots.
pub redirect_url-IsDestination :
    (c : Classifiers) (v : Visit) (r : Result ResolveError (UrlCacheData × SchemaVersion))
    (u : String) (store : Bool)
    → redirect_url c v r ≡ redirect u store
    → (link : UrlCacheData) × (schema : SchemaVersion) × (r ≡ ok (link, schema))
      × IsDestination u link
      × (verify_password c.verify_hash link v.password ≡ true)
      × Meets c v link schema (redirect u store)
      × (store ≡ true → u ≡ link.long_url)
unfolding redirect_url serve
redirect_url-IsDestination c v (err e) u store h = absurd (on_error-redirect e u store h)
redirect_url-IsDestination c v (ok (link, schema)) u store h =
    elim (Bool-cases (not (is_none link.meta_title) && (is_v2 schema && wants_preview c v))) [
      | inl preview ↦ absurd (ground (arith, preview, h))
      | inr plain ↦ elim (Bool-cases (verify_password c.verify_hash link v.password)) [
        | inr wrong ↦ absurd (ground (arith, plain, wrong, h))
        | inl right ↦ elim (Bool-cases (should_block_bot c v link schema)) [
          | inl bot ↦ absurd (ground (arith, plain, right, bot, h))
          | inr human ↦ elim (Bool-cases (not (is_untracked v.method) && c.sink_forbids)) [
            | inl forbidden ↦ absurd (ground (arith, plain, right, human, forbidden, h))
            | inr emitted ↦
                let store_of = is_empty (rules_of link) && is_empty (variants_of link) in
                let there : redirect (destination c v link) store_of ≡ redirect u store =
                  ground (arith, plain, right, human, emitted, h) in
                let to_url : destination c v link ≡ u = ground (arith, there) in
                let storable : store_of ≡ store = ground (arith, there) in
                (
                  link,
                  schema,
                  refl,
                  subst (λ w. IsDestination w link) to_url (destination-IsDestination c v link),
                  right,
                  meets c v link schema u store h human,
                  λ stored. sym to_url ∙ sole-destination c v link (storable ∙ stored),
                )
          ]
        ]
      ]
    ]
