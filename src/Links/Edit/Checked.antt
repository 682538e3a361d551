-- ===== src/Links/Edit/Checked.antt =====
-- The answer of `check_alias` (services/url_service.py) and what the creation of a link then says.
use spoo.Base.{
  String, ◌≡◌, ◌≢◌, ◌⊎◌, refl, true, false, Option, arith, inl, inr, Bool-cases, Result, ok, err,
  ltb,
}
use spoo.Base.Text.{len}
use spoo.Links.Resolve.{Deployment, Site}
use spoo.Links.Edit.{Rules, EditError, EmojiVerdict, accepted, empty_alias, too_long, unsupported}
use spoo.Links.Edit.Values.{is_emoji_candidate, validate_alias, is_reserved_alias}
use spoo.Links.Edit.Availability.{
  AliasCheckResult, available, check_alias, canonical_alias, scope_of,
}
use spoo.Links.Edit.Create.{custom_alias}

plain-validate_alias :
    (alias : String) → is_emoji_candidate alias ≡ false → validate_alias alias ≡ true
unfolding is_emoji_candidate validate_alias
plain-validate_alias String.[] h = refl
plain-validate_alias (String.◌∷◌ c s) h = ground (arith, h, plain-validate_alias s)

EmojiVerdict-cases :
    (v : EmojiVerdict) → (v ≡ accepted) ⊎ (v ≡ empty_alias) ⊎ (v ≡ too_long) ⊎ (v ≡ unsupported)
EmojiVerdict-cases accepted = inl refl
EmojiVerdict-cases empty_alias = inr (inl refl)
EmojiVerdict-cases too_long = inr (inr (inl refl))
EmojiVerdict-cases unsupported = inr (inr (inr refl))

module _ (app : Deployment) (rules : Rules) (s : Site app) where
  open app use {policy}

  -- What a creation with that alias comes to.
  abbrev pub Told : Result EditError String → AliasCheckResult → Type 0
  Told (ok new) answer = answer ≡ available
  Told (err e) answer = answer ≢ available

  module _ (alias : String) (domain : Option String) where
    plain-Told :
        is_emoji_candidate alias ≡ false
        → ltb (len alias) 3 ≡ false
        → ltb 16 (len alias) ≡ false
        → Told
            (custom_alias app rules alias (scope_of app rules domain) s)
            (check_alias app rules alias domain s)
    unfolding custom_alias canonical_alias check_alias
    plain-Told plain long short =
        ground (arith, plain, plain-validate_alias alias plain, long, short)

    emoji-Told :
        is_emoji_candidate alias ≡ true
        → validate_alias alias ≡ false
        → rules.is_emoji_only (policy.canonicalize alias) ≡ true
        → is_reserved_alias (policy.canonicalize alias) ≡ false
        → Told
            (custom_alias app rules alias (scope_of app rules domain) s)
            (check_alias app rules alias domain s)
    unfolding custom_alias canonical_alias check_alias
    emoji-Told candidate other shaped free =
        elim (EmojiVerdict-cases (rules.check_emoji (policy.canonicalize alias))) [
          | inl yes_ ↦ ground (arith, candidate, other, shaped, free, yes_)
          | inr no_ ↦ elim no_ [
            | inl e ↦ rw (candidate, other, shaped, e) (λ p. cc)
            | inr (inl e) ↦ rw (candidate, other, shaped, e) (λ p. cc)
            | inr (inr e) ↦ rw (candidate, other, shaped, e) (λ p. cc)
          ]
        ]

  -- The form tells the truth. Of an alias that passes the request schema, which is letters, digits,
  -- dashes and underscores, three to sixteen of them, or emoji only, `check_alias` says that it is
  -- available on a domain exactly if a creation with it is not refused for its alias, where no
  -- emoji alias reads as a reserved word in its canonical form.
  pub check_alias-Told :
      (alias : String) (domain : Option String)
      → (is_emoji_candidate alias ≡ false
          → (ltb (len alias) 3 ≡ false) × (ltb 16 (len alias) ≡ false))
      → (is_emoji_candidate alias ≡ true
          → (validate_alias alias ≡ false)
            × (rules.is_emoji_only (policy.canonicalize alias) ≡ true)
            × (is_reserved_alias (policy.canonicalize alias) ≡ false))
      → Told
          (custom_alias app rules alias (scope_of app rules domain) s)
          (check_alias app rules alias domain s)
  check_alias-Told alias domain plain shaped = elim (Bool-cases (is_emoji_candidate alias)) [
    | inr other ↦ plain-Told alias domain other (plain other).0 (plain other).1
    | inl candidate ↦
        let (line, only, free) = shaped candidate in
        emoji-Told alias domain candidate line only free
  ]
