-- ===== src/Links/Edit/First.antt =====
-- No link of the first generation stands before a created one in the order of the lookup: what the
-- choice of an alias (services/url_service.py, `create`) says of the older links.
use spoo.Base.{
  ℕ, zero, suc, ◌==◌, String, ◌≡◌, ◌⊎◌, Bool, true, false, ◌&&◌, not, Option, none, some, inl, inr,
  arith, Bool-cases, Option-cases, if_keeps, Returns, Returns-bind, raise_if, str_eq, eq_iff,
}
use spoo.Base.Text.{len}
use spoo.Links.Alias.{v1_first_length}
use spoo.Links.Resolve.{Deployment, Site}
use spoo.Links.Edit.{Rules, invalid}
use spoo.Links.Edit.Values.{is_reserved_alias}
use spoo.Links.Edit.Availability.{check_alias_available, check_alias_exists, canonical_alias}
use spoo.Links.Edit.Create.{
  choose_alias, custom_alias, generate_unique_alias, generate_unique_emoji_alias,
}

module _ (app : Deployment) (rules : Rules) (s : Site app) where
  open app use {system_domain}

  -- No link of the first generation comes before one with that alias.
  abbrev pub IsFirst : String → String → Type 0
  IsFirst target alias =
      target ≡ system_domain → (s.legacy alias ≡ none) ⊎ ((len alias == v1_first_length) ≡ false)

  available-legacy :
      (alias target : String)
      → check_alias_available app rules alias target s ≡ true
      → IsFirst target alias
  unfolding check_alias_available
  available-legacy alias target free own = elim (Option-cases (s.legacy alias)) [
    | inl gone ↦ inl gone
    | inr (d, there) ↦
        absurd (ground (arith, free, there, own, (eq_iff target system_domain).1 own))
  ]

  module _ (draw : ℕ → String) where
    generate_unique_alias-IsFirst :
        (n : ℕ) (target : String)
        → ((m : ℕ) → len (draw m) ≡ 7)
        → Returns (IsFirst target) (generate_unique_alias app rules n draw target s)
    unfolding generate_unique_alias
    generate_unique_alias-IsFirst zero target seven = tt
    generate_unique_alias-IsFirst (suc n) target seven =
        if_keeps (Returns (IsFirst target)) (not (check_alias_exists app rules (draw n) target s)) _
          _ (λ missing own. inr (ground (arith, seven n)))
          (λ there. generate_unique_alias-IsFirst n target seven)

    generate_unique_emoji_alias-IsFirst :
        (n : ℕ) (target : String)
        → Returns (IsFirst target) (generate_unique_emoji_alias app rules n draw target s)
    unfolding generate_unique_emoji_alias
    generate_unique_emoji_alias-IsFirst zero target = tt
    generate_unique_emoji_alias-IsFirst (suc n) target =
        if_keeps (Returns (IsFirst target)) (check_alias_available app rules (draw n) target s) _ _
          (λ free. available-legacy (draw n) target free)
          (λ taken. generate_unique_emoji_alias-IsFirst n target)

    custom_alias-IsFirst :
        (alias target : String) → Returns (IsFirst target) (custom_alias app rules alias target s)
    unfolding custom_alias
    custom_alias-IsFirst alias target =
        Returns-bind (IsFirst target) (canonical_alias app rules alias) _ λ new _.
          Returns-bind (IsFirst target)
            (raise_if (str_eq target system_domain && is_reserved_alias new) (invalid "alias")) _
            λ u _. elim (Bool-cases (check_alias_available app rules new target s)) [
              | inr taken ↦ rw taken tt
              | inl free ↦ rw free (available-legacy new target free)
            ]

    pub choose_alias-IsFirst :
        (alias : Option String) (emoji_alias : Bool) (target : String)
        → (emoji_alias ≡ false → (m : ℕ) → len (draw m) ≡ 7)
        → Returns (IsFirst target) (choose_alias app rules alias emoji_alias draw target s)
    unfolding choose_alias
    choose_alias-IsFirst none emoji_alias target seven =
        if_keeps (Returns (IsFirst target)) emoji_alias _ _
          (λ emoji. generate_unique_emoji_alias-IsFirst 10 target)
          (λ plain. generate_unique_alias-IsFirst 10 target (seven plain))
    choose_alias-IsFirst (some alias) emoji_alias target seven = custom_alias-IsFirst alias target
