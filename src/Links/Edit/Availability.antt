-- ===== src/Links/Edit/Availability.antt =====
-- services/url_service.py: which aliases are free, and the canonical form of a custom alias.
use spoo.Base.{
  String, Bool, true, false, ◌&&◌, not, Option, none, some, Result, ok, err, is_none, str_eq,
  if◌then◌else◌, ltb,
}
use spoo.Base.Text.{len}
use spoo.Links.Cached.{truthy}
use spoo.Links.Resolve.{Deployment, Site, find_by_alias}
use spoo.Links.Edit.{Rules, EditError, invalid, accepted, empty_alias, too_long, unsupported}
use spoo.Links.Edit.Values.{is_emoji_candidate, validate_alias, is_reserved_alias}

pub data AliasCheckResult : Type 0 where
  available bad_length bad_format reserved taken emoji_policy : AliasCheckResult

module _ (app : Deployment) (rules : Rules) where
  open app use {policy, system_domain}

  -- `domain or self._system_default_domain`
  abbrev pub scope_of : Option String → String
  scope_of domain = elim (truthy domain) [ none ↦ system_domain | some d ↦ d ]

  unfoldable pub check_alias_exists : String → String → Site app → Bool
  unfolding find_by_alias
  check_alias_exists alias domain s = not (is_none (find_by_alias app alias domain s))

  -- On the default domain the older generations count too.
  unfoldable pub check_alias_available : String → String → Site app → Bool
  unfolding check_alias_exists is_emoji_candidate
  check_alias_available alias target s =
      if check_alias_exists alias target s
      then false
      else if str_eq target system_domain
      then (if not (is_none (s.legacy alias))
          then false
          else if is_emoji_candidate alias
          then not (rules.emoji_exists s.emojis alias)
          else true)
      else true

  -- What the form is told of an alias before it is submitted.
  unfoldable pub check_alias : String → Option String → Site app → AliasCheckResult
  unfolding check_alias_available is_emoji_candidate validate_alias is_reserved_alias
  check_alias alias domain s =
      if is_emoji_candidate alias
      then (let canonical = policy.canonicalize alias in
          if not (rules.is_emoji_only canonical)
          then bad_format
          else elim (rules.check_emoji canonical) [
            | too_long ↦ bad_length
            | empty_alias ↦ bad_length
            | unsupported ↦ emoji_policy
            | accepted ↦
                if not (check_alias_available canonical (scope_of domain) s)
                then taken
                else available
          ])
      else if ltb (len alias) 3
      then bad_length
      else if ltb 16 (len alias)
      then bad_length
      else if not (validate_alias alias)
      then bad_format
      else if str_eq (scope_of domain) system_domain && is_reserved_alias alias
      then reserved
      else if not (check_alias_available alias (scope_of domain) s)
      then taken
      else available

  -- `_validate_and_canonicalize_custom_alias`
  unfoldable pub canonical_alias : String → Result EditError String
  unfolding validate_alias
  canonical_alias alias =
      if validate_alias alias
      then ok alias
      else elim (rules.check_emoji (policy.canonicalize alias)) [
        | accepted ↦ ok (policy.canonicalize alias)
        | too_long ↦ err (invalid "alias")
        | empty_alias ↦ err (invalid "alias")
        | unsupported ↦ err (invalid "alias")
      ]
