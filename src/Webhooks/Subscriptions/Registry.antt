-- ===== src/Webhooks/Subscriptions/Registry.antt =====
-- services/webhooks/registry.py: the names of the event types and the patterns. The payload models
-- and samples are left out.
use spoo.Base.{
  String, Option, none, some, List, [], ◌∷◌, ◌++◌, map, any, filter, str_eq, if◌then◌else◌, Result,
  ok, err,
}
use spoo.Base.Text.{append, strip_suffix}

-- A name and its category.
pub record EventTypeSpec : Type 0 where
  pub name : String
  pub category : String

abbrev pub link_spec : String → EventTypeSpec
link_spec name = record { name = name; category = "link" }

-- `EVENT_REGISTRY`
abbrev pub event_registry : List EventTypeSpec
event_registry =
    link_spec "link.created"
    ∷ link_spec "link.updated"
    ∷ link_spec "link.deleted"
    ∷ link_spec "link.clicked"
    ∷ link_spec "link.expired"
    ∷ link_spec "link.blocked"
    ∷ []

-- `TEST_EVENT_TYPE`
abbrev pub test_event_type : String
test_event_type = "webhook.test"

-- Any registry: `event_registry` is the one of the program.
module _ (registry : List EventTypeSpec) where
  abbrev pub names : List String
  names = map (λ spec. spec.name) registry

  -- `valid_patterns`, as a list
  abbrev pub valid_patterns : List String
  valid_patterns = names ++ map (λ spec. append spec.category ".*") registry ++ "*" ∷ []

  -- The names of a category.
  abbrev pub names_in : String → List String
  names_in category =
      map (λ spec. spec.name) (filter (λ spec. str_eq spec.category category) registry)

  -- The names that a pattern which is not "*" adds.
  abbrev pub added : String → Option String → List String
  added pattern (some category) = names_in category
  added pattern none = if any (str_eq pattern) names then pattern ∷ [] else []

  -- `expand`, from what the loop has so far; "*" ends the loop
  unfoldable pub expand_from : List String → List String → List String
  expand_from out [] = out
  expand_from out (pattern ∷ patterns) =
      let rest = expand_from (out ++ added pattern (strip_suffix ".*" pattern)) patterns in
      if str_eq pattern "*" then names else rest

  unfoldable pub expand : List String → List String
  unfolding expand_from
  expand patterns = expand_from [] patterns

  -- The first unknown pattern, if there is one; the suggestion in the message is left out.
  unfoldable pub validate_patterns : List String → Result String (Unit {0})
  validate_patterns [] = ok tt
  validate_patterns (pattern ∷ patterns) =
      let rest = validate_patterns patterns in
      if any (str_eq pattern) valid_patterns then rest else err pattern
