-- ===== src/Flags/Stored.antt =====
-- schemas/models/feature_flag.py: the validators, which run on every document that is read. A document
-- is edited by hand, so that any value may stand in it.
use spoo.Base.{
  ℕ, String, Bool, not, Option, none, some, List, [], ◌∷◌, any, length, leb, str_eq, if◌then◌else◌,
}
use spoo.Base.Text.{strip}
use spoo.Flags.{FeatureFlagDoc, RolloutType, hex_digits}

-- `ℤ` over the native numbers: `negsuc n` is `- (n + 1)`.
pub data ℤ : Type 0 where
  pos negsuc : ℕ → ℤ

-- The fields as they are stored, each of the type that the model declares.
pub record FlagFields : Type 0 where
  pub name : String
  pub enabled : Bool
  pub rollout_type : RolloutType
  pub allowlist_user_ids : List ℕ
  pub allowlist_emails : List String
  pub percentage : ℤ
  pub enabled_digits : List String
  pub tier : Option String

-- A document of the collection: `ill_typed` has a name, and some field of another type.
pub data StoredFlag : Type 0 where
  ill_typed : String → StoredFlag
  typed : FlagFields → StoredFlag

abbrev pub stored_name : StoredFlag → String
stored_name (ill_typed name) = name
stored_name (typed f) = f.name

-- The validators; `none` is a `ValueError`.
abbrev pub name_non_empty : String → Option String
name_non_empty v = if str_eq (strip v) "" then none else some (strip v)

abbrev pub percentage_in_range : ℤ → Option ℕ
percentage_in_range (negsuc n) = none
percentage_in_range (pos n) = if leb n 100 then some n else none

abbrev pub is_hex_digit : String → Bool
is_hex_digit d = any (str_eq d) hex_digits

-- Each text that stands nowhere before.
abbrev pub deduplicated : List String → List String → List String
deduplicated seen [] = []
deduplicated seen (d ∷ ds) =
    let rest = deduplicated (d ∷ seen) ds in
    let skipped = deduplicated seen ds in if any (str_eq d) seen then skipped else d ∷ rest

abbrev pub digits_are_single_hex : List String → Option (List String)
digits_are_single_hex v =
    if not (leb (length v) 16)
    then none
    else if any (λ d. not (is_hex_digit d)) v
    then none
    else some (deduplicated [] v)

abbrev pub normalise_emails : (String → String) → List String → List String
normalise_emails lower [] = []
normalise_emails lower (e ∷ v) =
    let rest = normalise_emails lower v in
    if str_eq (strip e) "" then rest else lower (strip e) ∷ rest

-- `from_mongo`; `none` is a `ValidationError`.
unfoldable pub from_mongo : (String → String) → StoredFlag → Option FeatureFlagDoc
from_mongo lower (ill_typed name) = none
from_mongo lower (typed f) = elim (name_non_empty f.name) [
  | none ↦ none
  | some name ↦ elim (percentage_in_range f.percentage) [
    | none ↦ none
    | some percentage ↦ elim (digits_are_single_hex f.enabled_digits) [
      | none ↦ none
      | some digits ↦ some (record {
        name = name;
        enabled = f.enabled;
        rollout_type = f.rollout_type;
        allowlist_user_ids = f.allowlist_user_ids;
        allowlist_emails = normalise_emails lower f.allowlist_emails;
        percentage = percentage;
        enabled_digits = digits;
        tier = f.tier;
      })
    ]
  ]
]
