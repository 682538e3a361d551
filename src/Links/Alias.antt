-- ===== src/Links/Alias.antt =====
-- shared/alias_dispatch.py: which generation answers a code. What makes text an emoji alias, and its
-- canonical form (shared/validators.py, shared/emoji_policy.py, over the emoji library), are the
-- fields of `EmojiPolicy`.
use spoo.Base.{ℕ, ◌==◌, String, Bool, ◌&&◌, ◌||◌, not, List, [], ◌∷◌, str_eq, if◌then◌else◌}
use spoo.Base.Text.{len}
use spoo.Links.{SchemaVersion, v2, v1, emoji}

pub record EmojiPolicy : Type 0 where
  pub is_emoji_alias : String → Bool
  pub canonicalize : String → String

abbrev pub v1_first_length : ℕ
v1_first_length = 6

module _ (policy : EmojiPolicy) where
  open policy use {is_emoji_alias, canonicalize}

  abbrev pub is_emoji_shaped : String → Bool
  is_emoji_shaped code =
      is_emoji_alias code
      || (not (str_eq (canonicalize code) code) && is_emoji_alias (canonicalize code))

  abbrev pub resolution_order : String → List SchemaVersion
  resolution_order code =
      if is_emoji_shaped code
      then v2 ∷ emoji ∷ []
      else if len code == v1_first_length
      then v1 ∷ v2 ∷ []
      else v2 ∷ v1 ∷ []

  abbrev pub v2_lookup_code : String → String
  v2_lookup_code code = if is_emoji_shaped code then canonicalize code else code

  abbrev pub emoji_lookup_candidates : String → List String
  emoji_lookup_candidates code =
      if str_eq (canonicalize code) code then code ∷ [] else code ∷ canonicalize code ∷ []
