-- ===== src/Links/Edit/Values.antt =====
-- Tests on what a request carries: Python's truth and equality of the values, the shape of an alias
-- (shared/validators.py, shared/emoji_policy.py), and the reserved words
-- (shared/reserved_aliases.py).
use Prim.Native.Char.{Char, code}
use Prim.Native.String.{[] as nil, ◌∷◌ as cons}
use spoo.Base.{
  ℕ, ◌+◌, ◌==◌, String, Bool, true, false, ◌&&◌, ◌||◌, not, Option, none, some, List, [], ◌∷◌, leb,
  any, length, str_eq, if◌then◌else◌,
}
use spoo.Base.Text.{opt_eq}
use spoo.Links.{AbVariant, UrlStatus, active, inactive, expired, blocked, scheduled}

-- `a == b` of optional values
abbrev pub opt_eq_by {ℓ} : {A : Type ℓ} → (A → A → Bool) → Option A → Option A → Bool
opt_eq_by eq none none = true
opt_eq_by eq none (some b) = false
opt_eq_by eq (some a) none = false
opt_eq_by eq (some a) (some b) = eq a b

abbrev pub list_eq_by {ℓ} : {A : Type ℓ} → (A → A → Bool) → List A → List A → Bool
list_eq_by eq [] [] = true
list_eq_by eq [] (b ∷ bs) = false
list_eq_by eq (a ∷ as_) [] = false
list_eq_by eq (a ∷ as_) (b ∷ bs) = eq a b && list_eq_by eq as_ bs

abbrev pub bool_eq : Bool → Bool → Bool
bool_eq a b = if a then b else not b

abbrev pub variant_eq : AbVariant → AbVariant → Bool
variant_eq a b = str_eq a.url b.url && a.weight == b.weight

abbrev pub status_eq : UrlStatus → UrlStatus → Bool
status_eq active b = elim b [ active ↦ true | _ ↦ false ]
status_eq inactive b = elim b [ inactive ↦ true | _ ↦ false ]
status_eq expired b = elim b [ expired ↦ true | _ ↦ false ]
status_eq blocked b = elim b [ blocked ↦ true | _ ↦ false ]
status_eq scheduled b = elim b [ scheduled ↦ true | _ ↦ false ]

-- Dictionaries of texts are equal if they have as many keys and the same value at each.
abbrev pub text_at : String → List (String × String) → Option String
text_at k [] = none
text_at k ((j, v) ∷ r) = if str_eq j k then some v else text_at k r

abbrev pub dict_eq : List (String × String) → List (String × String) → Bool
dict_eq a b = length a == length b && not (any (λ e. not (opt_eq (text_at e.0 b) (some e.1))) a)

-- A stored value as a condition: null and the empty value are falsy.
abbrev pub has_items {ℓ} : {A : Type ℓ} → Option (List A) → Bool
has_items none = false
has_items (some []) = false
has_items (some (x ∷ xs)) = true

abbrev pub has_number : Option ℕ → Bool
has_number none = false
has_number (some n) = not (n == 0)

abbrev pub is_set : Option Bool → Bool
is_set none = false
is_set (some b) = b

-- `!=` between the date of a request, which has a time zone, and a stored date, which the driver
-- reads without one: Python holds such dates unequal, whatever moments they stand for.
abbrev pub differs_from_stored : ℕ → Option ℕ → Bool
differs_from_stored t stored = true

-- `[a-zA-Z0-9_-]`
abbrev pub is_alias_char : Char → Bool
is_alias_char ch =
    let c = code ch in
    (leb b'a' c && leb c b'z')
    || (leb b'A' c && leb c b'Z')
    || (leb b'0' c && leb c b'9')
    || c == b'_'
    || c == b'-'

-- `is_emoji_candidate`: some character is of another kind.
unfoldable pub is_emoji_candidate : String → Bool
is_emoji_candidate nil = false
is_emoji_candidate (cons c s) = not (is_alias_char c) || is_emoji_candidate s

-- `$` also matches before a line feed at the end.
unfoldable pub validate_alias : String → Bool
validate_alias nil = true
validate_alias (cons c s) = (is_alias_char c && validate_alias s) || (code c == 0x0a && str_eq s "")

abbrev pub lower_code : Char → ℕ
lower_code ch = let c = code ch in if leb b'A' c && leb c b'Z' then c + 32 else c

-- `a.lower() == b` for a text in ASCII.
abbrev pub lower_eq : String → String → Bool
lower_eq nil nil = true
lower_eq nil (cons d t) = false
lower_eq (cons c s) nil = false
lower_eq (cons c s) (cons d t) = lower_code c == code d && lower_eq s t

abbrev pub reserved_aliases : List String
reserved_aliases =
    "about" ∷ "api" ∷ "apps" ∷ "auth" ∷ "billing" ∷ "blog" ∷ "brand" ∷ "callback" ∷ "changelog"
    ∷ "contact" ∷ "dashboard" ∷ "discord" ∷ "docs" ∷ "domains" ∷ "emoji" ∷ "error" ∷ "export"
    ∷ "favicon" ∷ "features" ∷ "forgot-password" ∷ "geo" ∷ "github" ∷ "health" ∷ "help" ∷ "home"
    ∷ "humans" ∷ "icon" ∷ "icons-3d" ∷ "images" ∷ "keys" ∷ "legal" ∷ "links" ∷ "login" ∷ "logout"
    ∷ "metric" ∷ "oauth" ∷ "onboarding" ∷ "pricing" ∷ "privacy" ∷ "privacy-policy" ∷ "profile"
    ∷ "profile-pictures" ∷ "public" ∷ "register" ∷ "restore-account" ∷ "relay" ∷ "report" ∷ "reset"
    ∷ "result" ∷ "robots" ∷ "security" ∷ "settings" ∷ "signin" ∷ "signup" ∷ "sitemap" ∷ "statistics"
    ∷ "stats" ∷ "static" ∷ "terms" ∷ "terms-of-service" ∷ "testimonials" ∷ "tools" ∷ "tos"
    ∷ "twitter" ∷ "verify" ∷ "_next" ∷ "_not-found" ∷ "_error" ∷ "_gone" ∷ []

unfoldable pub is_reserved_alias : String → Bool
is_reserved_alias alias = any (lower_eq alias) reserved_aliases
