-- ===== src/Auth/Passwords.antt =====
-- `validate_account_password` of shared/validators.py: what a password lacks. The strength score is
-- left out; the two services that call the function drop it.
use Prim.Native.Char.{Char, code}
use spoo.Base.{ℕ, String, Bool, true, false, ◌&&◌, ◌||◌, List, [], ◌∷◌, leb, str_eq, if◌then◌else◌}
use spoo.Base.Text.{len, is_space}

-- The messages of `missing`.
pub data Missing : Type 0 where
  password_required too_short too_long no_uppercase no_lowercase no_number : Missing
  no_special invalid_characters : Missing

abbrev between : ℕ → ℕ → Char → Bool
between a b c = leb a (code c) && leb (code c) b

-- The classes of the patterns: `[A-Z]`, `[a-z]`, `[0-9]`, and the 32 signs, which are the printable
-- ASCII characters that are none of these.
abbrev is_upper : Char → Bool
is_upper c = between b'A' b'Z' c

abbrev is_lower : Char → Bool
is_lower c = between b'a' b'z' c

abbrev is_digit : Char → Bool
is_digit c = between b'0' b'9' c

abbrev is_special : Char → Bool
is_special c =
    between 0x21 0x2f c || between 0x3a 0x40 c || between 0x5b 0x60 c || between 0x7b 0x7e c

abbrev is_allowed : Char → Bool
is_allowed c = is_upper c || is_lower c || is_digit c || is_special c || is_space c

-- `re.search` of one class, and `re.match` of a class from start to end
any_char : (Char → Bool) → String → Bool
any_char p String.[] = false
any_char p (String.◌∷◌ c s) = p c || any_char p s

all_chars : (Char → Bool) → String → Bool
all_chars p String.[] = true
all_chars p (String.◌∷◌ c s) = p c && all_chars p s

-- `if not ...: missing.append(...)`
abbrev unless : Bool → Missing → List Missing → List Missing
unless b message rest = if b then rest else message ∷ rest

unfoldable pub validate_account_password : ℕ → ℕ → String → List Missing
unfolding any_char all_chars
validate_account_password min_length max_length password =
    if str_eq password ""
    then password_required ∷ []
    else unless (leb min_length (len password)) too_short (
        unless (leb (len password) max_length) too_long (
          unless (any_char is_upper password) no_uppercase (
            unless (any_char is_lower password) no_lowercase (
              unless (any_char is_digit password) no_number (
                unless (any_char is_special password) no_special
                  (unless (all_chars is_allowed password) invalid_characters []))))))
