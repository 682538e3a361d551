-- ===== src/Links/Edit/Handlers.antt =====
-- The field handlers of an edit, and the checks that creation shares with them
-- (services/url_service.py). A handler gives what it writes to `ops`, if anything; `unchanged` is
-- an early return. `Chain` collects `ops` in the order of FIELD_HANDLERS.
use spoo.Base.{
  ℕ, ◌+◌, ◌==◌, String, Bool, ◌&&◌, not, Option, none, some, List, [], ◌∷◌, Result, ok, err, ◌>>◌,
  raise_if, length, leb, ltb, str_eq, if◌then◌else◌,
}
use spoo.Base.Text.{has_text, opt_eq}
use spoo.Links.{UrlStatus, AbVariant, LinkMetaTags}
use spoo.Links.Edit.{
  Field, absent, null, given, Rules, EditError, invalid, invalid_country, invalid_variant,
}
use spoo.Links.Edit.Values.{
  opt_eq_by, list_eq_by, bool_eq, variant_eq, status_eq, dict_eq, has_items, has_number, is_set,
  differs_from_stored,
}

-- What an edit writes: the fields with their new values.
pub record Ops : Type 0 where
  pub long_url : Option String
  pub alias : Option String
  pub domain : Option String
  pub password : Option (Option String)
  pub max_clicks : Option (Option ℕ)
  pub expire_after : Option (Option ℕ)
  pub starts_at : Option (Option ℕ)
  pub pre_start_url : Option (Option String)
  pub block_bots : Option (Option Bool)
  pub private_stats : Option (Option Bool)
  pub status : Option UrlStatus
  pub geo_rules : Option (Option (List (String × String)))
  pub tag_ids : Option (List ℕ)
  pub ab_variants : Option (Option (List AbVariant))
  pub expired_redirect_url : Option (Option String)
  pub meta_tags : Option (Option LinkMetaTags)

-- `ops.get(field, existing)`
abbrev pub from {ℓ} : {A : Type ℓ} → Option A → A → A
from none old = old
from (some a) old = a

abbrev pub Write {ℓ} : Type ℓ → Type ℓ
Write A = Result EditError (Option A)

abbrev pub unchanged {ℓ} : {A : Type ℓ} → Write A
unchanged = ok none

abbrev pub write {ℓ} : {A : Type ℓ} → A → Write A
write a = ok (some a)

-- The value is dropped where there is one.
abbrev pub clear {ℓ} : {A : Type ℓ} → Bool → Write (Option A)
clear present = if present then write none else unchanged

-- `_simple_field_handler`
abbrev pub handle_simple : Field Bool → Option Bool → Write (Option Bool)
handle_simple absent current = unchanged
handle_simple null current =
    if is_set current
    then write none
    else if opt_eq_by bool_eq none current
    then unchanged
    else write none
handle_simple (given v) current =
    if opt_eq_by bool_eq (some v) current then unchanged else write (some v)

abbrev pub handle_status : Option UrlStatus → UrlStatus → Write UrlStatus
handle_status none current = unchanged
handle_status (some status) current = if status_eq status current then unchanged else write status

unfoldable pub handle_max_clicks : Field ℕ → Option ℕ → Write (Option ℕ)
handle_max_clicks absent current = unchanged
handle_max_clicks null current = clear (has_number current)
handle_max_clicks (given n) current =
    if n == 0 && has_number current
    then write none
    else if not (n == 0) && not (opt_eq_by ◌==◌ (some n) current)
    then write (some n)
    else unchanged

-- `_handle_expire_after` and `_handle_starts_at`, with the name of the field.
unfoldable pub handle_date : String → Field ℕ → Option ℕ → ℕ → Write (Option ℕ)
handle_date field absent current now = unchanged
handle_date field null none now = unchanged
handle_date field null (some t) now = write none
handle_date field (given t) current now =
    if leb t now
    then err (invalid field)
    else if differs_from_stored t current
    then write (some t)
    else unchanged

-- A link that expires before it starts would never be live.
unfoldable pub check_start_before_expiry : Option ℕ → Option ℕ → Result EditError (Unit {0})
check_start_before_expiry none expiry = ok tt
check_start_before_expiry (some start) none = ok tt
check_start_before_expiry (some start) (some expiry) =
    raise_if (leb expiry start) (invalid "starts_at")

module _ (rules : Rules) where
  unfoldable pub handle_password : Field String → Option String → Write (Option String)
  handle_password absent current = unchanged
  handle_password null current = clear (has_text current)
  handle_password (given p) current =
      if str_eq p "" && has_text current
      then write none
      else if str_eq p ""
      then unchanged
      else write (some (rules.hash_password p))

  unfoldable pub handle_long_url : Option String → String → Write String
  handle_long_url none current = unchanged
  handle_long_url (some url) current =
      if str_eq url current
      then unchanged
      else if rules.rejects url
      then err (invalid "long_url")
      else write url

  -- `_handle_pre_start_url` and `_handle_expired_redirect_url`: a destination that may be cleared.
  unfoldable pub handle_destination : String → Field String → Option String → Write (Option String)
  handle_destination field absent current = unchanged
  handle_destination field null current = clear (has_text current)
  handle_destination field (given url) current =
      if str_eq url ""
      then clear (has_text current)
      else if opt_eq (some url) current
      then unchanged
      else if rules.rejects url
      then err (invalid field)
      else write (some url)

  -- `_validate_geo_rules_shape`, then the gate for each destination.
  unfoldable pub check_countries : List (String × String) → Result EditError (Unit {0})
  check_countries [] = ok tt
  check_countries ((country, url) ∷ r) =
      raise_if (not (rules.is_country country)) (invalid_country country) >> check_countries r

  unfoldable pub validate_geo_rules_shape : List (String × String) → Result EditError (Unit {0})
  unfolding check_countries
  validate_geo_rules_shape geo = do
    raise_if (not rules.geo_rules_enabled) (invalid "geo_rules")
    raise_if (ltb rules.geo_rules_max_countries (length geo)) (invalid "geo_rules")
    check_countries geo

  unfoldable pub check_geo_destinations : List (String × String) → Result EditError (Unit {0})
  check_geo_destinations [] = ok tt
  check_geo_destinations ((country, url) ∷ r) =
      raise_if (rules.rejects url) (invalid_country country) >> check_geo_destinations r

  unfoldable pub handle_geo_rules :
      Field (List (String × String))
      → Option (List (String × String))
      → Write (Option (List (String × String)))
  unfolding validate_geo_rules_shape check_geo_destinations
  handle_geo_rules absent current = unchanged
  handle_geo_rules null current = clear (has_items current)
  handle_geo_rules (given []) current = clear (has_items current)
  handle_geo_rules (given (e ∷ geo)) current =
      if opt_eq_by dict_eq (some (e ∷ geo)) current then unchanged else do
        validate_geo_rules_shape (e ∷ geo)
        check_geo_destinations (e ∷ geo)
        write (some (e ∷ geo))

  unfoldable pub validate_ab_variants_shape : List AbVariant → Result EditError (Unit {0})
  validate_ab_variants_shape variants = do
    raise_if (not rules.ab_variants_enabled) (invalid "ab_variants")
    raise_if (ltb rules.ab_variants_max (length variants)) (invalid "ab_variants")

  unfoldable pub check_variant_destinations : ℕ → List AbVariant → Result EditError (Unit {0})
  check_variant_destinations index [] = ok tt
  check_variant_destinations index (v ∷ vs) =
      raise_if (rules.rejects v.url) (invalid_variant index)
      >> check_variant_destinations (index + 1) vs

  unfoldable pub handle_ab_variants :
      Field (List AbVariant) → Option (List AbVariant) → Write (Option (List AbVariant))
  unfolding validate_ab_variants_shape check_variant_destinations
  handle_ab_variants absent current = unchanged
  handle_ab_variants null current = clear (has_items current)
  handle_ab_variants (given []) current = clear (has_items current)
  handle_ab_variants (given (v ∷ vs)) current =
      if opt_eq_by (list_eq_by variant_eq) (some (v ∷ vs)) current then unchanged else do
        validate_ab_variants_shape (v ∷ vs)
        check_variant_destinations 0 (v ∷ vs)
        write (some (v ∷ vs))
