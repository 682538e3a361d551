-- ===== src/Links/Edit/Fresh.antt =====
-- A created link (services/url_service.py, `create`) stands under a key that no other link has.
use spoo.Base.{
  ℕ, zero, suc, ◌∙◌, String, ◌≡◌, refl, Bool, ◌&&◌, Option, none, some, inl, inr, Bool-cases,
  if_keeps, Result, ok, err, Returns, Returns-bind, Returns-ok, raise_if, str_eq,
}
use spoo.Links.{UrlV2Doc, UrlStatus}
use spoo.Links.Cached.{truthy}
use spoo.Links.Resolve.{Deployment, Site}
use spoo.Links.Edit.{Rules, EditError, CreateUrlRequest, invalid}
use spoo.Links.Edit.Values.{is_reserved_alias}
use spoo.Links.Edit.Availability.{
  check_alias_available, check_alias_exists, canonical_alias, scope_of,
}
use spoo.Links.Edit.Labels.{resolve_tag_ids}
use spoo.Links.Edit.Create
use spoo.Links.Edit.Create.{
  generate_unique_alias, generate_unique_emoji_alias, custom_alias, choose_alias, created_doc,
  create, check_request, new_doc, owner_of, insert, items, Created,
}
use spoo.Links.Edit.Unique.{
  IsUnique, IsFree, put-IsUnique, check_alias_exists-IsFree, check_alias_available-IsFree,
}

module _ (app : Deployment) (rules : Rules) (s : Site app) where
  open app use {db, system_domain}

  abbrev FreeOn : String → String → Type 0
  FreeOn target alias = IsFree db alias target s.urls

  generate_unique_alias-FreeOn :
      (n : ℕ) (draw : ℕ → String) (target : String)
      → Returns (FreeOn target) (generate_unique_alias app rules n draw target s)
  unfolding generate_unique_alias
  generate_unique_alias-FreeOn zero draw target = tt
  generate_unique_alias-FreeOn (suc n) draw target =
      elim (Bool-cases (check_alias_exists app rules (draw n) target s)) [
        | inl there ↦ rw there (generate_unique_alias-FreeOn n draw target)
        | inr missing ↦ rw missing (check_alias_exists-IsFree app rules s (draw n) target missing)
      ]

  generate_unique_emoji_alias-FreeOn :
      (n : ℕ) (draw : ℕ → String) (target : String)
      → Returns (FreeOn target) (generate_unique_emoji_alias app rules n draw target s)
  unfolding generate_unique_emoji_alias
  generate_unique_emoji_alias-FreeOn zero draw target = tt
  generate_unique_emoji_alias-FreeOn (suc n) draw target =
      elim (Bool-cases (check_alias_available app rules (draw n) target s)) [
        | inr taken ↦ rw taken (generate_unique_emoji_alias-FreeOn n draw target)
        | inl free ↦ rw free (check_alias_available-IsFree app rules s (draw n) target free)
      ]

  custom_alias-FreeOn :
      (alias target : String) → Returns (FreeOn target) (custom_alias app rules alias target s)
  unfolding custom_alias
  custom_alias-FreeOn alias target =
      Returns-bind (FreeOn target) (canonical_alias app rules alias) _ (λ new _.
        Returns-bind (FreeOn target)
          (raise_if (str_eq target system_domain && is_reserved_alias new) (invalid "alias")) _
          (λ u _. elim (Bool-cases (check_alias_available app rules new target s)) [
            | inr taken ↦ rw taken tt
            | inl free ↦ rw free (check_alias_available-IsFree app rules s new target free)
          ]))

  pub choose_alias-FreeOn :
      (alias : Option String) (emoji_alias : Bool) (draw : ℕ → String) (target : String)
      → Returns (FreeOn target) (choose_alias app rules alias emoji_alias draw target s)
  unfolding choose_alias
  choose_alias-FreeOn none emoji_alias draw target =
      if_keeps (Returns (FreeOn target)) emoji_alias _ _
        (λ emoji. generate_unique_emoji_alias-FreeOn 10 draw target)
        (λ plain. generate_unique_alias-FreeOn 10 draw target)
  choose_alias-FreeOn (some alias) emoji_alias draw target = custom_alias-FreeOn alias target

  -- What is known of the document of a successful creation.
  pub record IsNew (r : CreateUrlRequest) (draw : ℕ → String) (target : String) (d : UrlV2Doc)
      : Type 0 where
    pub chosen : choose_alias app rules (truthy r.alias) r.emoji_alias draw target s ≡ ok d.alias
    pub free : IsFree db d.alias target s.urls
    pub domain : d.domain ≡ target
    pub long_url : d.long_url ≡ r.long_url
    pub expire_after : d.expire_after ≡ r.expire_after
    pub starts_at : d.starts_at ≡ r.starts_at
    pub status : d.status ≡ UrlStatus.active

  pub created_doc-IsNew :
      (r : CreateUrlRequest) (owner : Option ℕ) (ip : String) (domain : Option String)
      (draw : ℕ → String) (token : String) (now : ℕ)
      → Returns
          (IsNew r draw (scope_of app rules domain))
          (created_doc app rules r owner ip domain draw token now s)
  unfolding created_doc new_doc
  created_doc-IsNew r owner ip domain draw token now =
      let target = scope_of app rules domain in
      Returns-bind (IsNew r draw target) (check_request rules r (owner_of rules owner) ip now) _
        λ meta _.
          Returns-bind (IsNew r draw target)
            (choose_alias app rules (truthy r.alias) r.emoji_alias draw target s) _
            λ alias chosen.
              Returns-bind (IsNew r draw target) (resolve_tag_ids rules (items r.tag_ids) owner) _
                λ tags _. record {
                  chosen = chosen;
                  free =
                      Returns-ok (FreeOn target)
                        (choose_alias app rules (truthy r.alias) r.emoji_alias draw target s) alias
                        chosen (choose_alias-FreeOn (truthy r.alias) r.emoji_alias draw target);
                  domain = refl;
                  long_url = refl;
                  expire_after = refl;
                  starts_at = refl;
                  status = refl;
                }

  created-IsUnique :
      (r : CreateUrlRequest) (draw : ℕ → String) (target : String)
      (made : Result EditError UrlV2Doc) (token : String) (id : ℕ)
      → Returns (IsNew r draw target) made
      → IsUnique db s.urls
      → IsUnique db (Create.store app rules made token id s).1.urls
  unfolding Create.store insert
  created-IsUnique r draw target (err e) token id new h = h
  created-IsUnique r draw target (ok d) token id new h =
      put-IsUnique db id d s.urls
        (λ j e other at alias domain. new.free j e at alias (domain ∙ new.domain)) h

  pub create-IsUnique :
      (r : CreateUrlRequest) (owner : Option ℕ) (ip : String) (domain : Option String)
      (draw : ℕ → String) (token : String) (id now : ℕ)
      → IsUnique db s.urls
      → IsUnique db (create app rules r owner ip domain draw token id now s).1.urls
  unfolding create
  create-IsUnique r owner ip domain draw token id now h =
      created-IsUnique r draw (scope_of app rules domain)
        (created_doc app rules r owner ip domain draw token now s) token id
        (created_doc-IsNew r owner ip domain draw token now) h
