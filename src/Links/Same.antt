-- ===== src/Links/Same.antt =====
-- The redirect and the public pages answer a code alike: services/url_service.py, `_dispatch`, and
-- services/public_link_resolver.py, `resolve`.
use spoo.Base.{
  ℕ, String, ◌≡◌, refl, ap, sym, Bool, Option, none, some, List, [], ◌∷◌, inl, inr, Option-cases,
  if◌then◌else◌, if_keeps, ◌==◌,
}
use spoo.Base.Text.{len}
use spoo.Links.{UrlV2Doc, UrlCacheData, SchemaVersion, v2, v1, emoji}
use spoo.Links.Alias.{is_emoji_shaped, v2_lookup_code, emoji_lookup_candidates, v1_first_length}
use spoo.Links.Cached.{from_v2_doc, legacy_doc_to_cache}
use spoo.Links.Resolve.{
  Deployment, Site, Answer, PublicLink, found_v2, found_legacy, find_by_alias, find_legacy,
  first_found, dispatch, dispatch_by, try_v1_then_v2, try_v2_then_v1, public_in, resolve_public,
}

module _ (app : Deployment) where
  open app use {policy, system_domain}

  -- An answer that found a link, and a public link as the redirect caches it.
  abbrev pub answer_link : Answer → Option (UrlCacheData × SchemaVersion)
  answer_link (none, schema) = none
  answer_link (some link, schema) = some (link, schema)

  abbrev pub public_link : Option PublicLink → Option (UrlCacheData × SchemaVersion)
  public_link none = none
  public_link (some (found_v2 id d)) = some (from_v2_doc id d, v2)
  public_link (some (found_legacy schema code d)) =
      some (legacy_doc_to_cache code d system_domain schema, schema)

  module _ (code raw : String) (s : Site app) (canonical : code ≡ v2_lookup_code policy raw) where
    abbrev AlikeBy : List SchemaVersion → Type 0
    AlikeBy order =
        answer_link (dispatch_by app order code raw s) ≡ public_link (public_in app order raw s)

    abbrev found : Option (ℕ × UrlV2Doc)
    found = find_by_alias app code system_domain s

    found-public : find_by_alias app (v2_lookup_code policy raw) system_domain s ≡ found
    found-public = ap (λ c. find_by_alias app c system_domain s) (sym canonical)

    alike-emoji : AlikeBy (v2 ∷ emoji ∷ [])
    unfolding dispatch_by public_in
    alike-emoji = elim (Option-cases found) [
      | inr ((id, d), a) ↦ rw (found-public, a) refl
      | inl a ↦ elim (Option-cases (first_found s.emojis (emoji_lookup_candidates policy raw))) [
        | inl b ↦ rw (found-public, a, b) refl
        | inr ((c, d), b) ↦ rw (found-public, a, b) refl
      ]
    ]

    module _ (plain : code ≡ raw) where
      legacy-public : find_legacy app code s ≡ find_legacy app raw s
      legacy-public = ap (λ c. find_legacy app c s) plain

      alike-v1 : AlikeBy (v1 ∷ v2 ∷ [])
      unfolding dispatch_by public_in try_v1_then_v2
      alike-v1 = elim (Option-cases (find_legacy app raw s)) [
        | inr ((c, d), b) ↦ rw (legacy-public, b) refl
        | inl b ↦ elim (Option-cases found) [
          | inl a ↦ rw (legacy-public, b, found-public, a) refl
          | inr ((id, d), a) ↦ rw (legacy-public, b, found-public, a) refl
        ]
      ]

      alike-v2 : AlikeBy (v2 ∷ v1 ∷ [])
      unfolding dispatch_by public_in try_v2_then_v1
      alike-v2 = elim (Option-cases found) [
        | inr ((id, d), a) ↦ rw (found-public, a) refl
        | inl a ↦ elim (Option-cases (find_legacy app raw s)) [
          | inl b ↦ rw (found-public, a, legacy-public, b) refl
          | inr ((c, d), b) ↦ rw (found-public, a, legacy-public, b) refl
        ]
      ]

  -- Every code is answered alike by the redirect and by the public pages, whatever the collections
  -- hold and whatever counts as an emoji alias: both find nothing, or both find the same document,
  -- in the same generation and under the same alias.
  pub dispatch-resolve_public :
      (raw : String) (s : Site app)
      → answer_link (dispatch app (v2_lookup_code policy raw) raw s)
        ≡ public_link (resolve_public app raw s)
  unfolding dispatch resolve_public
  dispatch-resolve_public raw s =
      let code = v2_lookup_code policy raw in
      if_keeps (AlikeBy code raw s refl) (is_emoji_shaped policy raw) _ _
        (λ shaped. alike-emoji code raw s refl)
        (λ plain.
          let same : code ≡ raw =
            ap (λ (b : Bool). if b then policy.canonicalize raw else raw) plain in
          if_keeps (AlikeBy code raw s refl) (len raw == v1_first_length) _ _
            (λ six. alike-v1 code raw s refl same) (λ other. alike-v2 code raw s refl same))
