-- ===== src/Links/Legacy.antt =====
-- Links of the first generation and emoji links: services/url_service.py, `resolve`, against what
-- services/public_link_resolver.py, `v1_is_expired`, says of the same document.
use spoo.Base.{
  ℕ, ◌*◌, ◌%◌, String, ◌≡◌, ◌↔◌, refl, Bool, false, ◌&&◌, Option, none, some, inl, inr, arith,
  Bool-cases, leb, ok,
}
use spoo.Links.{LegacyUrlDoc, v1, emoji, Stamp}
use spoo.Links.Cached.{legacy_doc_to_cache, v1_is_expired, legacy_expiration}
use spoo.Links.Resolve.{Deployment, Site, resolved, check_live}

-- The stored date, if any, is of a whole second.
abbrev pub IsWhole : LegacyUrlDoc → Type 0
IsWhole d = (t : Stamp) → d.expiration_time ≡ some t → t.at % 1000 ≡ 0

-- The clicks and the date of `v1_is_expired`.
abbrev limit_reached : LegacyUrlDoc → Bool
limit_reached d = elim d.max_clicks [ none ↦ false | some m ↦ leb m d.total_clicks ]

abbrev past : Option Stamp → ℕ → Bool
past none now = false
past (some t) now = t.aware && leb t.at now

abbrev past_cached : Option ℕ → ℕ → Bool
past_cached none now = false
past_cached (some t) now = leb (t * 1000) now

past-cached :
    (o : Option Stamp) (now : ℕ)
    → ((t : Stamp) → o ≡ some t → t.at % 1000 ≡ 0)
    → past_cached (legacy_expiration o) now ≡ past o now
past-cached none now whole = refl
past-cached (some t) now whole = elim (Bool-cases t.aware) [
  | inl aware ↦ ground (arith, aware, whole t refl)
  | inr naive ↦ ground (arith, naive)
]

module _ (app : Deployment) where
  open app use {system_domain}

  -- A v1 link that was found and is not blocked, with a date of whole seconds if it has one, is
  -- served exactly if the public pages do not call it expired.
  pub resolved-v1_is_expired :
      (code : String) (d : LegacyUrlDoc) (now : ℕ) (s : Site app)
      → d.blocked ≡ false
      → IsWhole d
      → ((resolved app (some (legacy_doc_to_cache code d system_domain v1), v1) code now s).0
          ≡ ok (legacy_doc_to_cache code d system_domain v1, v1))
        ↔ (v1_is_expired d now ≡ false)
  unfolding resolved check_live legacy_doc_to_cache
  resolved-v1_is_expired code d now s open_ whole =
      let same = past-cached d.expiration_time now whole in
      elim (Bool-cases (limit_reached d)) [
        | inl reached ↦ ground (arith, open_, reached)
        | inr free ↦ elim (Bool-cases (past d.expiration_time now)) [
          | inl over ↦ ground (arith, open_, free, over, same)
          | inr before_end ↦ ground (arith, open_, free, before_end, same)
        ]
      ]

  -- An emoji link that was found, is not blocked and has no date is served whatever its limit of
  -- clicks and its clicks are, also where the public pages call it expired.
  pub resolved-emoji :
      (code : String) (d : LegacyUrlDoc) (now : ℕ) (s : Site app)
      → d.blocked ≡ false
      → d.expiration_time ≡ none
      → (resolved app (some (legacy_doc_to_cache code d system_domain emoji), emoji) code now s).0
        ≡ ok (legacy_doc_to_cache code d system_domain emoji, emoji)
  unfolding resolved check_live legacy_doc_to_cache
  resolved-emoji code d now s open_ undated = ground (arith, open_, undated)
