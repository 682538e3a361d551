-- ===== src/Links/Edit/Tests.antt =====
-- Tests of the edits of links, and their theorems at concrete inputs.
use spoo.Base.{
  ◌≡◌, refl, true, false, none, some, [], ◌∷◌, inl, inr, arith, ok, err, ℕ-cases, str_eq,
}
use spoo.Base.Collection.{find_and_update}
use spoo.Links.{UrlV2Doc, active, expired, inactive}
use spoo.Links.Cached.{from_v2_doc}
use spoo.Links.Resolve.{Site, resolve, cache_get}
use spoo.Links.Coherent.{IsKeyed}
use spoo.Links.Tests.{app, db, link, site, cached_site, cached_site-IsKeyed}
use spoo.Links.Edit.{
  Rules, UpdateUrlRequest, CreateUrlRequest, absent, given, accepted, alias_taken, invalid,
  access_denied, edge_purged, link_event,
}
use spoo.Links.Edit.Checked.{Told, check_alias-Told}
use spoo.Links.Edit.Availability.{check_alias}
use spoo.Links.Edit.Values.{is_emoji_candidate}
use spoo.Links.Edit.Update.{update}
use spoo.Links.Edit.Create.{create, custom_alias}
use spoo.Links.Edit.Remove.{remove}
use spoo.Links.Edit.Unique.{IsUnique}
use spoo.Links.Edit.Steps.{
  Reaches, here, next, updated, deleted, requested, Reaches-IsKeyed, Reaches-IsUnique,
}
use spoo.Links.Edit.RoundTrip.{create-resolve, answer_at}
use spoo.Links.Edit.Owners.{Step-Owned}
use spoo.Links.Edit.Reactivated.{update-Reactivated, lifted_status}

abbrev rules : Rules
rules = record {
  rejects = λ url. str_eq url "https://bad.example";
  is_blocked_text = λ t. false;
  is_country = λ c. str_eq c "DE";
  check_emoji = λ a. accepted;
  is_emoji_only = λ a. true;
  emoji_exists = λ emojis a. false;
  hash_password = λ p. p;
  hash_token = λ t. t;
  ingest = λ image owner. ok (image, false, none);
  has_tag_service = true;
  owns_tags = λ owner tags. true;
  geo_rules_enabled = true;
  geo_rules_max_countries = 50;
  ab_variants_enabled = true;
  ab_variants_max = 10;
  has_writethrough = true;
  has_edge_kv = true;
  has_image_sink = true;
}

abbrev nothing : UpdateUrlRequest
nothing = record {
  long_url = none;
  alias = none;
  domain = absent;
  password = absent;
  max_clicks = absent;
  expire_after = absent;
  starts_at = absent;
  pre_start_url = absent;
  block_bots = absent;
  private_stats = absent;
  status = none;
  geo_rules = absent;
  tag_ids = absent;
  ab_variants = absent;
  expired_redirect_url = absent;
  meta_tags = absent;
}

abbrev renaming : UpdateUrlRequest
renaming = record nothing { alias = some "winter-drop" }

abbrev ended : UrlV2Doc
ended = record link { status = expired; max_clicks = some 2; expire_after = some 9000 }

abbrev ended_site : Site app
ended_site = record site { urls = ((7, ended) ∷ [], (refl, tt)) }

-- The stored date again.
abbrev echo : UpdateUrlRequest
echo = record nothing { expire_after = given 9000 }

-- A rename writes the new alias, and drops the promoted entry of the old one.
rename_test :
    (update app rules 7 renaming 1 none 4000 site).0
    ≡ ok (record link { alias = "winter-drop"; updated_at = some 4000 })
unfolding update
rename_test = refl

foreign_test : (update app rules 7 renaming 2 none 4000 site).0 ≡ err access_denied
unfolding update
foreign_test = refl

rejected_test :
    (update app rules 7
      (record nothing { long_url = some "https://bad.example" })
      1
      none
      4000
      site).0
    ≡ err (invalid "long_url")
unfolding update
rejected_test = refl

deactivate_test :
    (update app rules 7 (record nothing { status = some inactive }) 1 none 4000 site).2
    ≡ edge_purged "spoo.me" "summer-drop"
      ∷ link_event "link.updated" (record link { status = inactive; updated_at = some 4000 })
      ∷ []
unfolding update
deactivate_test = refl

abbrev asked : CreateUrlRequest
asked = record {
  long_url = "https://example.com/new";
  alias = some "autumn-drop";
  emoji_alias = false;
  password = none;
  block_bots = none;
  max_clicks = none;
  expire_after = none;
  starts_at = some 6000;
  pre_start_url = none;
  private_stats = none;
  geo_rules = none;
  tag_ids = none;
  ab_variants = none;
  expired_redirect_url = none;
  meta_tags = none;
}

taken_test :
    (create app rules
      (record asked { alias = some "summer-drop" })
      none
      "ip"
      none
      (λ n. "abcdefg")
      "token"
      8
      4000
      site).0
    ≡ err alias_taken
unfolding create
taken_test = refl

abbrev made : UrlV2Doc
made = record {
  alias = "autumn-drop";
  owner_id = 0;
  domain = "spoo.me";
  long_url = "https://example.com/new";
  password = none;
  block_bots = none;
  max_clicks = none;
  expire_after = none;
  starts_at = some 6000;
  pre_start_url = none;
  geo_rules = none;
  tag_ids = [];
  ab_variants = none;
  expired_redirect_url = none;
  status = active;
  private_stats = none;
  meta_tags = none;
  total_clicks = 0;
  last_click = none;
  updated_at = none;
  claim_token_hash = some "token";
  claimed_at = none;
}

created_test :
    (create app rules asked none "ip" none (λ n. "abcdefg") "token" 8 4000 site).0
    ≡ ok (made, some "token")
unfolding create
created_test = refl

cold : cache_get app "autumn-drop" "spoo.me" site ≡ none
unfolding cache_get
cold = refl

create-resolve_example :
    (resolve app "autumn-drop" none 7000
      (create app rules asked none "ip" none (λ n. "abcdefg") "token" 8 4000 site).1).0
    ≡ answer_at app rules site (from_v2_doc 8 made) 7000
create-resolve_example =
    create-resolve app rules site asked none "ip" none (λ n. "abcdefg") "token" 8 4000 7000 made
      (some "token") created_test (λ p n. refl) refl cold

-- A request caches the link, its owner renames it, and then deletes it.
abbrev after_request : Site app
after_request = (resolve app "summer-drop" none 4000 cached_site).1

abbrev after_rename : Site app
after_rename = (update app rules 7 renaming 1 none 4001 after_request).1

abbrev after_delete : Site app
after_delete = (remove app rules 7 1 after_rename).1

run : Reaches app rules cached_site after_delete
run =
    next
      (next (next here (requested "summer-drop" none 4000 cached_site))
        (updated 7 renaming 1 none 4001 after_request))
      (deleted 7 1 after_rename)

Reaches-IsKeyed_example : IsKeyed app after_delete
Reaches-IsKeyed_example = Reaches-IsKeyed app rules cached_site-IsKeyed run

cached_site-IsUnique : IsUnique db cached_site.urls
cached_site-IsUnique i j d e at_i at_j alias domain = elim (ℕ-cases 7 i) [
  | inr other ↦ absurd (ground (arith, other, at_i))
  | inl own ↦ elim (ℕ-cases 7 j) [
    | inr other ↦ absurd (ground (arith, other, at_j))
    | inl own' ↦ ground (arith, own, own')
  ]
]

Reaches-IsUnique_example : IsUnique db after_delete.urls
Reaches-IsUnique_example = Reaches-IsUnique app rules cached_site-IsUnique run

abbrev renamed : UrlV2Doc
renamed = record link { alias = "winter-drop"; updated_at = some 4000 }

Step-Owned_example : renamed.owner_id ≡ link.owner_id
unfolding update find_and_update
Step-Owned_example =
    Step-Owned app rules 7 link renamed (updated 7 renaming 1 none 4000 site) refl
      (λ p. omega arith) refl

echo_test :
    (update app rules 7 echo 1 none 4000 ended_site).0
    ≡ ok (record ended { status = active; updated_at = some 4000 })
unfolding update
echo_test = refl

update-Reactivated_example :
    (db.get (update app rules 7 echo 1 none 4000 ended_site).1.urls 7
      ≡ some (record ended { status = active; updated_at = some 4000 }))
    × (active ≡ lifted_status app rules ended_site echo ended)
update-Reactivated_example =
    update-Reactivated app rules ended_site 7 ended 4000 refl echo 1 none
      (record ended { status = active; updated_at = some 4000 }) refl refl echo_test

check_alias-Told_example :
    Told app rules site
      (custom_alias app rules "summer-drop" "spoo.me" site)
      (check_alias app rules "summer-drop" none site)
unfolding is_emoji_candidate
check_alias-Told_example =
    check_alias-Told app rules site "summer-drop" none (λ p. (refl, refl)) (λ p. cc)
