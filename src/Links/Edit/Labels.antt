-- ===== src/Links/Edit/Labels.antt =====
-- The handlers of tags and meta tags of services/url_service.py.
use spoo.Base.{
  ℕ, ◌==◌, String, Bool, false, ◌&&◌, not, Option, none, some, List, [], ◌∷◌, Result, ok, err,
  ◌>>=◌, ◌>>◌, raise_if, str_eq, if◌then◌else◌,
}
use spoo.Base.Text.{has_text}
use spoo.Links.{LinkMetaTags, anonymous_owner_id}
use spoo.Links.Edit.{Field, absent, null, given, Rules, EditError, invalid, MetaTagsRequest}
use spoo.Links.Edit.Values.{list_eq_by}
use spoo.Links.Edit.Handlers.{Write, from, unchanged, write}

module _ (rules : Rules) where
  -- `_resolve_tag_ids`
  unfoldable pub resolve_tag_ids : List ℕ → Option ℕ → Result EditError (List ℕ)
  resolve_tag_ids [] owner = ok []
  resolve_tag_ids (t ∷ ts) none = err (invalid "tag_ids")
  resolve_tag_ids (t ∷ ts) (some owner) = do
    raise_if (owner == anonymous_owner_id) (invalid "tag_ids")
    raise_if (not rules.has_tag_service) (invalid "tag_ids")
    raise_if (not (rules.owns_tags owner (t ∷ ts))) (invalid "tag_ids")
    ok (t ∷ ts)

  abbrev pub handle_resolved_tags : Result EditError (List ℕ) → List ℕ → Write (List ℕ)
  handle_resolved_tags resolved current = do
    ids ← resolved
    if list_eq_by ◌==◌ ids current then unchanged else write ids

  unfoldable pub handle_tag_ids : Field (List ℕ) → List ℕ → ℕ → Write (List ℕ)
  unfolding resolve_tag_ids
  handle_tag_ids absent current owner = unchanged
  handle_tag_ids null current owner = handle_resolved_tags (resolve_tag_ids [] (some owner)) current
  handle_tag_ids (given ids) current owner =
      handle_resolved_tags (resolve_tag_ids ids (some owner)) current

  -- The request with its image resolved, and what is known of an upload.
  unfoldable pub resolve_meta_image :
      MetaTagsRequest → ℕ → Result EditError (MetaTagsRequest × Option String)
  resolve_meta_image m owner = if not (has_text m.image) then ok (m, none) else do
    (url, hosted, known) ← rules.ingest (from m.image "") owner
    if hosted then ok (record m { image = some url }, known) else ok (m, none)

  abbrev pub is_blocked_value : Option String → Bool
  is_blocked_value none = false
  is_blocked_value (some t) = not (str_eq t "") && rules.is_blocked_text t

  -- `validate_meta_tags` and `_scan_meta_blocklist`
  unfoldable pub validate_meta_tags : MetaTagsRequest → String → Result EditError (Unit {0})
  validate_meta_tags m long_url = do
    raise_if (is_blocked_value (some m.title)) (invalid "meta_tags")
    raise_if (is_blocked_value m.description) (invalid "meta_tags")
    raise_if (is_blocked_value m.image) (invalid "meta_tags")
    raise_if (rules.is_blocked_text long_url) (invalid "long_url")

  abbrev pub stored_meta_tags : MetaTagsRequest → Option String → ℕ → Option String → LinkMetaTags
  stored_meta_tags m image_meta now ip = record {
    title = m.title;
    description = m.description;
    image = m.image;
    color = m.color;
    image_meta = image_meta;
    updated_at = some now;
    updated_ip = ip;
  }

  -- `_handle_meta_tags`; the writer's address is stamped on what it writes (`update`).
  unfoldable pub handle_meta_tags :
      Field MetaTagsRequest
      → Option LinkMetaTags
      → ℕ
      → String
      → ℕ
      → Option String
      → Write (Option LinkMetaTags)
  unfolding resolve_meta_image validate_meta_tags
  handle_meta_tags absent current owner long_url now ip = unchanged
  handle_meta_tags null none owner long_url now ip = unchanged
  handle_meta_tags null (some m) owner long_url now ip = write none
  handle_meta_tags (given r) current owner long_url now ip = do
    (m, known) ← resolve_meta_image r owner
    validate_meta_tags m long_url
    write (some (stored_meta_tags m known now ip))
