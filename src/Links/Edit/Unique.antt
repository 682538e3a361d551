-- ===== src/Links/Edit/Unique.antt =====
-- No two stored links have the same alias on the same domain: the checks of services/url_service.py
-- keep what the unique index of the collection asks.
use spoo.Base.{
  ℕ, ◌∙◌, String, ◌≡◌, ◌≢◌, ◌⊎◌, refl, ap, sym, subst, true, false, Option, none, some, inl, inr,
  arith, Option-cases, Bool-cases, ℕ-cases, ok, str_eq, eq_iff,
}
use spoo.Base.Collection.{Collection, ascending}
use spoo.Links.{UrlV2Doc}
use spoo.Links.Resolve.{Deployment, Site, find_by_alias, at_alias}
use spoo.Links.Edit.{Rules, UpdateUrlRequest, Field, absent, null, given}
use spoo.Links.Edit.Availability.{check_alias_available, check_alias_exists}
use spoo.Links.Edit.Handlers.{Ops, from}
use spoo.Links.Edit.Chain.{handle_domain, alias_scope, target_of, move_to}
use spoo.Links.Edit.Built.{IsBuilt, handle_alias-available}
use spoo.Links.Edit.Update.{auto_reactivate}

module _ (db : Collection ℕ UrlV2Doc) where
  abbrev pub IsUnique : db.State → Type 0
  IsUnique urls =
      (i j : ℕ) (d e : UrlV2Doc)
      → db.get urls i ≡ some d
      → db.get urls j ≡ some e
      → d.alias ≡ e.alias
      → d.domain ≡ e.domain
      → i ≡ j

  -- No stored link has that alias on that domain.
  abbrev pub IsFree : String → String → db.State → Type 0
  IsFree alias domain urls =
      (j : ℕ) (e : UrlV2Doc) → db.get urls j ≡ some e → e.alias ≡ alias → e.domain ≡ domain → ⊥

  -- A write at one `_id` of a document whose key no other document has.
  pub put-IsUnique :
      (id : ℕ) (d : UrlV2Doc) (urls : db.State)
      → ((j : ℕ) (e : UrlV2Doc)
          → id ≢ j
          → db.get urls j ≡ some e
          → e.alias ≡ d.alias
          → e.domain ≡ d.domain
          → ⊥)
      → IsUnique urls
      → IsUnique (db.put id d urls)
  put-IsUnique id d urls apart h i j x y at_i at_j alias domain = elim (ℕ-cases id i) [
    | inl own_i ↦ elim (ℕ-cases id j) [
      | inl own_j ↦ sym own_i ∙ own_j
      | inr other_j ↦ absurd (
          apart j y other_j (before j y other_j at_j)
            (sym alias ∙ ap (λ z. z.alias) (written i x own_i at_i))
            (sym domain ∙ ap (λ z. z.domain) (written i x own_i at_i)))
    ]
    | inr other_i ↦ elim (ℕ-cases id j) [
      | inl own_j ↦ absurd (
          apart i x other_i (before i x other_i at_i)
            (alias ∙ ap (λ z. z.alias) (written j y own_j at_j))
            (domain ∙ ap (λ z. z.domain) (written j y own_j at_j)))
      | inr other_j ↦ h i j x y (before i x other_i at_i) (before j y other_j at_j) alias domain
    ]
  ]
    where
      before :
          (k : ℕ) (z : UrlV2Doc)
          → id ≢ k
          → db.get (db.put id d urls) k ≡ some z
          → db.get urls k ≡ some z
      before k z other at = sym (db.get-put_ne id k d urls other) ∙ at

      written : (k : ℕ) (z : UrlV2Doc) → id ≡ k → db.get (db.put id d urls) k ≡ some z → z ≡ d
      written k z own at =
          let both : some z ≡ some d =
            sym at ∙ ap (db.get (db.put id d urls)) (sym own) ∙ db.get-put_self id d urls in
          ground (arith, both)

module _ (app : Deployment) (rules : Rules) (s : Site app) where
  open app use {db, system_domain}

  pub check_alias_exists-IsFree :
      (alias domain : String)
      → check_alias_exists app rules alias domain s ≡ false
      → IsFree db alias domain s.urls
  unfolding check_alias_exists find_by_alias
  check_alias_exists-IsFree alias domain missing j e at same_alias same_domain =
      let q = at_alias app alias domain in
      elim (Option-cases (db.pick ascending q (λ d. 0) s.urls)) [
        | inr (k, found) ↦ absurd (ground (arith, found, missing))
        | inl empty ↦ ground (
          arith,
          db.pick-none ascending q (λ d. 0) s.urls empty j e at,
          eq_iff e.alias alias,
          eq_iff e.domain domain,
        )
      ]

  pub check_alias_available-IsFree :
      (alias domain : String)
      → check_alias_available app rules alias domain s ≡ true
      → IsFree db alias domain s.urls
  unfolding check_alias_available
  check_alias_available-IsFree alias domain free =
      elim (Bool-cases (check_alias_exists app rules alias domain s)) [
        | inl there ↦ absurd (ground (arith, there, free))
        | inr missing ↦ check_alias_exists-IsFree alias domain missing
      ]

  -- The key of an edited link: the old one, or one that is free.
  abbrev pub KeptOrFree : UrlV2Doc → Option String → Option String → Type 0
  KeptOrFree d alias domain =
      ((from alias d.alias ≡ d.alias) × (from domain d.domain ≡ d.domain))
      ⊎ IsFree db (from alias d.alias) (from domain d.domain) s.urls

  move_to-KeptOrFree :
      (target : String) (alias : Option String) (d : UrlV2Doc) (domain : Option String)
      → ((a : String) → alias ≡ some a → IsFree db a target s.urls)
      → move_to app rules target alias d s ≡ ok domain
      → KeptOrFree d alias domain
  move_to-KeptOrFree target none d domain new h = elim (Bool-cases (str_eq target d.domain)) [
    | inl same ↦
        let stays : none ≡ domain = ground (arith, same, h) in rw (← stays) (inl (refl, refl))
    | inr other ↦ elim (Bool-cases (check_alias_available app rules d.alias target s)) [
      | inl free ↦
          let moves : domain ≡ some target = ground (arith, other, free, h) in
          rw moves (inr (check_alias_available-IsFree d.alias target free))
      | inr taken ↦ absurd (ground (arith, other, taken, h))
    ]
  ]
  move_to-KeptOrFree target (some a) d domain new h = elim (Bool-cases (str_eq target d.domain)) [
    | inl same ↦
        let stays : none ≡ domain = ground (arith, same, h) in
        rw (← stays)
          (inr (subst (λ t. IsFree db a t s.urls) ((eq_iff target d.domain).0 same) (new a refl)))
    | inr other ↦
        let moves : domain ≡ some target = ground (arith, other, h) in rw moves (inr (new a refl))
  ]

  handlers-KeptOrFree :
      (request : Field String) (d : UrlV2Doc) (alias domain : Option String)
      → ((a : String)
          → alias ≡ some a
          → IsFree db a (alias_scope app rules request d.domain) s.urls)
      → handle_domain app rules request alias d s ≡ ok domain
      → KeptOrFree d alias domain
  unfolding handle_domain
  handlers-KeptOrFree absent d none domain new h =
      let stays : none ≡ domain = ground (arith, h) in rw (← stays) (inl (refl, refl))
  handlers-KeptOrFree absent d (some a) domain new h =
      let stays : none ≡ domain = ground (arith, h) in rw (← stays) (inr (new a refl))
  handlers-KeptOrFree null d alias domain new h =
      move_to-KeptOrFree system_domain alias d domain new h
  handlers-KeptOrFree (given t) d alias domain new h =
      move_to-KeptOrFree (target_of app rules (given t)) alias d domain new h

  pub IsBuilt-KeptOrFree :
      (r : UpdateUrlRequest) (d : UrlV2Doc) (now : ℕ) (ops : Ops)
      → IsBuilt app rules s r d now ops
      → KeptOrFree d ops.alias ops.domain
  IsBuilt-KeptOrFree r d now ops built =
      handlers-KeptOrFree r.domain d ops.alias ops.domain
        (λ a e.
          check_alias_available-IsFree a (alias_scope app rules r.domain d.domain)
            (handle_alias-available app rules s r.alias r.domain d a (built.alias ∙ ap ok e)))
        built.domain

  pub auto_reactivate-key :
      (d : UrlV2Doc) (ops : Ops) (now : ℕ)
      → ((auto_reactivate d ops now).alias ≡ ops.alias)
        × ((auto_reactivate d ops now).domain ≡ ops.domain)
  unfolding auto_reactivate
  auto_reactivate-key d ops now = ground arith
