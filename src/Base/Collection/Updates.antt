-- ===== src/Base/Collection/Updates.antt =====
-- The conditional update of one document of a collection, and what it leaves of each document and of
-- the counts.
use Prim.Native.Nat.{◌+◌}
use mathlib.Core.Path.{refl, ◌≡◌, ◌∙◌, ap, sym, subst}
use mathlib.Core.Logic.{◌≢◌, ◌⊎◌, inl, inr}
use mathlib.Core.Bool.{Bool, true, false, not}
use mathlib.Core.Option.{Option, none, some}
use native.Mathlib.Omega.{arith}
use spoo.Base.Lists.{is_none}
use spoo.Base.Tests.{if◌then◌else◌, Option-cases, Bool-cases}
use spoo.Base.Collection.Interface.{Collection, tally}

module _ {K D : Type 0} (db : Collection K D) where
  open db use {
    State, get, put, pick, get-put_self, get-put_ne, pick-some, pick-none, count, count-put,
  }

  -- update_one and find_one_and_update on `{"_id": k, ...filter}`: the document as it was before,
  -- if it matched, and the new contents.
  unfoldable pub find_and_update : K → (D → Bool) → (D → D) → State → Option D × State
  find_and_update k q f s = elim (get s k) [
    | none ↦ (none, s)
    | some d ↦ if q d then (some d, put k (f d) s) else (none, s)
  ]

  -- What the update makes of the document with that `_id`.
  abbrev pub updated : (D → Bool) → (D → D) → Option D → Option D
  updated q f none = none
  updated q f (some d) = some (if q d then f d else d)

  pub get-find_and_update_self :
      (k : K) (q : D → Bool) (f : D → D) (s : State)
      → get (find_and_update k q f s).1 k ≡ updated q f (get s k)
  unfolding find_and_update
  get-find_and_update_self k q f s = elim (Option-cases (get s k)) [
    | inl e ↦ ground (arith, e)
    | inr (d, e) ↦ ground (arith, e, get-put_self k (f d) s)
  ]

  pub get-find_and_update_ne :
      (k j : K) (q : D → Bool) (f : D → D) (s : State)
      → k ≢ j
      → get (find_and_update k q f s).1 j ≡ get s j
  unfolding find_and_update
  get-find_and_update_ne k j q f s h = elim (Option-cases (get s k)) [
    | inl e ↦ ground (arith, e)
    | inr (d, e) ↦ ground (arith, e, get-put_ne k j (f d) s h)
  ]

  -- The three outcomes of the update.
  pub find_and_update-match :
      (k : K) (q : D → Bool) (f : D → D) (s : State) (d : D)
      → get s k ≡ some d
      → q d ≡ true
      → find_and_update k q f s ≡ (some d, put k (f d) s)
  unfolding find_and_update
  find_and_update-match k q f s d stored yes_ = ground (arith, stored, yes_)

  pub find_and_update-miss :
      (k : K) (q : D → Bool) (f : D → D) (s : State) (d : D)
      → get s k ≡ some d
      → q d ≡ false
      → find_and_update k q f s ≡ (none, s)
  unfolding find_and_update
  find_and_update-miss k q f s d stored no_ = ground (arith, stored, no_)

  pub find_and_update-absent :
      (k : K) (q : D → Bool) (f : D → D) (s : State)
      → get s k ≡ none
      → find_and_update k q f s ≡ (none, s)
  unfolding find_and_update
  find_and_update-absent k q f s absent = ground (arith, absent)

  -- A filter counts one document more or less, as the update changes that document.
  pub count-find_and_update :
      (r : D → Bool) (k : K) (q : D → Bool) (f : D → D) (s : State)
      → count r (find_and_update k q f s).1 + tally r (get s k)
        ≡ count r s + tally r (updated q f (get s k))
  unfolding find_and_update
  count-find_and_update r k q f s = elim (Option-cases (get s k)) [
    | inl e ↦ ground (arith, e)
    | inr (d, e) ↦ ground (arith, e, count-put r k (f d) s)
  ]

  -- A filter that the update does not touch counts the same.
  pub count-neutral :
      (r : D → Bool) (k : K) (q : D → Bool) (f : D → D) (s : State)
      → ((d : D) → r (f d) ≡ r d)
      → count r (find_and_update k q f s).1 ≡ count r s
  count-neutral r k q f s same = elim (Option-cases (get s k)) [
    | inl gone ↦ ap (λ x. count r (x.1)) (find_and_update-absent k q f s gone)
    | inr (d, here) ↦ elim (Bool-cases (q d)) [
      | inr n ↦ ap (λ x. count r (x.1)) (find_and_update-miss k q f s d here n)
      | inl t ↦
          let moved = ap (λ x. count r (x.1)) (find_and_update-match k q f s d here t) in
          let old = ap (tally r) here in
          let new : tally r (some (f d)) ≡ tally r (some d) =
            ap (λ (b : Bool). if b then 1 else 0) (same d) in
          omega (arith, moved, count-put r k (f d) s, old, new)
    ]
  ]

  -- The document with that `_id` is there and has the property.
  abbrev pub Holds : (D → Type 0) → State → K → Type 0
  Holds P s k = (d : D) × (get s k ≡ some d) × P d

  pub Holds-put_ne :
      (P : D → Type 0) (k j : K) (d : D) (s : State) → k ≢ j → Holds P s j → Holds P (put k d s) j
  Holds-put_ne P k j d s h (e, stored, p) = (e, get-put_ne k j d s h ∙ stored, p)

  -- An update that keeps a property of the document keeps it wherever the document stands.
  pub Holds-find_and_update :
      (P : D → Type 0) (k j : K) (q : D → Bool) (f : D → D) (s : State)
      → (k ≡ j) ⊎ (k ≢ j)
      → ((d : D) → P d → q d ≡ true → P (f d))
      → Holds P s j
      → Holds P (find_and_update k q f s).1 j
  Holds-find_and_update P k j q f s (inr h) keep (d, stored, p) =
      (d, get-find_and_update_ne k j q f s h ∙ stored, p)
  Holds-find_and_update P k j q f s (inl h) keep (d, stored, p) = elim (Bool-cases (q d)) [
    | inl t ↦
        (f d, subst (λ i. get (find_and_update k q f s).1 i ≡ some (f d)) h (at t), keep d p t)
    | inr n ↦ (d, subst (λ i. get (find_and_update k q f s).1 i ≡ some d) h (out n), p)
  ]
    where
      here : get s k ≡ some d
      here = ap (get s) h ∙ stored

      at : q d ≡ true → get (find_and_update k q f s).1 k ≡ some (f d)
      at t = ground (arith, get-find_and_update_self k q f s, here)

      out : q d ≡ false → get (find_and_update k q f s).1 k ≡ some d
      out n = ground (arith, get-find_and_update_self k q f s, here)

  pub find_and_update-done :
      (k : K) (q : D → Bool) (f : D → D) (s : State)
      → not (is_none (find_and_update k q f s).0) ≡ true
      → (d : D) × (get s k ≡ some d)
        × (q d ≡ true)
        × (find_and_update k q f s ≡ (some d, put k (f d) s))
  unfolding find_and_update
  find_and_update-done k q f s h = elim (Option-cases (get s k)) [
    | inl gone ↦ absurd (ground (arith, gone))
    | inr (d, here) ↦
        let matches : q d ≡ true = ground (arith, here) in
        (d, here, matches, ground (arith, here, matches))
  ]

  -- Where a document that stands after an update comes from.
  pub find_and_update-before :
      (k j : K) (q : D → Bool) (f : D → D) (s : State) (d : D)
      → (k ≡ j) ⊎ (k ≢ j)
      → get (find_and_update k q f s).1 j ≡ some d
      → (e : D) × (get s j ≡ some e) × ((d ≡ e) ⊎ ((q e ≡ true) × (d ≡ f e)))
  find_and_update-before k j q f s d (inr n) h =
      (d, sym (get-find_and_update_ne k j q f s n) ∙ h, inl refl)
  find_and_update-before k j q f s d (inl p) h =
      let after : updated q f (get s k) ≡ some d =
        sym (get-find_and_update_self k q f s)
        ∙ subst (λ i. get (find_and_update k q f s).1 i ≡ some d) (sym p) h in
      elim (Option-cases (get s k)) [
        | inl gone ↦ absurd (ground (arith, gone, after))
        | inr (e, here) ↦ elim (Bool-cases (q e)) [
          | inl t ↦ (e, ap (get s) (sym p) ∙ here, inr (t, ground (arith, here, after)))
          | inr n ↦ (e, ap (get s) (sym p) ∙ here, inl (ground (arith, here, after)))
        ]
      ]

  -- A document that stands after a deletion stood before.
  pub delete_many-before :
      (q : D → Bool) (k : K) (s : State) (d : D)
      → get (db.delete_many q s) k ≡ some d
      → get s k ≡ some d
  delete_many-before q k s d stored = elim (Option-cases (get s k)) [
    | inl gone ↦ absurd (ground (arith, db.get-delete_many q s k, stored, gone))
    | inr (e, here) ↦ ground (arith, db.get-delete_many q s k, stored, here)
  ]
