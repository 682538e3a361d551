-- ===== src/Base/Collection/Choices.antt =====
-- The update of the document that a sort puts first.
use Prim.Native.Nat.{ℕ}
use mathlib.Core.Path.{◌≡◌, ◌∙◌, ap, sym, subst}
use mathlib.Core.Logic.{◌≢◌, inl, inr}
use mathlib.Core.Bool.{Bool, true, false}
use mathlib.Core.Option.{Option, none, some}
use native.Mathlib.Omega.{arith}
use spoo.Base.Tests.{Option-cases}
use spoo.Base.Collection.Interface.{Collection, Direction, Precedes}
use spoo.Base.Collection.Updates.{Holds}

module _ {K D : Type 0} (db : Collection K D) where
  open db use {
    State, get, put, pick, get-put_self, get-put_ne, pick-some, pick-none, count, count-put,
  }

  -- find_one_and_update with a sort: the chosen document after the update, and the new contents.
  unfoldable pub find_first_and_update :
      Direction → (K → D → Bool) → (D → ℕ) → (D → D) → State → Option (K × D) × State
  find_first_and_update dir q key f s = elim (pick dir q key s) [
    | none ↦ (none, s)
    | some (k, d) ↦ (some (k, f d), put k (f d) s)
  ]

  module _ (dir : Direction) (q : K → D → Bool) (key : D → ℕ) (f : D → D) (s : State) where
    -- What a choice says of the contents before and after.
    pub record IsChosen (k : K) (e : D) : Type 0 where
      pub before : D
      pub stored : get s k ≡ some before
      pub matches : q k before ≡ true
      pub first :
          (j : K) (d : D) → get s j ≡ some d → q j d ≡ true → Precedes dir (key before) (key d)
      pub result : e ≡ f before
      pub contents : (find_first_and_update dir q key f s).1 ≡ put k (f before) s

    pub find_first_and_update-some :
        (k : K) (e : D) → (find_first_and_update dir q key f s).0 ≡ some (k, e) → IsChosen k e
    unfolding find_first_and_update
    find_first_and_update-some k e h = elim (Option-cases (pick dir q key s)) [
      | inl none_found ↦ absurd (ground (arith, none_found))
      | inr ((j, d), found) ↦
          let (stored, matches, first) = pick-some dir q key s j d found in
          let same : j ≡ k = ground (arith, found, h) in
          record {
            before = d;
            stored = subst (λ i. get s i ≡ some d) same stored;
            matches = subst (λ i. q i d ≡ true) same matches;
            first = first;
            result = ground (arith, found, h);
            contents = ground (arith, found, same);
          }
    ]

    pub find_first_and_update-none :
        (find_first_and_update dir q key f s).0 ≡ none
        → ((find_first_and_update dir q key f s).1 ≡ s)
          × ((k : K) (d : D) → get s k ≡ some d → q k d ≡ false)
    unfolding find_first_and_update
    find_first_and_update-none h = elim (Option-cases (pick dir q key s)) [
      | inl none_found ↦ (ground (arith, none_found), pick-none dir q key s none_found)
      | inr ((j, d), found) ↦ absurd (ground (arith, found))
    ]

    -- A document that does not match stays where it is.
    pub Holds-find_first_and_update :
        (P : D → Type 0) (j : K)
        → ((d : D) → P d → q j d ≡ false)
        → Holds db P s j
        → Holds db P (find_first_and_update dir q key f s).1 j
    unfolding find_first_and_update
    Holds-find_first_and_update P j other (e, stored, p) = elim (Option-cases (pick dir q key s)) [
      | inl none_found ↦ (e, ground (arith, none_found, stored), p)
      | inr ((k, d), found) ↦
          let (stored', matches, first) = pick-some dir q key s k d found in
          let apart : k ≢ j = λ same. not_both d stored' matches same in
          (e, ground (arith, found, get-put_ne k j (f d) s apart, stored), p)
    ]
      where
        not_both : {k : K} (d : D) → get s k ≡ some d → q k d ≡ true → k ≡ j → ⊥
        not_both {k} d here matches same =
            let same_doc : some d ≡ some e = sym here ∙ ap (get s) same ∙ stored in
            cc (other e p, matches, same, same_doc)
