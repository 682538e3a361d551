-- ===== src/Base/Memory.antt =====
-- A collection held in a list, for the tests: it shows that what `Collection` assumes of the server
-- can hold. The contents are pairs of an `_id` and a document, each `_id` once.
mod Entries
mod Best
use Prim.Native.String.{String}
use text.Mathlib.Text.{◌==◌ as str_eq}
use text.Mathlib.TextEquality.{eq_iff}
use Prim.Native.Nat.{ℕ, ◌+◌, ◌≤◌}
use mathlib.Core.Path.{◌≡◌, refl, sym, ◌∙◌, ap, ap₂, subst}
use mathlib.Core.Logic.{◌≢◌, ◌↔◌, ◌⊎◌, inl, inr}
use mathlib.Core.Bool.{Bool, true, false, ◌&&◌, not}
use mathlib.Core.Option.{Option, none, some}
use mathlib.Core.List.{List, [], ◌∷◌}
use native.Mathlib.Omega.{arith}
use spoo.Base.Tests.{if◌then◌else◌, Option-cases, Bool-cases, leb, ◌==◌, ==_iff, leb→le}
use spoo.Base.Lists.{filter, Listed, filter-Listed}
use spoo.Base.Collection.{Collection, tally, unless, Direction, ascending, descending, Precedes}
use spoo.Base.Memory.Entries.{
  find, save, remove, erase, count_docs, Distinct, find-save, Distinct-save, find-remove,
  Distinct-remove, find-erase_self, find-erase_ne, Distinct-erase, count_docs-save,
  count_docs-remove, count_docs_mono, count_docs-none, find-head, find-save_ne, matching-Listed,
}
use spoo.Base.Memory.Best.{best, best-some, best-none}

module _ {K D : Type 0} (same : K → K → Bool)
    (same_iff : (a b : K) → (same a b ≡ true) ↔ (a ≡ b)) where
  -- The collection.
  abbrev pub memory : Collection K D
  memory = record {
    State = (l : List (K × D)) × Distinct same same_iff l;
    get = λ s k. find same same_iff s.0 k;
    put = λ k d s. (save same same_iff k d s.0, Distinct-save same same_iff k d s.0 s.1);
    pick = λ dir q key s. best same same_iff dir q key s.0;
    find = λ q s. filter (λ x. q x.1) s.0;
    find-Listed = λ q s k d. matching-Listed same same_iff q s.0 s.1 k d;
    count = λ q s. count_docs same same_iff q s.0;
    delete = λ k s. (erase same same_iff k s.0, Distinct-erase same same_iff k s.0 s.1);
    delete_many = λ q s. (remove same same_iff q s.0, Distinct-remove same same_iff q s.0 s.1);
    get-put_self = λ k d s.
        find-save same same_iff k k d s.0
        ∙ ap (λ b. if b then some d else find same same_iff s.0 k) ((same_iff k k).1 refl);
    get-put_ne = λ k j d s h. find-save_ne same same_iff k j d s.0 h;
    pick-some = λ dir q key s k d h. best-some same same_iff dir q key s.0 k d s.1 h;
    pick-none = λ dir q key s h. best-none same same_iff dir q key s.0 h;
    count-put = λ q k d s. count_docs-save same same_iff q k d s.0;
    count_mono = λ q r s h. count_docs_mono same same_iff q r s.0 h;
    count-none = λ q s h. count_docs-none same same_iff q s.0 h;
    get-delete_self = λ k s. find-erase_self same same_iff k s.0;
    get-delete_ne = λ k j s h. find-erase_ne same same_iff k j s.0 h;
    get-delete_many = λ q s k. find-remove same same_iff q k s.0 s.1;
    count-delete_many = λ r q s. count_docs-remove same same_iff r q s.0;
  }

-- Collections keyed by a text and by a number.
module _ {D : Type 0} where
  abbrev pub by_name : Collection String D
  by_name = memory str_eq eq_iff

  abbrev pub by_id : Collection ℕ D
  by_id = memory ◌==◌ ==_iff
