-- ===== src/Base/Collection/Interface.antt =====
-- A MongoDB collection as its driver presents it (repositories/base.py and the repositories call
-- it). The server is not part of the program: its contents and its operations are the fields of
-- `Collection`, and the other fields state what the driver documents of them. `find_and_update` is
-- the conditional update of the document with one `_id`, the form of every such call.
use Prim.Native.Nat.{ℕ, ◌+◌, ◌≤◌}
use mathlib.Core.Path.{◌≡◌}
use mathlib.Core.Logic.{◌≢◌, ◌↔◌}
use mathlib.Core.Bool.{Bool, true, false, ◌&&◌, not}
use mathlib.Core.Option.{Option, none, some}
use mathlib.Core.List.{List}
use spoo.Base.Lists.{Listed}
use spoo.Base.Tests.{if◌then◌else◌}

-- How a document that may be there counts towards a filter.
abbrev pub tally {ℓ} : {D : Type ℓ} → (D → Bool) → Option D → ℕ
tally q none = 0
tally q (some d) = if q d then 1 else 0

-- The document, unless the filter drops it.
abbrev pub unless {ℓ} : {D : Type ℓ} → (D → Bool) → Option D → Option D
unless q none = none
unless q (some d) = if q d then none else some d

-- The direction of a sort, and when one key may come before another.
pub data Direction : Type 0 where
  ascending descending : Direction

abbrev pub Precedes : Direction → ℕ → ℕ → Type 0
Precedes ascending a b = a ≤ b
Precedes descending a b = b ≤ a

pub record Collection (K D : Type 0) : Type 1 where
  pub State : Type 0
  -- find_one by `_id`
  pub get : State → K → Option D
  -- the server's write of one document, in place of the one with its `_id`
  pub put : K → D → State → State
  -- find_one by a filter, sorted by a key: the server chooses among equals
  pub pick : Direction → (K → D → Bool) → (D → ℕ) → State → Option (K × D)
  -- find by a filter, to a list in the server's order
  pub find : (D → Bool) → State → List (K × D)
  -- count_documents
  pub count : (D → Bool) → State → ℕ
  -- delete_one by `_id`
  pub delete : K → State → State
  -- delete_many
  pub delete_many : (D → Bool) → State → State
  pub get-put_self : (k : K) (d : D) (s : State) → get (put k d s) k ≡ some d
  pub get-put_ne : (k j : K) (d : D) (s : State) → k ≢ j → get (put k d s) j ≡ get s j
  pub pick-some :
      (dir : Direction) (q : K → D → Bool) (key : D → ℕ) (s : State) (k : K) (d : D)
      → pick dir q key s ≡ some (k, d)
      → (get s k ≡ some d)
        × (q k d ≡ true)
        × ((j : K) (e : D) → get s j ≡ some e → q j e ≡ true → Precedes dir (key d) (key e))
  pub pick-none :
      (dir : Direction) (q : K → D → Bool) (key : D → ℕ) (s : State)
      → pick dir q key s ≡ none
      → (k : K) (d : D) → get s k ≡ some d
      → q k d ≡ false
  pub find-Listed :
      (q : D → Bool) (s : State) (k : K) (d : D)
      → Listed (k, d) (find q s) ↔ ((get s k ≡ some d) × (q d ≡ true))
  pub count-put :
      (q : D → Bool) (k : K) (d : D) (s : State)
      → count q (put k d s) + tally q (get s k) ≡ count q s + tally q (some d)
  pub count_mono :
      (q r : D → Bool) (s : State) → ((d : D) → q d ≡ true → r d ≡ true) → count q s ≤ count r s
  pub count-none : (q : D → Bool) (s : State) → ((d : D) → q d ≡ false) → count q s ≡ 0
  pub get-delete_self : (k : K) (s : State) → get (delete k s) k ≡ none
  pub get-delete_ne : (k j : K) (s : State) → k ≢ j → get (delete k s) j ≡ get s j
  pub get-delete_many :
      (q : D → Bool) (s : State) (k : K) → get (delete_many q s) k ≡ unless q (get s k)
  pub count-delete_many :
      (r q : D → Bool) (s : State) → count r (delete_many q s) ≡ count (λ d. r d && not (q d)) s
