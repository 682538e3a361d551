-- ===== src/Base/KeyValue.antt =====
-- Redis as its driver presents it to the caches: one value for each key, where a cache's
-- keys are the texts that it makes of names or ids, and calls that may raise
-- (`none`, or `false` where nothing is returned). The server is not part of the program: the fields
-- below its operations state what the driver documents. An entry may vanish at any time, as its time
-- to live ends; no call makes up a value.
use Prim.Native.Nat.{ℕ}
use mathlib.Core.Path.{◌≡◌, refl, sym}
use mathlib.Core.Logic.{◌⊎◌, ◌↔◌, inl, inr}
use mathlib.Core.Bool.{Bool, true}
use mathlib.Core.Option.{Option, none, some}
use native.Mathlib.Omega.{arith}
use spoo.Base.Tests.{if◌then◌else◌, Bool-cases}

pub record KeyValue (K V : Type 0) : Type 1 where
  pub State : Type 0
  -- what stands under a key
  pub value : State → K → Option V
  pub get : K → State → Option (Option V)
  pub setex : K → ℕ → V → State → Bool × State
  pub delete : K → State → Bool × State
  pub get-value : (k : K) (s : State) (r : Option V) → get k s ≡ some r → r ≡ value s k
  pub value-setex :
      (k j : K) (ttl : ℕ) (v w : V) (s : State)
      → value (setex k ttl v s).1 j ≡ some w
      → ((k ≡ j) × (v ≡ w)) ⊎ (value s j ≡ some w)
  pub value-delete :
      (k j : K) (w : V) (s : State) → value (delete k s).1 j ≡ some w → value s j ≡ some w
  pub value-delete_self :
      (k : K) (s : State) → (delete k s).0 ≡ true → value (delete k s).1 k ≡ none

-- A store held in a function, for the tests: it shows that what `KeyValue` assumes can hold.
module _ {K V : Type 0} (same : K → K → Bool)
    (same_iff : (a b : K) → (same a b ≡ true) ↔ (a ≡ b)) where
  abbrev pub write : K → Option V → (K → Option V) → K → Option V
  write k o s j = if same k j then o else s j

  pub write-deleted :
      (k j : K) (w : V) (s : K → Option V) → write k none s j ≡ some w → s j ≡ some w
  write-deleted k j w s h = elim (Bool-cases (same k j)) [
    | inl t ↦ absurd (ground (arith, t, h))
    | inr n ↦ ground (arith, n, h)
  ]

  pub write-saved :
      (k j : K) (v w : V) (s : K → Option V)
      → write k (some v) s j ≡ some w
      → ((k ≡ j) × (v ≡ w)) ⊎ (s j ≡ some w)
  write-saved k j v w s h = elim (Bool-cases (same k j)) [
    | inl t ↦ inl ((same_iff k j).0 t, ground (arith, t, h))
    | inr n ↦ inr (ground (arith, n, h))
  ]

  pub some_injective : {a b : Option V} → some a ≡ some b → a ≡ b
  some_injective h = cc

  abbrev pub in_memory : KeyValue K V
  in_memory = record {
    State = K → Option V;
    value = λ s k. s k;
    get = λ k s. some (s k);
    setex = λ k ttl v s. (true, write k (some v) s);
    delete = λ k s. (true, write k none s);
    get-value = λ k s r h. sym (some_injective h);
    value-setex = λ k j ttl v w s h. write-saved k j v w s h;
    value-delete = λ k j w s h. write-deleted k j w s h;
    value-delete_self = λ k s h. rw ((same_iff k k).1 refl) refl;
  }
