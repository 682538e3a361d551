-- ===== src/Safety/Counters.antt =====
-- Counters in Redis, as the driver presents them, and the `try` block that both budgets share. A
-- key is a pool and a day: the code joins them with separators that neither contains. A call may
-- fail, before or after the server acted. A key outlives its day, so no counter restarts within it.
use spoo.Base.{
  ℕ, ◌+◌, ◌≤◌, String, ◌≡◌, ◌∙◌, refl, Bool, Option, none, some, arith, ◌==◌, if◌then◌else◌,
  if_keeps,
}

abbrev pub Key : Type 0
Key = String × ℕ

pub record Counters : Type 1 where
  pub State : Type 0
  pub value : State → Key → ℕ
  pub incr : Key → State → Option ℕ × State
  -- whether the call succeeded
  pub expire : Key → ℕ → State → Bool × State
  pub incr-some :
      (k : Key) (s : State) (n : ℕ)
      → (incr k s).0 ≡ some n
      → (n ≡ value s k + 1) × (value (incr k s).1 k ≡ n)
  pub incr_mono : (k j : Key) (s : State) → value s j ≤ value (incr k s).1 j
  pub value-expire : (k j : Key) (ttl : ℕ) (s : State) → value (expire k ttl s).1 j ≡ value s j

abbrev pub key_ttl_seconds : ℕ
key_ttl_seconds = 172800

module _ (redis : Counters) where
  open redis use {State, value, incr, expire, incr-some, incr_mono, value-expire}

  -- `used = await incr(key)`, and on the first use `await expire(key, ttl)`; an exception of either
  -- is no count.
  unfoldable pub after_incr : Key → Option ℕ → State → Option ℕ × State
  after_incr k none s = (none, s)
  after_incr k (some used) s =
      let (done, s') = expire k key_ttl_seconds s in
      if used == 1 then (if done then some used else none, s') else (some used, s)

  unfoldable pub count_use : Key → State → Option ℕ × State
  unfolding after_incr
  count_use k s = after_incr k (incr k s).0 (incr k s).1

  value-after_incr :
      (k j : Key) (o : Option ℕ) (s : State) → value (after_incr k o s).1 j ≡ value s j
  unfolding after_incr
  value-after_incr k j none s = refl
  value-after_incr k j (some used) s =
      if_keeps (λ (r : Option ℕ × State). value r.1 j ≡ value s j) (used == 1) _ _
        (λ first. value-expire k j key_ttl_seconds s) (λ later. refl)

  after_incr-some :
      (k : Key) (o : Option ℕ) (s : State) (n : ℕ) → (after_incr k o s).0 ≡ some n → o ≡ some n
  unfolding after_incr
  after_incr-some k none s n h = h
  after_incr-some k (some used) s n h = ground (arith, h)

  -- No use lowers a counter, and a use that is counted raises its own by one, to the count.
  pub count_use_mono : (k j : Key) (s : State) → value s j ≤ value (count_use k s).1 j
  unfolding count_use
  count_use_mono k j s =
      omega (arith, incr_mono k j s, value-after_incr k j (incr k s).0 (incr k s).1)

  pub count_use-some :
      (k : Key) (s : State) (n : ℕ)
      → (count_use k s).0 ≡ some n
      → (n ≡ value s k + 1) × (value (count_use k s).1 k ≡ n)
  unfolding count_use
  count_use-some k s n h =
      let (count, stored) = incr-some k s n (after_incr-some k (incr k s).0 (incr k s).1 n h) in
      (count, value-after_incr k k (incr k s).0 (incr k s).1 ∙ stored)
