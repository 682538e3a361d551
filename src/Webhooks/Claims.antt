-- ===== src/Webhooks/Claims.antt =====
-- services/webhooks/executor.py, `run`: the claim loop over its slots. asyncio runs one task at a
-- time, so a step is what happens between two awaits. `asked` is the claim that the loop waits for,
-- with the endpoints that it excludes. The shutdown on cancellation is left out.
use spoo.Base.{
  ℕ, ◌+◌, ◌-◌, ◌<◌, ◌≡◌, Bool, true, false, not, Option, none, some, List, [], ◌∷◌, ◌++◌, leb, ◌==◌,
  if◌then◌else◌,
}
use spoo.Base.Collection.{Collection}
use spoo.Webhooks.{WebhookDeliveryDoc}
use spoo.Webhooks.Deliveries.{claim_due}

abbrev pub filter : (ℕ → Bool) → List ℕ → List ℕ
filter p [] = []
filter p (x ∷ xs) = if p x then x ∷ filter p xs else filter p xs

-- `Counter(ids)`: the count of one key, and the keys in the order of their first occurrence.
abbrev pub occurrences : ℕ → List ℕ → ℕ
occurrences e [] = 0
occurrences e (x ∷ xs) = (if x == e then 1 else 0) + occurrences e xs

abbrev pub distinct : List ℕ → List ℕ
distinct [] = []
distinct (x ∷ xs) = x ∷ filter (λ y. not (y == x)) (distinct xs)

-- `_saturated`
abbrev pub saturated : ℕ → List ℕ → List ℕ
saturated per_endpoint ids = filter (λ e. leb per_endpoint (occurrences e ids)) (distinct ids)

-- A task of `in_flight`. It releases its slot when its attempt ends, and leaves the dictionary in a
-- callback that runs later.
pub record Task : Type 0 where
  pub endpoint_id : ℕ
  pub running : Bool

abbrev pub ids : List Task → List ℕ
ids [] = []
ids (t ∷ ts) = t.endpoint_id ∷ ids ts

module _ (db : Collection ℕ WebhookDeliveryDoc) where
  pub record Loop : Type 0 where
    pub slots : ℕ
    pub in_flight : List Task
    pub asked : Option (List ℕ)
    pub deliveries : db.State

  -- `await slots.acquire()` and the call of `claim_due`.
  unfoldable pub ask : ℕ → Loop → Loop
  ask per_endpoint s = record s {
    slots = s.slots - 1;
    asked = some (saturated per_endpoint (ids s.in_flight));
  }

  -- The claim returned: no row frees the slot, a row starts a task.
  unfoldable pub answered : Option (ℕ × WebhookDeliveryDoc) → db.State → Loop → Loop
  answered none deliveries s = record s {
    slots = s.slots + 1;
    asked = none;
    deliveries = deliveries;
  }
  answered (some (id, row)) deliveries s = record s {
    asked = none;
    deliveries = deliveries;
    in_flight = s.in_flight ++ record { endpoint_id = row.endpoint_id; running = true } ∷ [];
  }

  unfoldable pub answer : ℕ → List ℕ → ℕ → Loop → Loop
  unfolding answered
  answer lease exclude now s =
      let (row, deliveries) = claim_due db lease exclude now s.deliveries in
      answered row deliveries s

  -- The steps of the loop, of its tasks, and of the rest of the system.
  pub data Step (per_endpoint lease : ℕ) (s t : Loop) : Type 0 where
    asks : 0 < s.slots → s.asked ≡ none → t ≡ ask per_endpoint s → Step per_endpoint lease s t
    gets :
        (exclude : List ℕ) (now : ℕ)
        → s.asked ≡ some exclude
        → t ≡ answer lease exclude now s
        → Step per_endpoint lease s t
    claim_fails :
        (exclude : List ℕ)
        → s.asked ≡ some exclude
        → t ≡ answered none s.deliveries s
        → Step per_endpoint lease s t
    attempt_ends :
        (xs ys : List Task) (e : ℕ)
        → s.in_flight ≡ xs ++ record { endpoint_id = e; running = true } ∷ ys
        → t ≡ record s {
          slots = s.slots + 1;
          in_flight = xs ++ record { endpoint_id = e; running = false } ∷ ys;
        }
        → Step per_endpoint lease s t
    is_popped :
        (xs ys : List Task) (e : ℕ)
        → s.in_flight ≡ xs ++ record { endpoint_id = e; running = false } ∷ ys
        → t ≡ record s { in_flight = xs ++ ys }
        → Step per_endpoint lease s t
    elsewhere :
        (deliveries : db.State)
        → t ≡ record s { deliveries = deliveries }
        → Step per_endpoint lease s t

  pub data Reaches (per_endpoint lease : ℕ) (s : Loop) : Loop → Type 0 where
    at_start : Reaches per_endpoint lease s s
    after :
        {t u : Loop}
        → Reaches per_endpoint lease s t
        → Step per_endpoint lease t u
        → Reaches per_endpoint lease s u
