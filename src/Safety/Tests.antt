-- ===== src/Safety/Tests.antt =====
-- Tests of the budgets, and their theorems at concrete inputs: counters held in a function.
use spoo.Base.{
  ℕ, ◌+◌, ◌≤◌, ◌≡◌, refl, sym, ap, ◌∙◌, Bool, true, false, ◌&&◌, Option, some, List, [], ◌∷◌, arith,
  str_eq, ◌==◌, if◌then◌else◌, if_keeps,
}
use spoo.Safety.Counters.{Counters, Key, count_use, after_incr}
use spoo.Safety.Admission.{Request, decide, within}
use spoo.Safety.WebRisk.{take}
use spoo.Safety.Budget.{lookups}
use spoo.Safety.Admitted.{admitted, admitted-Capped}
use text.Mathlib.TextPositions.{eq_refl}

abbrev same_key : Key → Key → Bool
same_key (a, m) (b, n) = str_eq a b && m == n

same_key_refl : (k : Key) → same_key k k ≡ true
same_key_refl (a, m) = ground (arith, eq_refl a)

abbrev raised : Key → (Key → ℕ) → Key → ℕ
raised k s j = if same_key j k then s j + 1 else s j

raised-some :
    (k : Key) (s : Key → ℕ) (n : ℕ)
    → ◌≡◌ {A = Option ℕ} (some (s k + 1)) (some n)
    → (n ≡ s k + 1) × (raised k s k ≡ n)
raised-some k s n h =
    let next : s k + 1 ≡ n = ground (arith, h) in
    (sym next, ap (λ (b : Bool). if b then s k + 1 else s k) (same_key_refl k) ∙ next)

raised_mono : (k j : Key) (s : Key → ℕ) → s j ≤ raised k s j
raised_mono k j s = if_keeps (λ n. s j ≤ n) (same_key j k) _ _ (λ y. omega arith) (λ n. omega arith)

abbrev redis : Counters
redis = record {
  State = Key → ℕ;
  value = λ s k. s k;
  incr = λ k s. (some (s k + 1), raised k s);
  expire = λ k ttl s. (true, s);
  incr-some = raised-some;
  incr_mono = raised_mono;
  value-expire = λ k j ttl s. refl;
}

abbrev fresh : Key → ℕ
fresh k = 0

abbrev reports : List Request
reports =
    record { trigger = "report"; escalation = false; day = 5 }
    ∷ record { trigger = "hot"; escalation = false; day = 5 }
    ∷ record { trigger = "report"; escalation = false; day = 5 }
    ∷ record { trigger = "report"; escalation = false; day = 5 }
    ∷ []

admitted_test : admitted redis 1 2 false "report" 5 reports fresh ≡ 2
unfolding admitted decide within count_use after_incr
admitted_test = refl

lookups_test : lookups redis 1 5 ((true, 5) ∷ (true, 5) ∷ (false, 5) ∷ (true, 6) ∷ []) fresh ≡ 1
unfolding lookups take count_use after_incr
lookups_test = refl

admitted-Capped_example : admitted redis 1 2 false "report" 5 reports fresh ≤ 2
admitted-Capped_example = admitted-Capped redis 1 2 false "report" 5 reports fresh
