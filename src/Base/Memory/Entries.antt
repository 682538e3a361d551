-- ===== src/Base/Memory/Entries.antt =====
-- Lists of pairs of an `_id` and a document, each `_id` once: lookup, writes, deletions and counts.
use Prim.Native.Nat.{ℕ, ◌+◌, ◌≤◌}
use mathlib.Core.Path.{◌≡◌, refl, sym, ◌∙◌, ap, ap₂}
use mathlib.Core.Logic.{◌≢◌, ◌↔◌, ◌⊎◌, inl, inr}
use mathlib.Core.Bool.{Bool, true, false, ◌&&◌, not}
use mathlib.Core.Option.{Option, none, some}
use mathlib.Core.List.{List, [], ◌∷◌}
use native.Mathlib.Omega.{arith}
use spoo.Base.Tests.{if◌then◌else◌, Bool-cases}
use spoo.Base.Lists.{filter, Listed, filter-Listed}
use spoo.Base.Collection.{tally, unless}

module _ {K D : Type 0} (same : K → K → Bool)
    (same_iff : (a b : K) → (same a b ≡ true) ↔ (a ≡ b)) where
  abbrev pub find : List (K × D) → K → Option D
  find [] k = none
  find ((j, d) ∷ r) k = if same j k then some d else find r k

  abbrev pub save : K → D → List (K × D) → List (K × D)
  save k d [] = (k, d) ∷ []
  save k d ((j, e) ∷ r) = if same j k then (j, d) ∷ r else (j, e) ∷ save k d r

  abbrev pub remove : (D → Bool) → List (K × D) → List (K × D)
  remove q [] = []
  remove q ((j, e) ∷ r) = if q e then remove q r else (j, e) ∷ remove q r

  abbrev pub erase : K → List (K × D) → List (K × D)
  erase k [] = []
  erase k ((j, e) ∷ r) = let rest = erase k r in if same j k then rest else (j, e) ∷ rest

  abbrev pub count_docs : (D → Bool) → List (K × D) → ℕ
  count_docs q [] = 0
  count_docs q ((k, d) ∷ r) = tally q (some d) + count_docs q r

  abbrev pub Distinct : List (K × D) → Type 0
  Distinct [] = Unit
  Distinct ((k, d) ∷ r) = (find r k ≡ none) × Distinct r

  pub find-save :
      (k j : K) (d : D) (l : List (K × D))
      → find (save k d l) j ≡ (if same k j then some d else find l j)
  find-save k j d [] = refl
  find-save k j d ((i, e) ∷ r) =
      ground (arith, same_iff k j, same_iff i k, same_iff i j, find-save k j d r)

  pub Distinct-save : (k : K) (d : D) (l : List (K × D)) → Distinct l → Distinct (save k d l)
  Distinct-save k d [] h = (refl, tt)
  Distinct-save k d ((i, e) ∷ r) (fresh, h) = elim (Bool-cases (same i k)) [
    | inl t ↦ rw t (fresh, h)
    | inr n ↦
        rw n (ground (arith, find-save k i d r, same_iff k i, same_iff i k), Distinct-save k d r h)
  ]

  pub find-remove :
      (q : D → Bool) (k : K) (l : List (K × D))
      → Distinct l
      → find (remove q l) k ≡ unless q (find l k)
  find-remove q k [] h = refl
  find-remove q k ((i, e) ∷ r) (fresh, h) = ground (arith, same_iff i k, find-remove q k r h, fresh)

  pub Distinct-remove : (q : D → Bool) (l : List (K × D)) → Distinct l → Distinct (remove q l)
  Distinct-remove q [] h = tt
  Distinct-remove q ((i, e) ∷ r) (fresh, h) = elim (Bool-cases (q e)) [
    | inl t ↦ rw t (Distinct-remove q r h)
    | inr n ↦ rw n (ground (arith, find-remove q i r h, fresh), Distinct-remove q r h)
  ]

  pub find-erase_self : (k : K) (l : List (K × D)) → find (erase k l) k ≡ none
  find-erase_self k [] = refl
  find-erase_self k ((i, e) ∷ r) = elim (Bool-cases (same i k)) [
    | inl t ↦ rw t (find-erase_self k r)
    | inr n ↦ rw (n, n) (find-erase_self k r)
  ]

  pub find-erase_ne : (k j : K) (l : List (K × D)) → k ≢ j → find (erase k l) j ≡ find l j
  find-erase_ne k j [] h = refl
  find-erase_ne k j ((i, e) ∷ r) h = elim (Bool-cases (same i k)) [
    | inr n ↦ rw n (ap (λ (o : Option D). if same i j then some e else o) (find-erase_ne k j r h))
    | inl t ↦ elim (Bool-cases (same i j)) [
      | inl u ↦ absurd (h (sym ((same_iff i k).0 t) ∙ (same_iff i j).0 u))
      | inr n ↦ rw (t, n) (find-erase_ne k j r h)
    ]
  ]

  pub Distinct-erase : (k : K) (l : List (K × D)) → Distinct l → Distinct (erase k l)
  Distinct-erase k [] h = tt
  Distinct-erase k ((i, e) ∷ r) (fresh, h) = elim (Bool-cases (same i k)) [
    | inl t ↦ rw t (Distinct-erase k r h)
    | inr n ↦
        rw n (
          find-erase_ne k i r (λ p. cc (n, (same_iff i k).1 (sym p))) ∙ fresh,
          Distinct-erase k r h,
        )
  ]

  pub count_docs-save :
      (q : D → Bool) (k : K) (d : D) (l : List (K × D))
      → count_docs q (save k d l) + tally q (find l k) ≡ count_docs q l + tally q (some d)
  count_docs-save q k d [] = omega arith
  count_docs-save q k d ((i, e) ∷ r) = elim (Bool-cases (same i k)) [
    | inl t ↦ rw t (omega arith)
    | inr n ↦ rw n (omega (arith, count_docs-save q k d r))
  ]

  pub count_docs-remove :
      (r q : D → Bool) (l : List (K × D))
      → count_docs r (remove q l) ≡ count_docs (λ d. r d && not (q d)) l
  count_docs-remove r q [] = refl
  count_docs-remove r q ((i, e) ∷ l) = ground (arith, count_docs-remove r q l)

  pub count_docs_mono :
      (q r : D → Bool) (l : List (K × D))
      → ((d : D) → q d ≡ true → r d ≡ true)
      → count_docs q l ≤ count_docs r l
  count_docs_mono q r [] h = omega arith
  count_docs_mono q r ((i, e) ∷ l) h = ground (arith, h e, count_docs_mono q r l h)

  pub count_docs-none :
      (q : D → Bool) (l : List (K × D)) → ((d : D) → q d ≡ false) → count_docs q l ≡ 0
  count_docs-none q [] h = refl
  count_docs-none q ((i, e) ∷ l) h = ground (arith, h e, count_docs-none q l h)

  pub find-head :
      (i k : K) (e d : D) (r : List (K × D))
      → find ((i, e) ∷ r) k ≡ some d
      → ((i ≡ k) × (e ≡ d)) ⊎ (find r k ≡ some d)
  find-head i k e d r h = elim (Bool-cases (same i k)) [
    | inl t ↦ inl ((same_iff i k).0 t, ground arith)
    | inr n ↦ inr (ground arith)
  ]

  pub find-save_ne : (k j : K) (d : D) (l : List (K × D)) → k ≢ j → find (save k d l) j ≡ find l j
  find-save_ne k j d l h = elim (Bool-cases (same k j)) [
    | inl t ↦ absurd (h ((same_iff k j).0 t))
    | inr n ↦ find-save k j d l ∙ ap (λ b. if b then some d else find l j) n
  ]

  found-Listed : (k : K) (d : D) (l : List (K × D)) → find l k ≡ some d → Listed (k, d) l
  found-Listed k d [] h = cc
  found-Listed k d ((i, e) ∷ r) h = elim (find-head i k e d r h) [
    | inl (p, o) ↦ inl (ap₂ (λ a b. (a, b)) (sym p) (sym o))
    | inr later ↦ inr (found-Listed k d r later)
  ]

  Listed-found :
      (k : K) (d : D) (l : List (K × D)) → Distinct l → Listed (k, d) l → find l k ≡ some d
  Listed-found k d [] h listed = absurd listed
  Listed-found k d ((i, e) ∷ r) (fresh, h) (inl same_) =
      let first : k ≡ i = ap (λ x. x.0) same_ in
      let second : d ≡ e = ap (λ x. x.1) same_ in
      rw ((same_iff i k).1 (sym first)) (ap some (sym second))
  Listed-found k d ((i, e) ∷ r) (fresh, h) (inr later) = elim (Bool-cases (same i k)) [
    | inr n ↦ rw n (Listed-found k d r h later)
    | inl t ↦
        let there : find r i ≡ some d =
          ap (find r) ((same_iff i k).0 t) ∙ Listed-found k d r h later in
        cc (there, fresh)
  ]

  pub matching-Listed :
      (q : D → Bool) (l : List (K × D)) (h : Distinct l) (k : K) (d : D)
      → Listed (k, d) (filter (λ x. q x.1) l) ↔ ((find l k ≡ some d) × (q d ≡ true))
  matching-Listed q l h k d =
      let (there, back) = filter-Listed (λ x. q x.1) (k, d) l in
      (
        λ m. (Listed-found k d l h (there m).0, (there m).1),
        λ (stored, yes_). back (found-Listed k d l stored, yes_),
      )
