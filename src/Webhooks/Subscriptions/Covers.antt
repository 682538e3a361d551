-- ===== src/Webhooks/Subscriptions/Covers.antt =====
-- What the patterns of services/webhooks/registry.py cover, apart from the loop of `expand`.
use spoo.Base.{
  String, true, false, Option, none, some, List, [], ◌∷◌, ◌++◌, map, any, filter, filter-Listed,
  Listed, any-Listed, str_eq, eq_iff, if◌then◌else◌, ◌≡◌, ◌↔◌, ◌⊎◌, inl, inr, refl, sym, ap, ◌∙◌,
  subst, Bool-cases, Option-cases,
}
use spoo.Base.Text.{append, strip_suffix, strip_suffix-append, strip_suffix-some}
use spoo.Webhooks.Subscriptions.Registry.{
  EventTypeSpec, names, names_in, added, expand_from, expand,
}

-- Lists: members of an append and of a map.
pub append-Listed :
    {A : Type 0} (x : A) (l m : List A) → Listed x (l ++ m) ↔ (Listed x l ⊎ Listed x m)
append-Listed x [] m = (λ h. inr h, λ h. elim h [ inl e ↦ absurd e | inr h' ↦ h' ])
append-Listed x (y ∷ l) m = (
  λ h. elim h [
    | inl e ↦ inl (inl e)
    | inr later ↦ elim ((append-Listed x l m).0 later) [ inl a ↦ inl (inr a) | inr b ↦ inr b ]
  ],
  λ h. elim h [
    | inl (inl e) ↦ inl e
    | inl (inr a) ↦ inr ((append-Listed x l m).1 (inl a))
    | inr b ↦ inr ((append-Listed x l m).1 (inr b))
  ],
)

pub map-Listed :
    {A B : Type 0} (f : A → B) (y : B) (l : List A)
    → Listed y (map f l) ↔ ((x : A) × Listed x l × (y ≡ f x))
map-Listed f y [] = (λ h. absurd h, λ (x, h, e). absurd h)
map-Listed f y (a ∷ l) = (
  λ h. elim h [
    | inl e ↦ (a, inl refl, e)
    | inr later ↦ let (x, there, e) = (map-Listed f y l).0 later in (x, inr there, e)
  ],
  λ (x, there, e). elim there [
    | inl same ↦ inl (e ∙ ap f same)
    | inr later ↦ inr ((map-Listed f y l).1 (x, later, e))
  ],
)

module _ (registry : List EventTypeSpec) where
  -- A pattern covers a registered event type: "*" covers them all, a category with ".*" those of the
  -- category, and a name that is no such wildcard itself.
  pub record Covers (pattern event_type : String) : Type 0 where
    pub spec : EventTypeSpec
    pub registered : Listed spec registry
    pub named : event_type ≡ spec.name
    pub by :
        (pattern ≡ "*")
        ⊎ ((pattern ≡ append spec.category ".*")
            ⊎ ((pattern ≡ event_type) × ((c : String) → pattern ≡ append c ".*" → ⊥)))

  names-Covers : (x p : String) → Covers p x → Listed x (names registry)
  names-Covers x p c = (map-Listed (λ s. s.name) x registry).1 (c.spec, c.registered, c.named)

  star-Covers : (x p : String) → p ≡ "*" → Listed x (names registry) → Covers p x
  star-Covers x p star h =
      let (spec, there, e) = (map-Listed (λ s. s.name) x registry).0 h in
      record { spec = spec; registered = there; named = e; by = inl star }

  names_in-Listed :
      (x c : String)
      → Listed x (names_in registry c)
        ↔ ((spec : EventTypeSpec) × Listed spec registry × (spec.category ≡ c) × (x ≡ spec.name))
  names_in-Listed x c =
      let (there, back) = map-Listed (λ s. s.name) x (filter (λ s. str_eq s.category c) registry) in
      (
        λ h.
            let (spec, listed, e) = there h in
            let (l, m) = (filter-Listed (λ s. str_eq s.category c) spec registry).0 listed in
            (spec, l, (eq_iff spec.category c).0 m, e),
        λ (spec, l, m, e). back (
          spec,
          (filter-Listed (λ s. str_eq s.category c) spec registry).1
              (l, (eq_iff spec.category c).1 m),
          e,
        ),
      )

  -- The names that one pattern adds, by what is left of it without ".*".
  covered :
      (x p : String) (left : Option String)
      → strip_suffix ".*" p ≡ left
      → Listed x (added registry p left)
      → Covers p x
  covered x p (some c) h listed =
      let (spec, l, same, e) = (names_in-Listed x c).0 listed in
      record {
        spec = spec;
        registered = l;
        named = e;
        by = inr (inl (strip_suffix-some ".*" p c h ∙ ap (λ y. append y ".*") (sym same)));
      }
  covered x p none h listed = elim (Bool-cases (any (str_eq p) (names registry))) [
    | inr n ↦ absurd (subst (λ b. Listed x (if b then p ∷ [] else [])) n listed)
    | inl t ↦
        let one = subst (λ b. Listed x (if b then p ∷ [] else [])) t listed in
        let same : x ≡ p = elim one [ inl e ↦ e | inr e ↦ absurd e ] in
        let (spec, l, e) =
          (map-Listed (λ s. s.name) p registry).0
            ((any-Listed str_eq eq_iff p (names registry)).0 t) in
        record {
          spec = spec;
          registered = l;
          named = same ∙ e;
          by = inr (inr (sym same, λ c long. cc (strip_suffix-append ".*" c, long, h)));
        }
  ]

  -- A pattern other than "*" adds what it covers.
  added-Covers :
      (x p : String)
      → str_eq p "*" ≡ false
      → Covers p x
      → Listed x (added registry p (strip_suffix ".*" p))
  added-Covers x p other c = elim (c.by) [
    | inl star ↦ cc ((eq_iff p "*").1 star, other)
    | inr (inl wild) ↦
        let left : strip_suffix ".*" p ≡ some c.spec.category =
          ap (strip_suffix ".*") wild ∙ strip_suffix-append ".*" c.spec.category in
        subst (λ o. Listed x (added registry p o)) (sym left)
          ((names_in-Listed x c.spec.category).1 (c.spec, c.registered, refl, c.named))
    | inr (inr (same, plain)) ↦
        let left : strip_suffix ".*" p ≡ none = elim (Option-cases (strip_suffix ".*" p)) [
          | inl e ↦ e
          | inr (r, e) ↦ absurd (plain r (strip_suffix-some ".*" p r e))
        ] in
        let known : any (str_eq p) (names registry) ≡ true =
          (any-Listed str_eq eq_iff p (names registry)).1
            (subst (λ y. Listed y (names registry)) (sym same) (names-Covers x p c)) in
        subst (λ o. Listed x (added registry p o)) (sym left)
          (subst (λ b. Listed x (if b then p ∷ [] else [])) (sym known) (inl (sym same)))
  ]

  -- An event type is covered by one of the patterns.
  abbrev pub Covered : List String → String → Type 0
  Covered patterns event_type = (p : String) × Listed p patterns × Covers p event_type

  expand_from-Covered :
      (x : String) (out patterns : List String)
      → (Listed x out → Listed x (names registry))
      → Listed x (expand_from registry out patterns) ↔ (Listed x out ⊎ Covered patterns x)
  unfolding expand_from
  expand_from-Covered x out [] known =
      (λ h. inl h, λ h. elim h [ inl h' ↦ h' | inr (p, listed, c) ↦ absurd listed ])
  expand_from-Covered x out (p ∷ ps) known = elim (Bool-cases (str_eq p "*")) [
    | inl t ↦ (
      rw t (λ h. inr (p, inl refl, star-Covers x p ((eq_iff p "*").0 t) h)),
      rw t (λ h. elim h [ inl h' ↦ known h' | inr (q, listed, c) ↦ names-Covers x q c ]),
    )
    | inr n ↦
        let (there, back) =
          expand_from-Covered x (out ++ added registry p (strip_suffix ".*" p)) ps (λ h.
            elim ((append-Listed x out (added registry p (strip_suffix ".*" p))).0 h) [
              | inl h' ↦ known h'
              | inr h' ↦ names-Covers x p (covered x p (strip_suffix ".*" p) refl h')
            ]) in
        let split = append-Listed x out (added registry p (strip_suffix ".*" p)) in
        (
          rw n (λ h. elim (there h) [
            | inr (q, listed, c) ↦ inr (q, inr listed, c)
            | inl h' ↦ elim (split.0 h') [
              | inl old ↦ inl old
              | inr new ↦ inr (p, inl refl, covered x p (strip_suffix ".*" p) refl new)
            ]
          ]),
          rw n (λ h. elim h [
            | inl old ↦ back (inl (split.1 (inl old)))
            | inr (q, inr listed, c) ↦ back (inr (q, listed, c))
            | inr (q, inl same, c) ↦
                back (inl (split.1 (inr (added-Covers x p n (subst (λ y. Covers y x) same c)))))
          ]),
        )
  ]

  -- `expand` is the union of what the patterns cover.
  pub expand-Covered :
      (x : String) (patterns : List String)
      → Listed x (expand registry patterns) ↔ Covered patterns x
  unfolding expand
  expand-Covered x patterns =
      let (there, back) = expand_from-Covered x [] patterns (λ h. absurd h) in
      (λ h. elim (there h) [ inl h' ↦ absurd h' | inr c ↦ c ], λ c. back (inr c))
