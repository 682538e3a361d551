-- ===== src/Scheduler/Names.antt =====
-- The registry's names: `register` of services/scheduler/registry.py.
use spoo.Base.{
  ℕ, String, ◌≡◌, ◌≢◌, sym, subst, false, Option, [], ◌∷◌, ◌++◌, inl, inr, arith, ok, All,
  Result-cases, eq_iff,
}
use spoo.Scheduler.{ScheduledTask}
use spoo.Scheduler.Registry.{Cron, TaskRegistry, compute_next_run, register, contains}

-- The names of a registry, each once.
abbrev pub IsDistinct : TaskRegistry → Type 0
IsDistinct [] = Unit
IsDistinct (t ∷ ts) = All (λ u. t.name ≢ u.name) ts × IsDistinct ts

abbrev IsAbsent : String → TaskRegistry → Type 0
IsAbsent name ts = All (λ u. name ≢ u.name) ts

contains→IsAbsent :
    (ts : TaskRegistry) (name : String) → contains ts name ≡ false → All (λ u. u.name ≢ name) ts
unfolding contains
contains→IsAbsent [] name h = tt
contains→IsAbsent (t ∷ ts) name h =
    (λ same. ground (arith, eq_iff t.name name), contains→IsAbsent ts name (ground arith))

IsDistinct-append :
    (ts : TaskRegistry) (t : ScheduledTask)
    → IsDistinct ts
    → All (λ u. u.name ≢ t.name) ts
    → IsDistinct (ts ++ t ∷ [])
IsDistinct-append [] t d a = (tt, tt)
IsDistinct-append (u ∷ us) t (h, d) (ne, a) = (snoc us h ne, IsDistinct-append us t d a)
  where
    snoc :
        (vs : TaskRegistry)
        → All (λ v. u.name ≢ v.name) vs
        → u.name ≢ t.name
        → All (λ v. u.name ≢ v.name) (vs ++ t ∷ [])
    snoc [] b ne = (ne, tt)
    snoc (v ∷ vs) (p, b) ne = (p, snoc vs b ne)

register-ok :
    (cron : Cron) (ts ts' : TaskRegistry) (t : ScheduledTask) (now : ℕ)
    → register cron ts t now ≡ ok ts'
    → (contains ts t.name ≡ false) × (ts' ≡ ts ++ t ∷ [])
unfolding register
register-ok cron ts ts' t now h = (ground arith, ground arith)

register-next :
    (cron : Cron) (ts ts' : TaskRegistry) (t : ScheduledTask) (now : ℕ)
    → register cron ts t now ≡ ok ts'
    → (next : Option ℕ) × (compute_next_run cron t.schedule now ≡ ok next)
unfolding register compute_next_run
register-next cron ts ts' t now h = elim (Result-cases (compute_next_run cron t.schedule now)) [
  | inl (e, failed) ↦ absurd (ground (arith, failed))
  | inr found ↦ found
]

-- A successful registration keeps the names distinct and adds the task at the end; its schedule is
-- one that the cron library finds an occurrence of, so that the first run can be computed.
pub register-IsDistinct :
    (cron : Cron) (ts ts' : TaskRegistry) (t : ScheduledTask) (now : ℕ)
    → IsDistinct ts
    → register cron ts t now ≡ ok ts'
    → IsDistinct ts'
      × (ts' ≡ ts ++ t ∷ [])
      × ((next : Option ℕ) × (compute_next_run cron t.schedule now ≡ ok next))
register-IsDistinct cron ts ts' t now d h =
    let (new, added) = register-ok cron ts ts' t now h in
    (
      subst IsDistinct (sym added) (IsDistinct-append ts t d (contains→IsAbsent ts t.name new)),
      added,
      register-next cron ts ts' t now h,
    )
