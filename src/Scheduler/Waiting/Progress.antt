-- ===== src/Scheduler/Waiting/Progress.antt =====
-- `_dependencies` of src/artifact_engine/core/scheduler.py cannot leave tasks waiting for one another
-- for good, whatever the manifests say.
use artifact_engine.Prelude.{
  ℕ, ◌≤◌, ◌<◌, ◌≡◌, refl, ap, subst, sym, inl, inr, String, true, false, ◌&&◌, List, [], ◌∷◌, arith,
  ltb, ◌==◌, keep, Any, All, Bool-cases, if◌then◌else◌,
}
use artifact_engine.Prelude.Texts.{str_eq}
use artifact_engine.Scheduler.Waiting.{Task, present, waits_for, waiting_on}

-- The first task of a lowest level.
lowest : Task → List Task → Task
lowest t [] = t
lowest t (u ∷ us) = lowest (if ltb u.level t.level then u else t) us

lowest-lower :
    (t u : Task) (us : List Task) → ltb u.level t.level ≡ true → lowest t (u ∷ us) ≡ lowest u us
unfolding lowest
lowest-lower t u us e = ap (λ b. lowest (if b then u else t) us) e

lowest-higher :
    (t u : Task) (us : List Task) → ltb u.level t.level ≡ false → lowest t (u ∷ us) ≡ lowest t us
unfolding lowest
lowest-higher t u us e = ap (λ b. lowest (if b then u else t) us) e

lowest-level-le : (t : Task) (us : List Task) → (lowest t us).level ≤ t.level
lowest-level-le t [] = unfold lowest in omega arith
lowest-level-le t (u ∷ us) = elim (Bool-cases (ltb u.level t.level)) [
  | inl lower ↦
      let h = lowest-level-le u us in
      let below : u.level < t.level = ground arith in rw (lowest-lower t u us lower) (omega arith)
  | inr higher ↦ rw (lowest-higher t u us higher) (lowest-level-le t us)
]

lowest-All : (t : Task) (us : List Task) → All (λ u. (lowest t us).level ≤ u.level) us
lowest-All t [] = tt
lowest-All t (u ∷ us) = elim (Bool-cases (ltb u.level t.level)) [
  | inl lower ↦
      subst (λ x. All (λ v. x.level ≤ v.level) (u ∷ us)) (sym (lowest-lower t u us lower))
        (lowest-level-le u us, lowest-All u us)
  | inr higher ↦
      let h = lowest-level-le t us in
      let above : t.level ≤ u.level = ground arith in
      subst (λ x. All (λ v. x.level ≤ v.level) (u ∷ us)) (sym (lowest-higher t u us higher))
        (omega arith, lowest-All t us)
]

-- Whatever is found in a shorter list is found after one more element.
Any-skip :
    (a b : Task) (rest : List Task) (x : Task)
    → Any (λ v. v ≡ x) (a ∷ rest)
    → Any (λ v. v ≡ x) (a ∷ b ∷ rest)
Any-skip a b rest x (inl here) = inl here
Any-skip a b rest x (inr there) = inr (inr there)

lowest-mem : (t : Task) (us : List Task) → Any (λ u. u ≡ lowest t us) (t ∷ us)
lowest-mem t [] = unfold lowest in inl refl
lowest-mem t (u ∷ us) = elim (Bool-cases (ltb u.level t.level)) [
  | inl lower ↦
      subst (λ x. Any (λ v. v ≡ x) (t ∷ u ∷ us)) (sym (lowest-lower t u us lower))
        (inr (lowest-mem u us))
  | inr higher ↦
      subst (λ x. Any (λ v. v ≡ x) (t ∷ u ∷ us)) (sym (lowest-higher t u us higher))
        (Any-skip t u us (lowest t us) (lowest-mem t us))
]

-- Where no task has a lower level, nothing is waited for.
keep-none :
    (level i : ℕ) (dep : String) (tasks : List Task)
    → All (λ d. level ≤ d.level) tasks
    → keep (λ d. ltb d.level level) (present tasks i dep) ≡ []
unfolding present
keep-none level i dep [] h = refl
keep-none level i dep (d ∷ tasks) h = elim (Bool-cases (d.m_idx == i && str_eq d.parser.id dep)) [
  | inl same ↦
      let high : ltb d.level level ≡ false = ground arith in
      rw (same, high) (keep-none level i dep tasks h.1)
  | inr other ↦ rw other (keep-none level i dep tasks h.1)
]

waits_for-none :
    (tasks : List Task) (t : Task) (deps : List String)
    → All (λ d. t.level ≤ d.level) tasks
    → waits_for tasks t deps ≡ []
unfolding waits_for
waits_for-none tasks t [] h = refl
waits_for-none tasks t (dep ∷ deps) h =
    rw (keep-none t.level t.m_idx dep tasks h, waits_for-none tasks t deps h)

-- Among tasks that have not finished, at least one, there is one that waits for none of them.
pub some_task_ready :
    (first : Task) (others : List Task)
    → (t : Task) × Any (λ u. u ≡ t) (first ∷ others) × (waiting_on (first ∷ others) t ≡ [])
unfolding waiting_on
some_task_ready first others = (
  lowest first others,
  lowest-mem first others,
  waits_for-none (first ∷ others) (lowest first others) _
      (lowest-level-le first others, lowest-All first others),
)
