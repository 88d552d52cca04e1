-- ===== src/Scheduler/Waiting/Counts.antt =====
-- How many tasks `_dependencies` of src/artifact_engine/core/scheduler.py has a task wait for.
use artifact_engine.Prelude.{
  ℕ, ◌+◌, ◌<◌, ◌≡◌, refl, sym, ◌∙◌, ◌⊎◌, inl, inr, String, Bool, true, false, ◌&&◌, ◌||◌, List, [],
  ◌∷◌, ◌++◌, map, length, length-append, any, keep, Any, All, All-at, All-of_at, ltb, ◌==◌,
  if◌then◌else◌, arith, Bool-cases,
}
use artifact_engine.Prelude.Texts.{
  str_eq, has, eq_of_str_eq, str_eq_refl, DistinctTexts, DistinctTexts-snoc,
}
use artifact_engine.Scheduler.Waiting.{
  Task, MachineKey, machine_key, same_machine_key, is_awaited, present, distinct_names, waits_for,
  waiting_on,
}

-- Tasks of one machine and parser have one level.
abbrev pub SameLevels : List Task → Type 0
SameLevels tasks =
    All
      (λ t.
        All (λ u. (same_machine_key (machine_key t) (machine_key u) ≡ false) ⊎ (t.level ≡ u.level))
          tasks)
      tasks

any-append_keys :
    (test : MachineKey → Bool) (xs ys : List MachineKey)
    → any test (xs ++ ys) ≡ (any test xs || any test ys)
any-append_keys test [] ys = refl
any-append_keys test (x ∷ xs) ys = ground (arith, any-append_keys test xs ys)

-- Of one machine and name, and below a level.
abbrev is_below : ℕ → String → ℕ → Task → Bool
is_below m dep level d = (d.m_idx == m && str_eq d.parser.id dep) && ltb d.level level

abbrev counted : (Task → Bool) → List Task → ℕ
counted test [] = 0
counted test (d ∷ tasks) = (if test d then 1 else 0) + counted test tasks

-- The entries for one name.
abbrev entries : List Task → ℕ → String → ℕ → List MachineKey
entries tasks m dep level =
    map (λ d. (m, dep)) (keep (λ d. ltb d.level level) (present tasks m dep))

length-entries :
    (tasks : List Task) (m : ℕ) (dep : String) (level : ℕ)
    → length (entries tasks m dep level) ≡ counted (is_below m dep level) tasks
unfolding present
length-entries [] m dep level = refl
length-entries (d ∷ tasks) m dep level =
    elim (Bool-cases (d.m_idx == m && str_eq d.parser.id dep)) [
      | inl here ↦ elim (Bool-cases (ltb d.level level)) [
        | inl low ↦ rw (here, low) (omega (arith, length-entries tasks m dep level))
        | inr high ↦ rw (here, high) (omega (arith, length-entries tasks m dep level))
      ]
      | inr apart ↦ rw apart (omega (arith, length-entries tasks m dep level))
    ]

is_awaited-entries :
    (k : MachineKey) (tasks : List Task) (m : ℕ) (dep : String) (level : ℕ)
    → is_awaited k (entries tasks m dep level)
      ≡ (same_machine_key k (m, dep) && any (is_below m dep level) tasks)
unfolding present
is_awaited-entries k [] m dep level = ground arith
is_awaited-entries k (d ∷ tasks) m dep level =
    elim (Bool-cases (d.m_idx == m && str_eq d.parser.id dep)) [
      | inl here ↦ elim (Bool-cases (ltb d.level level)) [
        | inl low ↦ rw (here, low) (ground (arith, is_awaited-entries k tasks m dep level))
        | inr high ↦ rw (here, high) (is_awaited-entries k tasks m dep level)
      ]
      | inr apart ↦ rw apart (is_awaited-entries k tasks m dep level)
    ]

-- The task at hand is below the level exactly if some task of its machine and name is.
any-is_below :
    (d : Task) (tasks : List Task) (level : ℕ)
    → All
        (λ u. (same_machine_key (machine_key d) (machine_key u) ≡ false) ⊎ (d.level ≡ u.level))
        tasks
    → any (is_below d.m_idx d.parser.id level) tasks ≡ true
    → ltb d.level level ≡ true
any-is_below d [] level h e = cc
any-is_below d (u ∷ tasks) level h e = elim (Bool-cases (is_below d.m_idx d.parser.id level u)) [
  | inl found ↦
      let name = eq_of_str_eq u.parser.id d.parser.id (ground arith) in
      elim h.0 [
        | inl differ ↦ ground (arith, name, str_eq_refl d.parser.id)
        | inr same ↦ ground (arith, same)
      ]
  | inr not_here ↦ any-is_below d tasks level h.1 (rw not_here at e)
]

any-is_below_self :
    (d : Task) (tasks : List Task) (level : ℕ)
    → Any (λ u. u ≡ d) tasks
    → ltb d.level level ≡ true
    → any (is_below d.m_idx d.parser.id level) tasks ≡ true
any-is_below_self d [] level m e = absurd m
any-is_below_self d (u ∷ tasks) level (inl same) e =
    rw same (ground (arith, str_eq_refl d.parser.id, e))
any-is_below_self d (u ∷ tasks) level (inr m) e =
    ground (arith, any-is_below_self d tasks level m e)

-- Whether a task has entries for one name.
is_awaited-task :
    (d t : Task) (tasks : List Task) (dep : String)
    → All
        (λ u. (same_machine_key (machine_key d) (machine_key u) ≡ false) ⊎ (d.level ≡ u.level))
        tasks
    → Any (λ u. u ≡ d) tasks
    → is_awaited (machine_key d) (entries tasks t.m_idx dep t.level)
      ≡ is_below t.m_idx dep t.level d
is_awaited-task d t tasks dep h m =
    is_awaited-entries (machine_key d) tasks t.m_idx dep t.level
    ∙ elim (Bool-cases (d.m_idx == t.m_idx && str_eq d.parser.id dep)) [
      | inl same ↦
          let machine : d.m_idx ≡ t.m_idx = ground arith in
          let name : d.parser.id ≡ dep = eq_of_str_eq d.parser.id dep (ground arith) in
          rw (same, ← machine, ← name)
            (levels (any (is_below d.m_idx d.parser.id t.level) tasks) (ltb d.level t.level)
              (any-is_below d tasks t.level h) (any-is_below_self d tasks t.level m))
      | inr apart ↦ rw apart refl
    ]
  where
    levels : (a b : Bool) → (a ≡ true → b ≡ true) → (b ≡ true → a ≡ true) → a ≡ b
    levels true b f g = sym (f refl)
    levels false true f g = g refl
    levels false false f g = refl

abbrev is_dependency : Task → List String → Task → Bool
is_dependency t deps d = (d.m_idx == t.m_idx && has d.parser.id deps) && ltb d.level t.level

is_awaited-waits_for :
    (d t : Task) (tasks : List Task) (deps : List String)
    → All
        (λ u. (same_machine_key (machine_key d) (machine_key u) ≡ false) ⊎ (d.level ≡ u.level))
        tasks
    → Any (λ u. u ≡ d) tasks
    → is_awaited (machine_key d) (waits_for tasks t deps) ≡ is_dependency t deps d
unfolding waits_for
is_awaited-waits_for d t tasks [] h m = ground arith
is_awaited-waits_for d t tasks (dep ∷ deps) h m =
    any-append_keys (same_machine_key (machine_key d)) (entries tasks t.m_idx dep t.level)
      (waits_for tasks t deps)
    ∙ ground (arith, is_awaited-task d t tasks dep h m, is_awaited-waits_for d t tasks deps h m)

counted-split :
    (t : Task) (dep : String) (deps : List String) (tasks : List Task)
    → has dep deps ≡ false
    → counted (is_dependency t (dep ∷ deps)) tasks
      ≡ counted (is_below t.m_idx dep t.level) tasks + counted (is_dependency t deps) tasks
counted-split t dep deps [] h = omega arith
counted-split t dep deps (d ∷ tasks) h = elim (Bool-cases (str_eq d.parser.id dep)) [
  | inl same ↦
      let e = eq_of_str_eq d.parser.id dep same in
      ground (arith, e, h, counted-split t dep deps tasks h)
  | inr apart ↦ ground (arith, apart, counted-split t dep deps tasks h)
]

length-waits_for :
    (t : Task) (tasks : List Task) (deps : List String)
    → DistinctTexts deps
    → length (waits_for tasks t deps) ≡ counted (is_dependency t deps) tasks
unfolding waits_for
length-waits_for t tasks [] h = none_counted tasks
  where
    none_counted : (ds : List Task) → 0 ≡ counted (is_dependency t []) ds
    none_counted [] = refl
    none_counted (d ∷ ds) = ground (arith, none_counted ds)
length-waits_for t tasks (dep ∷ deps) h = omega (
  arith,
  length-append {0} (entries tasks t.m_idx dep t.level) (waits_for tasks t deps),
  length-entries tasks t.m_idx dep t.level,
  length-waits_for t tasks deps h.1,
  counted-split t dep deps tasks h.0,
)

distinct_names-DistinctTexts :
    (out deps : List String) → DistinctTexts out → DistinctTexts (distinct_names out deps)
unfolding distinct_names
distinct_names-DistinctTexts out [] h = h
distinct_names-DistinctTexts out (d ∷ deps) h = elim (Bool-cases (has d out)) [
  | inl old ↦ rw old (distinct_names-DistinctTexts out deps h)
  | inr new ↦
      rw new (distinct_names-DistinctTexts (out ++ d ∷ []) deps (DistinctTexts-snoc out d h new))
]

-- How many tasks have a key among the keys.
abbrev pub awaited_tasks : List MachineKey → List Task → ℕ
awaited_tasks keys tasks = counted (λ d. is_awaited (machine_key d) keys) tasks

counted-eq :
    (p q : Task → Bool) (tasks : List Task)
    → All (λ d. p d ≡ q d) tasks
    → counted p tasks ≡ counted q tasks
counted-eq p q [] h = refl
counted-eq p q (d ∷ tasks) h = rw (h.0, counted-eq p q tasks h.1) refl

-- A task waits for one entry per task that it waits for.
pub length-waiting_on :
    (tasks : List Task) (t : Task)
    → SameLevels tasks
    → length (waiting_on tasks t) ≡ awaited_tasks (waiting_on tasks t) tasks
unfolding waiting_on
length-waiting_on tasks t same =
    let deps = distinct_names [] t.parser.depends_on in
    length-waits_for t tasks deps (distinct_names-DistinctTexts [] t.parser.depends_on tt)
    ∙ sym (
        counted-eq (λ d. is_awaited (machine_key d) (waits_for tasks t deps)) (is_dependency t deps)
          tasks
          (All-of_at
            (λ d. is_awaited (machine_key d) (waits_for tasks t deps) ≡ is_dependency t deps d)
            tasks
            (λ d m.
              is_awaited-waits_for d t tasks deps
                (All-at
                  (λ t.
                    All
                      (λ u.
                        (same_machine_key (machine_key t) (machine_key u) ≡ false)
                        ⊎ (t.level ≡ u.level))
                      tasks)
                  tasks d same m)
                m)))

-- A task that is waited for has a lower level.
pub waiting_on-level :
    (tasks : List Task) (t d : Task)
    → SameLevels tasks
    → Any (λ u. u ≡ d) tasks
    → (is_awaited (machine_key d) (waiting_on tasks t) ≡ false) ⊎ (d.level < t.level)
unfolding waiting_on
waiting_on-level tasks t d same m =
    let deps = distinct_names [] t.parser.depends_on in
    let e =
      is_awaited-waits_for d t tasks deps
        (All-at
          (λ t.
            All
              (λ u.
                (same_machine_key (machine_key t) (machine_key u) ≡ false) ⊎ (t.level ≡ u.level))
              tasks)
          tasks d same m)
        m in
    elim (Bool-cases (ltb d.level t.level)) [
      | inl low ↦ inr (ground arith)
      | inr high ↦ inl (e ∙ ground (arith, high))
    ]
