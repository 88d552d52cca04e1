-- ===== src/Scheduler/Tasks/Levelled.antt =====
-- The tasks of a run are made, and those of one machine and parser have one level
-- (src/artifact_engine/core/scheduler.py).
use artifact_engine.Prelude.{
  ℕ, zero, suc, ◌≤◌, ◌≡◌, refl, sym, ap, ◌∙◌, String, ◌⊎◌, inl, inr, false, Option, none, some,
  List, [], ◌∷◌, ◌++◌, arith, All, All-at, All-of_at, ◌==◌, Bool-cases, if◌then◌else◌,
}
use artifact_engine.Prelude.Texts.{eq_of_str_eq}
use artifact_engine.Scheduler.Manifest.{Parser, Volume, Machine}
use artifact_engine.Scheduler.Topo.Total.{topo_order_total}
use artifact_engine.Scheduler.Plan.{applicable}
use artifact_engine.Scheduler.Levels.{Memo, level_at}
use artifact_engine.Scheduler.Levels.Ends.{levels_total}
use artifact_engine.Scheduler.Waiting.{Task, machine_key, same_machine_key}
use artifact_engine.Scheduler.Waiting.Counts.{SameLevels}
use artifact_engine.Scheduler.Tasks.{
  task_of, volume_tasks, volumes_tasks, machine_tasks, per_machine, heads, tails, rounds_needed,
  round_robin, run_tasks,
}

All-append : {A : Type 0} (P : A → Type 0) (xs ys : List A) → All P xs → All P ys → All P (xs ++ ys)
All-append P [] ys h k = k
All-append P (x ∷ xs) ys h k = (h.0, All-append P xs ys h.1 k)

All-mono :
    {A : Type 0} (P Q : A → Type 0) (xs : List A) → ((x : A) → P x → Q x) → All P xs → All Q xs
All-mono P Q [] f h = tt
All-mono P Q (x ∷ xs) f h = (f x h.0, All-mono P Q xs f h.1)

-- A task has the level that a table has for its machine and parser.
abbrev LevelledBy : (ℕ → String → Option ℕ) → Task → Type 0
LevelledBy table t = table t.m_idx t.parser.id ≡ some t.level

same_level :
    (table : ℕ → String → Option ℕ) (t u : Task)
    → LevelledBy table t
    → LevelledBy table u
    → (same_machine_key (machine_key t) (machine_key u) ≡ false) ⊎ (t.level ≡ u.level)
same_level table t u ht hu = elim (Bool-cases (same_machine_key (machine_key t) (machine_key u))) [
  | inr other ↦ inl other
  | inl same ↦
      let index : t.m_idx ≡ u.m_idx = ground (arith, same) in
      let name : t.parser.id ≡ u.parser.id =
        eq_of_str_eq t.parser.id u.parser.id (ground (arith, same)) in
      let both : some t.level ≡ some u.level =
        sym ht ∙ ap (λ i. table i t.parser.id) index ∙ ap (table u.m_idx) name ∙ hu in
      inr (cc both)
]

SameLevels-table :
    (table : ℕ → String → Option ℕ) (tasks : List Task)
    → All (LevelledBy table) tasks
    → SameLevels tasks
SameLevels-table table tasks h =
    All-of_at
      (λ t.
        All (λ u. (same_machine_key (machine_key t) (machine_key u) ≡ false) ⊎ (t.level ≡ u.level))
          tasks)
      tasks
      (λ t mt.
        All-of_at
          (λ u. (same_machine_key (machine_key t) (machine_key u) ≡ false) ⊎ (t.level ≡ u.level))
          tasks
          (λ u mu.
            same_level table t u (All-at (LevelledBy table) tasks t h mt)
              (All-at (LevelledBy table) tasks u h mu)))

-- The tasks of one machine, by its index and its levels.
abbrev IsOf : Memo → ℕ → Task → Type 0
IsOf found i t = (t.m_idx ≡ i) × (level_at t.parser.id found ≡ some t.level)

volume_tasks-IsOf :
    (found : Memo) (i : ℕ) (m : Machine) (vol : Volume) (ps : List Parser)
    → All (λ p. (n : ℕ) × (level_at p.id found ≡ some n)) ps
    → (tasks : List Task) × (volume_tasks found i m vol ps ≡ some tasks) × All (IsOf found i) tasks
unfolding volume_tasks
volume_tasks-IsOf found i m vol [] h = ([], refl, tt)
volume_tasks-IsOf found i m vol (p ∷ ps) h =
    let (n, level) = h.0 in
    let (rest, e, all) = volume_tasks-IsOf found i m vol ps h.1 in
    (task_of i m vol p n ∷ rest, rw (level, e) refl, ((refl, level), all))

volumes_tasks-IsOf :
    (found : Memo) (i : ℕ) (m : Machine) (vols : List Volume) (ps : List Parser)
    → All (λ p. (n : ℕ) × (level_at p.id found ≡ some n)) ps
    → (tasks : List Task) × (volumes_tasks found i m vols ps ≡ some tasks)
      × All (IsOf found i) tasks
unfolding volumes_tasks
volumes_tasks-IsOf found i m [] ps h = ([], refl, tt)
volumes_tasks-IsOf found i m (vol ∷ vols) ps h =
    let (here, e, all) = volume_tasks-IsOf found i m vol ps h in
    let (rest, e', all') = volumes_tasks-IsOf found i m vols ps h in
    (here ++ rest, rw (e, e') refl, All-append (IsOf found i) here rest all all')

machine_tasks-IsOf :
    (parsers : List Parser) (i : ℕ) (m : Machine)
    → (found : Memo) × (tasks : List Task) × (machine_tasks parsers i m ≡ some tasks)
      × All (IsOf found i) tasks
unfolding machine_tasks
machine_tasks-IsOf parsers i m =
    let (ordered, e) = topo_order_total (applicable m parsers) in
    let (by_level, e', there) = levels_total ordered in
    let (tasks, e'', all) = volumes_tasks-IsOf by_level i m m.volumes ordered there in
    (by_level, tasks, rw (e, e') e'', all)

-- The tasks of machines from an index on.
abbrev IsFrom : (ℕ → String → Option ℕ) → ℕ → Task → Type 0
IsFrom table i t = LevelledBy table t × (i ≤ t.m_idx)

abbrev extended_by : ℕ → Memo → (ℕ → String → Option ℕ) → ℕ → String → Option ℕ
extended_by i found table j x = if j == i then level_at x found else table j x

IsFrom-own :
    (i : ℕ) (found : Memo) (table : ℕ → String → Option ℕ) (t : Task)
    → IsOf found i t
    → IsFrom (extended_by i found table) i t
IsFrom-own i found table t h = (ground (arith, h.0, h.1), omega (arith, h.0))

IsFrom-later :
    (i : ℕ) (found : Memo) (table : ℕ → String → Option ℕ) (t : Task)
    → IsFrom table (suc i) t
    → IsFrom (extended_by i found table) i t
IsFrom-later i found table t h =
    let other : (t.m_idx == i) ≡ false = ground (arith, h.1) in (rw other h.0, omega (arith, h.1))

per_machine-IsFrom :
    (parsers : List Parser) (i : ℕ) (machines : List Machine)
    → (table : ℕ → String → Option ℕ) × (lists : List (List Task)) × (per_machine parsers i machines
        ≡ some lists)
      × All (λ ts. All (IsFrom table i) ts) lists
unfolding per_machine
per_machine-IsFrom parsers i [] = ((λ j x. none), [], refl, tt)
per_machine-IsFrom parsers i (m ∷ machines) =
    let (found, here, e, all) = machine_tasks-IsOf parsers i m in
    let (table, lists, e', all') = per_machine-IsFrom parsers (suc i) machines in
    (
      extended_by i found table,
      here ∷ lists,
      rw (e, e') refl,
      (
        All-mono (IsOf found i) (IsFrom (extended_by i found table) i) here
            (IsFrom-own i found table) all,
        All-mono (λ ts. All (IsFrom table (suc i)) ts)
            (λ ts. All (IsFrom (extended_by i found table) i) ts) lists
            (λ ts h.
              All-mono (IsFrom table (suc i)) (IsFrom (extended_by i found table) i) ts
                (IsFrom-later i found table) h)
            all',
      ),
    )

heads-All :
    (P : Task → Type 0) (lists : List (List Task))
    → All (λ ts. All P ts) lists
    → All P (heads lists)
heads-All P [] h = tt
heads-All P ([] ∷ lists) h = heads-All P lists h.1
heads-All P ((t ∷ ts) ∷ lists) h = (h.0.0, heads-All P lists h.1)

tails-All :
    (P : Task → Type 0) (lists : List (List Task))
    → All (λ ts. All P ts) lists
    → All (λ ts. All P ts) (tails lists)
tails-All P [] h = tt
tails-All P ([] ∷ lists) h = (tt, tails-All P lists h.1)
tails-All P ((t ∷ ts) ∷ lists) h = (h.0.1, tails-All P lists h.1)

round_robin-All :
    (P : Task → Type 0) (rounds : ℕ) (lists : List (List Task))
    → All (λ ts. All P ts) lists
    → All P (round_robin rounds lists)
unfolding round_robin
round_robin-All P zero lists h = tt
round_robin-All P (suc rounds) lists h =
    All-append P (heads lists) (round_robin rounds (tails lists)) (heads-All P lists h)
      (round_robin-All P rounds (tails lists) (tails-All P lists h))

-- The tasks of every run are made, no parser being without a level, and those of one machine and
-- parser have one level.
pub run_tasks-SameLevels :
    (parsers : List Parser) (machines : List Machine)
    → (tasks : List Task) × (run_tasks parsers machines ≡ some tasks) × SameLevels tasks
unfolding run_tasks
run_tasks-SameLevels parsers machines =
    let (table, lists, e, all) = per_machine-IsFrom parsers 0 machines in
    let tasks : List Task = round_robin (rounds_needed lists) lists in
    (
      tasks,
      rw e refl,
      SameLevels-table table tasks (
          All-mono (IsFrom table 0) (LevelledBy table) tasks (λ t h. h.0)
            (round_robin-All (IsFrom table 0) (rounds_needed lists) lists all)),
    )
