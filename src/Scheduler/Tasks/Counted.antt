-- ===== src/Scheduler/Tasks/Counted.antt =====
-- Every volume of a machine has a task for each parser that applies to the machine, and only these
-- (src/artifact_engine/core/scheduler.py).
use artifact_engine.Prelude.{
  ℕ, zero, suc, ◌+◌, ◌≤◌, ◌≡◌, refl, sym, ◌∙◌, Option, none, some, List, [], ◌∷◌, ◌++◌, arith, All,
}
use artifact_engine.Prelude.Sums.{total, total-append}
use artifact_engine.Scheduler.Manifest.{Parser, Volume, Machine}
use artifact_engine.Scheduler.Topo.{topo_order}
use artifact_engine.Scheduler.Topo.Total.{topo_order_total}
use artifact_engine.Scheduler.Plan.{applicable}
use artifact_engine.Scheduler.Levels.{Memo, level_at}
use artifact_engine.Scheduler.Levels.Ends.{levels_total}
use artifact_engine.Scheduler.Waiting.{Task}
use artifact_engine.Scheduler.Tasks.{
  task_of, volume_tasks, volumes_tasks, machine_tasks, per_machine, heads, tails, rounds_needed,
  round_robin, run_tasks,
}

-- A weight for each list of a list of lists.
abbrev total_lists : (Task → ℕ) → List (List Task) → ℕ
total_lists w = total (total w)

heads-tails :
    (w : Task → ℕ) (lists : List (List Task))
    → total w (heads lists) + total_lists w (tails lists) ≡ total_lists w lists
heads-tails w [] = refl
heads-tails w ([] ∷ lists) = omega (arith, heads-tails w lists)
heads-tails w ((t ∷ ts) ∷ lists) = omega (arith, heads-tails w lists)

rounds_needed-tails :
    (lists : List (List Task)) (n : ℕ)
    → rounds_needed lists ≤ suc n
    → rounds_needed (tails lists) ≤ n
rounds_needed-tails [] n h = omega arith
rounds_needed-tails ([] ∷ lists) n h = omega (arith, rounds_needed-tails lists n (omega (arith, h)))
rounds_needed-tails ((t ∷ ts) ∷ lists) n h =
    omega (arith, h, rounds_needed-tails lists n (omega (arith, h)))

none_left :
    (w : Task → ℕ) (lists : List (List Task)) → rounds_needed lists ≤ 0 → total_lists w lists ≡ 0
none_left w [] h = refl
none_left w ([] ∷ lists) h = omega (arith, none_left w lists (omega (arith, h)))
none_left w ((t ∷ ts) ∷ lists) h = absurd (omega (arith, h))

-- The rounds take every task of the lists, each once.
round_robin-total :
    (w : Task → ℕ) (rounds : ℕ) (lists : List (List Task))
    → rounds_needed lists ≤ rounds
    → total w (round_robin rounds lists) ≡ total_lists w lists
unfolding round_robin
round_robin-total w zero lists h = sym (none_left w lists h)
round_robin-total w (suc rounds) lists h = omega (
  arith,
  total-append w (heads lists) (round_robin rounds (tails lists)),
  round_robin-total w rounds (tails lists) (rounds_needed-tails lists rounds h),
  heads-tails w lists,
)

abbrev or_nothing : Option (List Parser) → List Parser
or_nothing none = []
or_nothing (some ps) = ps

module _ (v : ℕ → Volume → Parser → ℕ) where
  -- The weight of a task, by its machine, its volume and its parser.
  abbrev pub weigh : Task → ℕ
  weigh t = v t.m_idx t.volume t.parser

  -- The weight of all pairs of a volume and a parser that applies, machine by machine.
  abbrev pub total_pairs : List Parser → ℕ → List Machine → ℕ
  total_pairs parsers i [] = 0
  total_pairs parsers i (m ∷ machines) =
      total (λ vol. total (v i vol) (or_nothing (topo_order (applicable m parsers)))) m.volumes
      + total_pairs parsers (suc i) machines

  volume_tasks-total :
      (found : Memo) (i : ℕ) (m : Machine) (vol : Volume) (ps : List Parser)
      → All (λ p. (n : ℕ) × (level_at p.id found ≡ some n)) ps
      → (tasks : List Task) × (volume_tasks found i m vol ps ≡ some tasks)
        × (total weigh tasks ≡ total (v i vol) ps)
  unfolding volume_tasks
  volume_tasks-total found i m vol [] h = ([], refl, refl)
  volume_tasks-total found i m vol (p ∷ ps) h =
      let (n, level) = h.0 in
      let (rest, e, sum) = volume_tasks-total found i m vol ps h.1 in
      (task_of i m vol p n ∷ rest, rw (level, e) refl, omega (arith, sum))

  volumes_tasks-total :
      (found : Memo) (i : ℕ) (m : Machine) (vols : List Volume) (ps : List Parser)
      → All (λ p. (n : ℕ) × (level_at p.id found ≡ some n)) ps
      → (tasks : List Task) × (volumes_tasks found i m vols ps ≡ some tasks)
        × (total weigh tasks ≡ total (λ vol. total (v i vol) ps) vols)
  unfolding volumes_tasks
  volumes_tasks-total found i m [] ps h = ([], refl, refl)
  volumes_tasks-total found i m (vol ∷ vols) ps h =
      let (here, e, sum) = volume_tasks-total found i m vol ps h in
      let (rest, e', sum') = volumes_tasks-total found i m vols ps h in
      (here ++ rest, rw (e, e') refl, omega (arith, sum, sum', total-append weigh here rest))

  per_machine-total :
      (parsers : List Parser) (i : ℕ) (machines : List Machine)
      → (lists : List (List Task)) × (per_machine parsers i machines ≡ some lists)
        × (total_lists weigh lists ≡ total_pairs parsers i machines)
  unfolding per_machine machine_tasks
  per_machine-total parsers i [] = ([], refl, refl)
  per_machine-total parsers i (m ∷ machines) =
      let (ordered, e) = topo_order_total (applicable m parsers) in
      let (by_level, e', there) = levels_total ordered in
      let (here, e'', sum) = volumes_tasks-total by_level i m m.volumes ordered there in
      let (lists, more, sums) = per_machine-total parsers (suc i) machines in
      (here ∷ lists, rw (e, e', e'', more) refl, rw e (omega (arith, sum, sums)))

  -- The tasks of every run are made, and whatever is counted of a machine's index, a volume and a
  -- parser, there is as much in the tasks as in the volumes of the machines, each with the parsers
  -- that apply to its machine in their order: none is lost or doubled by the rounds.
  pub run_tasks-total :
      (parsers : List Parser) (machines : List Machine)
      → (tasks : List Task) × (run_tasks parsers machines ≡ some tasks)
        × (total weigh tasks ≡ total_pairs parsers 0 machines)
  unfolding run_tasks
  run_tasks-total parsers machines =
      let (lists, e, sums) = per_machine-total parsers 0 machines in
      (
        round_robin (rounds_needed lists) lists,
        rw e refl,
        round_robin-total weigh (rounds_needed lists) lists (omega arith) ∙ sums,
      )
