-- ===== src/Scheduler/Tasks.antt =====
-- The tasks of a run, in the order of `run_all` of src/artifact_engine/core/scheduler.py.
pub mod Levelled
pub mod Counted
use artifact_engine.Prelude.{
  ℕ, zero, suc, max, String, Option, none, some, List, [], ◌∷◌, ◌++◌, length, Bool, true, false,
  keep, if◌then◌else◌,
}
use artifact_engine.Prelude.Options.{◌>>=◌}
use artifact_engine.Scheduler.Manifest.{Parser, Volume, Machine}
use artifact_engine.Scheduler.Topo.{topo_order}
use artifact_engine.Scheduler.Plan.{applicable}
use artifact_engine.Scheduler.Levels.{Memo, level_at, levels}
use artifact_engine.Scheduler.Waiting.{Task}

abbrev pub task_of : ℕ → Machine → Volume → Parser → ℕ → Task
task_of i m vol p level = record { m_idx = i; machine = m; volume = vol; parser = p; level = level }

-- `[_Task(i, m, vol, p, levels[p.id]) for p in applicable]`, of one volume.
unfoldable pub volume_tasks : Memo → ℕ → Machine → Volume → List Parser → Option (List Task)
unfolding level_at
volume_tasks found i m vol [] = some []
volume_tasks found i m vol (p ∷ ps) = do
  level ← level_at p.id found
  rest ← volume_tasks found i m vol ps
  some (task_of i m vol p level ∷ rest)

unfoldable pub volumes_tasks : Memo → ℕ → Machine → List Volume → List Parser → Option (List Task)
unfolding volume_tasks
volumes_tasks found i m [] ps = some []
volumes_tasks found i m (vol ∷ vols) ps = do
  here ← volume_tasks found i m vol ps
  rest ← volumes_tasks found i m vols ps
  some (here ++ rest)

unfoldable pub machine_tasks : List Parser → ℕ → Machine → Option (List Task)
unfolding applicable topo_order levels volumes_tasks
machine_tasks parsers i m = do
  ordered ← topo_order (applicable m parsers)
  by_level ← levels ordered
  volumes_tasks by_level i m m.volumes ordered

-- `per_machine`, for the machines from an index on.
unfoldable pub per_machine : List Parser → ℕ → List Machine → Option (List (List Task))
unfolding machine_tasks
per_machine parsers i [] = some []
per_machine parsers i (m ∷ machines) = do
  here ← machine_tasks parsers i m
  rest ← per_machine parsers (suc i) machines
  some (here ∷ rest)

-- One round of `zip_longest`, and what it leaves.
abbrev pub heads : List (List Task) → List Task
heads [] = []
heads ([] ∷ lists) = heads lists
heads ((t ∷ ts) ∷ lists) = t ∷ heads lists

abbrev pub tails : List (List Task) → List (List Task)
tails [] = []
tails ([] ∷ lists) = [] ∷ tails lists
tails ((t ∷ ts) ∷ lists) = ts ∷ tails lists

abbrev pub rounds_needed : List (List Task) → ℕ
rounds_needed [] = 0
rounds_needed (ts ∷ lists) = max (length ts) (rounds_needed lists)

unfoldable pub round_robin : ℕ → List (List Task) → List Task
round_robin zero lists = []
round_robin (suc rounds) lists = heads lists ++ round_robin rounds (tails lists)

-- `tasks`
unfoldable pub run_tasks : List Parser → List Machine → Option (List Task)
unfolding per_machine round_robin
run_tasks parsers machines = do
  lists ← per_machine parsers 0 machines
  some (round_robin (rounds_needed lists) lists)
