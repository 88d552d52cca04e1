-- ===== src/Scheduler/Run/Workers.antt =====
-- No task of `run_all` (src/artifact_engine/core/scheduler.py) goes to a pool that has no worker.
use artifact_engine.Prelude.{
  ℕ, ◌-◌, ◌<◌, ◌≤◌, ◌≡◌, ap, ◌∙◌, inl, inr, Bool, true, false, List, [], ◌∷◌, length, Any, All,
  All-of_at, Bool-cases, arith,
}
use artifact_engine.Scheduler.Plan.{Pools, plan_pools}
use artifact_engine.Scheduler.Plan.Bounds.{Serves, plan_pools-Serves}
use artifact_engine.Scheduler.Waiting.{Task}
use artifact_engine.Scheduler.Dispatch.{Lane, proc, thread, lane_of}
use artifact_engine.Scheduler.Run.{python_tasks, planned_pools, pool_of}

python_tasks-le : (tasks : List Task) → python_tasks tasks ≤ length tasks
python_tasks-le [] = omega arith
python_tasks-le (t ∷ tasks) = ground (arith, python_tasks-le tasks)

command_counted :
    (tasks : List Task) (t : Task)
    → Any (λ u. u ≡ t) tasks
    → t.parser.has_command ≡ true
    → python_tasks tasks < length tasks
command_counted [] t m h = absurd m
command_counted (u ∷ tasks) t (inl e) h =
    let here : u.parser.has_command ≡ true = ap (λ (v : Task). v.parser.has_command) e ∙ h in
    ground (arith, here, python_tasks-le tasks)
command_counted (u ∷ tasks) t (inr m) h = ground (arith, command_counted tasks t m h)

python_counted :
    (tasks : List Task) (t : Task)
    → Any (λ u. u ≡ t) tasks
    → t.parser.has_command ≡ false
    → 0 < python_tasks tasks
python_counted [] t m h = absurd m
python_counted (u ∷ tasks) t (inl e) h =
    let here : u.parser.has_command ≡ false = ap (λ (v : Task). v.parser.has_command) e ∙ h in
    ground (arith, here)
python_counted (u ∷ tasks) t (inr m) h = ground (arith, python_counted tasks t m h)

-- The pool of a lane exists.
abbrev pub HasWorker : Pools → Lane → Type 0
HasWorker pools proc = 0 < pools.proc_workers
HasWorker pools thread = 0 < pools.thread_workers

lane-HasWorker :
    (py cmd max_workers : ℕ) (pools : Pools) (t : Task)
    → Serves py cmd max_workers pools
    → (t.parser.has_command ≡ true → 0 < cmd)
    → (t.parser.has_command ≡ false → 0 < py)
    → HasWorker pools (lane_of (pool_of pools) t)
lane-HasWorker py cmd max_workers pools t serves if_command if_python =
    elim (Bool-cases t.parser.has_command) [
      | inl command ↦ elim serves.commands [
        | inl no_command ↦ absurd (omega (arith, no_command, if_command command))
        | inr threads ↦ elim (Bool-cases pools.use_proc) [
          | inl processes ↦ rw (processes, command) threads
          | inr no_processes ↦ rw no_processes threads
        ]
      ]
      | inr python ↦ elim serves.handlers [
        | inl no_python ↦ absurd (omega (arith, no_python, if_python python))
        | inr (inl (processes, workers, more)) ↦ rw (processes, python) workers
        | inr (inr (no_processes, threads)) ↦ rw no_processes threads
      ]
    ]

-- Where at least one worker is allowed, no pool has more than allowed, and the pool that a task is
-- handed to has one.
pub planned_pools-HasWorker :
    (max_workers : ℕ) (parse_processes : Bool) (to_run : List Task)
    → 0 < max_workers
    → let pools : Pools = planned_pools max_workers parse_processes to_run in
      (pools.proc_workers ≤ max_workers)
      × (pools.thread_workers ≤ max_workers)
      × All (λ t. HasWorker pools (lane_of (pool_of pools) t)) to_run
unfolding planned_pools
planned_pools-HasWorker max_workers parse_processes to_run h =
    let py : ℕ = python_tasks to_run in
    let pools : Pools = plan_pools py (length to_run - py) max_workers parse_processes in
    let serves : Serves py (length to_run - py) max_workers pools =
      plan_pools-Serves py (length to_run - py) max_workers parse_processes h in
    (
      serves.proc_bound,
      serves.thread_bound,
      All-of_at (λ t. HasWorker pools (lane_of (pool_of pools) t)) to_run
          (λ t m.
            lane-HasWorker py (length to_run - py) max_workers pools t serves
              (λ command. omega (arith, command_counted to_run t m command))
              (λ python. python_counted to_run t m python)),
    )
