-- ===== src/Scheduler/Run.antt =====
-- How `run_all` of src/artifact_engine/core/scheduler.py goes from the machines to the dispatch: the
-- tasks, what is accounted as cached, the pools, and the loop over what is left.
pub mod Ends
pub mod Workers
mod Tests
use artifact_engine.Prelude.{
  ℕ, zero, suc, ◌+◌, ◌-◌, max, Bool, true, false, not, List, [], ◌∷◌, length, if◌then◌else◌,
}
use artifact_engine.Prelude.Sums.{count_of}
use artifact_engine.Scheduler.Plan.{Pools, plan_pools}
use artifact_engine.Scheduler.Waiting.{Task, key}
use artifact_engine.Scheduler.Release.{Older}
use artifact_engine.Scheduler.Skips.{Skips, is_among_rerun}
use artifact_engine.Scheduler.Dispatch.{Pool, State, begin_dispatch}

-- `py`
abbrev pub python_tasks : List Task → ℕ
python_tasks to_run = count_of (λ t. not t.parser.has_command) to_run

-- `use_proc`, `proc_workers` and `thread_workers`
unfoldable pub planned_pools : ℕ → Bool → List Task → Pools
unfolding plan_pools
planned_pools max_workers parse_processes to_run =
    let py : ℕ = python_tasks to_run in
    plan_pools py (length to_run - py) max_workers parse_processes

-- `proc_ex` and `cap`
abbrev pub pool_of : Pools → Pool
pool_of pools = record {
  use_proc = pools.use_proc;
  cap_proc = max 1 pools.proc_workers;
  cap_thread = max 1 pools.thread_workers;
}

-- The state that the loop over futures starts from.
unfoldable pub start_of : ℕ → Bool → Older → Skips → State
unfolding begin_dispatch planned_pools
start_of max_workers parse_processes older s =
    begin_dispatch (pool_of (planned_pools max_workers parse_processes s.to_run)) older
      (λ t. is_among_rerun (key t) s.pending_keys) (λ t. is_among_rerun (key t) s.stale_keys)
      s.to_run
