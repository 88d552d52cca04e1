-- ===== src/Scheduler/Run/Tests.antt =====
-- A run of one parser, from the machine to the last task.
use artifact_engine.Prelude.{
  ◌+◌, ℕ, ◌≡◌, ◌⊎◌, ◌≤◌, refl, String, Bool, true, false, some, List, [], ◌∷◌, length, All, arith,
  if◌then◌else◌,
}
use artifact_engine.Prelude.Texts.{str_eq}
use artifact_engine.Scheduler.Manifest.{normal, Parser, Volume, Machine}
use artifact_engine.Scheduler.Waiting.{Task, waiting_on}
use artifact_engine.Scheduler.Plan.{Pools, applicable, plan_pools}
use artifact_engine.Scheduler.Topo.{topo_order}
use artifact_engine.Scheduler.Levels.{levels}
use artifact_engine.Prelude.Chars.{codes, chars_eq}
use artifact_engine.AssetState.{Strip, absent, held}
use artifact_engine.Scheduler.Skips.Held.{answers_of}
use artifact_engine.Scheduler.Skips.{Answers, Skips, no_skips, skip_all}
use artifact_engine.Scheduler.Tasks.{run_tasks}
use artifact_engine.Scheduler.Dispatch.{
  Pool, State, lane_of, pump, complete, begin_dispatch, Reached, RunsAt, at_start, round,
  nothing_yet,
}
use artifact_engine.Scheduler.Dispatch.Idle.{IsDone}
use artifact_engine.Scheduler.Run.{planned_pools, pool_of, start_of}
use artifact_engine.Scheduler.Run.Ends.{run_all_ends}
use artifact_engine.Scheduler.Run.Workers.{HasWorker, planned_pools-HasWorker}

abbrev reader : String → Parser
reader id = record {
  id = id;
  os = "windows";
  category = "network";
  requires = [];
  depends_on = [];
  has_command = false;
  on_vss = false;
  weight = normal;
}

abbrev drive : Volume
drive = record { name = "C"; path = "C" }

abbrev host : Machine
host = record {
  name = "host";
  os = "windows";
  collector = "kape";
  is_vss = false;
  volumes = drive ∷ [];
}

abbrev parsers : List Parser
parsers = reader "evtx" ∷ reader "shell" ∷ []

abbrev task : Parser → Task
task p = record { m_idx = 0; machine = host; volume = drive; parser = p; level = 0 }

abbrev tasks : List Task
tasks = task (reader "evtx") ∷ task (reader "shell") ∷ []

tasks_made : run_tasks parsers (host ∷ []) ≡ some tasks
unfolding run_tasks levels topo_order applicable
tasks_made = refl

abbrev never : Task → Bool
never t = false

abbrev bare : Strip
bare = record { strip = λ s. s; strip_strip = λ s. refl; strip_visible = λ s h. refl }

-- The shell was read before, and its lists are as they were; the other was never read.
abbrev answers : Answers
answers =
    answers_of bare false (λ t. codes "f")
      (λ t. if str_eq t.parser.id "shell" then held (codes "f") else absent) (λ t. codes "d")
      (λ t. record { is_dir = true; writable = true; stored = held (codes "d") })

abbrev skips : Skips
skips = skip_all never answers tasks no_skips

abbrev pool : Pool
pool = pool_of (planned_pools 4 true skips.to_run)

abbrev first : State
first = start_of 4 true never skips

abbrev last : State
last = pump pool (complete pool never 0 first)

Reached-last : Reached pool first 1 last
unfolding start_of begin_dispatch waiting_on skip_all planned_pools plan_pools answers_of chars_eq
Reached-last = round never 0 at_start nothing_yet refl

run_all_ends_example :
    (((last.busy_proc + last.busy_thread ≡ 0) × All IsDone last.slots)
      ⊎ ((i : ℕ) × RunsAt i last.slots))
    × (1 ≤ length skips.to_run)
run_all_ends_example =
    run_all_ends parsers (host ∷ []) tasks never answers 4 true never tasks_made Reached-last

planned_pools-HasWorker_example :
    let pools : Pools = planned_pools 4 true skips.to_run in
    (pools.proc_workers ≤ 4)
    × (pools.thread_workers ≤ 4)
    × All (λ t. HasWorker pools (lane_of (pool_of pools) t)) skips.to_run
planned_pools-HasWorker_example = planned_pools-HasWorker 4 true skips.to_run (omega arith)
