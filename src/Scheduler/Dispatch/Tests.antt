-- ===== src/Scheduler/Dispatch/Tests.antt =====
-- A run of the dispatch of src/artifact_engine/core/scheduler.py: one task waits for another.
use artifact_engine.Prelude.{
  ℕ, ◌+◌, ◌≡◌, ◌≤◌, refl, inl, inr, String, Bool, true, false, List, [], ◌∷◌, All,
}
use artifact_engine.Scheduler.Manifest.{normal, Parser, Volume, Machine}
use artifact_engine.Scheduler.Waiting.{Task, waiting_on}
use artifact_engine.Scheduler.Waiting.Counts.{SameLevels}
use artifact_engine.Scheduler.Release.{Status, waiting, running, done, Slot}
use artifact_engine.Scheduler.Dispatch.{
  proc, thread, Pool, State, pump, complete, begin_dispatch, Reached, at_start, round, nothing_yet,
}
use artifact_engine.Scheduler.Dispatch.Lanes.{running_in}
use artifact_engine.Scheduler.Dispatch.Pump.{SamePlan}
use artifact_engine.Scheduler.Dispatch.Begin.{first_slots}
use artifact_engine.Scheduler.Dispatch.Idle.{NoneOpen}
use artifact_engine.Scheduler.Dispatch.Loop.{begun, Reached-IsSafe}

abbrev parser : String → List String → Parser
parser id depends_on = record {
  id = id;
  os = "windows";
  category = "network";
  requires = [];
  depends_on = depends_on;
  has_command = true;
  on_vss = false;
  weight = normal;
}

abbrev c_drive : Volume
c_drive = record { name = "C"; path = "C" }

abbrev host : Machine
host = record {
  name = "host";
  os = "windows";
  collector = "kape";
  is_vss = false;
  volumes = c_drive ∷ [];
}

abbrev task : Parser → ℕ → Task
task p level = record { m_idx = 0; machine = host; volume = c_drive; parser = p; level = level }

abbrev tasks : List Task
tasks = task (parser "logons" ("evtx" ∷ [])) 1 ∷ task (parser "evtx" []) 0 ∷ []

abbrev pool : Pool
pool = record { use_proc = false; cap_proc = 1; cap_thread = 1 }

abbrev never : Task → Bool
never t = false

tasks-SameLevels : SameLevels tasks
tasks-SameLevels = ((inr refl, (inl refl, tt)), ((inl refl, (inr refl, tt)), tt))

abbrev first : State
first = begun pool never never never tasks

abbrev second : State
second = pump pool (complete pool never 1 first)

abbrev third : State
third = pump pool (complete pool never 0 second)

statuses : List Slot → List Status
statuses [] = []
statuses (s ∷ slots) = s.status ∷ statuses slots

first_run : statuses first.slots ≡ waiting ∷ running ∷ []
unfolding statuses begin_dispatch waiting_on
first_run = refl

second_run : statuses second.slots ≡ running ∷ done ∷ []
unfolding statuses begin_dispatch waiting_on complete
second_run = refl

Reached-second : Reached pool first 1 second
unfolding begin_dispatch waiting_on
Reached-second = round never 1 at_start nothing_yet refl

Reached-third : Reached pool first 2 third
unfolding begin_dispatch waiting_on complete
Reached-third = round never 0 (round never 1 at_start nothing_yet refl) nothing_yet refl

third_idle : third.busy_proc + third.busy_thread ≡ 0
unfolding begin_dispatch waiting_on complete
third_idle = refl

Reached-IsSafe_example :
    (running_in pool proc second.slots ≤ pool.cap_proc)
    × (running_in pool thread second.slots ≤ pool.cap_thread)
    × (running_in pool proc second.slots ≡ second.busy_proc)
    × (running_in pool thread second.slots ≡ second.busy_thread)
    × SamePlan (first_slots never never tasks tasks) second.slots
    × All (NoneOpen second.slots) second.slots
Reached-IsSafe_example = Reached-IsSafe pool never never never tasks tasks-SameLevels Reached-second
