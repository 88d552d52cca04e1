-- ===== src/Scheduler/Tests.antt =====
-- Runs of src/artifact_engine/core/scheduler.py on small sets of parsers.
use artifact_engine.Prelude.{
  ℕ, ◌≡◌, ◌<◌, refl, inl, inr, String, true, false, none, some, List, [], ◌∷◌, arith, All,
  if◌then◌else◌,
}
use artifact_engine.Prelude.Texts.{str_eq, has}
use artifact_engine.Scheduler.Manifest.{normal, Parser, Volume, Machine, by_id}
use artifact_engine.Scheduler.Topo.{topo_order}
use artifact_engine.Scheduler.Topo.Once.{ids, Distinct, topo_order_once}
use artifact_engine.Scheduler.Topo.Order.{Closed, Ranked, none_known, topo_order_sound}
use artifact_engine.Scheduler.Plan.{applicable, out_dir}
use artifact_engine.Scheduler.Waiting.{Task, waiting_on}
use artifact_engine.Scheduler.Waiting.Counts.{SameLevels}
use artifact_engine.Scheduler.Levels.{Memo, level_at, known_deps, levels}
use artifact_engine.Scheduler.Levels.Chain.{depth}
use artifact_engine.Scheduler.Levels.Longest.{levels_longest}
use artifact_engine.Scheduler.Tasks.{run_tasks}
use artifact_engine.Scheduler.Tasks.Levelled.{run_tasks-SameLevels}
use artifact_engine.Scheduler.Tasks.Counted.{weigh, total_pairs, run_tasks-total}
use artifact_engine.Prelude.Sums.{total}

abbrev parser : String → List String → List String → Parser
parser id requires depends_on = record {
  id = id;
  os = "windows";
  category = "network";
  requires = requires;
  depends_on = depends_on;
  has_command = false;
  on_vss = false;
  weight = normal;
}

abbrev logons : Parser
logons = parser "logons" [] ("evtx" ∷ "missing" ∷ [])

abbrev evtx : Parser
evtx = parser "evtx" [] []

abbrev image : Parser
image = parser "image" ("memory.image" ∷ []) []

abbrev set : List Parser
set = logons ∷ evtx ∷ image ∷ []

abbrev sorted : List Parser
sorted = evtx ∷ logons ∷ image ∷ []

abbrev c_drive : Volume
c_drive = record { name = "C"; path = "C" }

abbrev host : Machine
host = record {
  name = "host";
  os = "windows";
  collector = "kape";
  is_vss = false;
  volumes = c_drive ∷ [];
}

abbrev task : Parser → ℕ → Task
task p level = record { m_idx = 0; machine = host; volume = c_drive; parser = p; level = level }

topo_order_run : topo_order set ≡ some sorted
unfolding topo_order
topo_order_run = refl

applicable_run : applicable host set ≡ logons ∷ evtx ∷ []
unfolding applicable
applicable_run = refl

out_dir_run : out_dir "unheard" ≡ "CSVs" ∷ "unheard" ∷ []
unfolding out_dir
out_dir_run = refl

waiting_on_run : waiting_on (task logons 1 ∷ task evtx 0 ∷ []) (task logons 1) ≡ (0, "evtx") ∷ []
unfolding waiting_on
waiting_on_run = refl

abbrev rank : String → ℕ
rank id = if str_eq id "logons" then 1 else 0

by_id_missing : by_id set "missing" ≡ none
unfolding by_id
by_id_missing = refl

set-Ranked : Ranked set rank
set-Ranked = ((inr (omega arith), (inl by_id_missing, tt)), (tt, (tt, tt)))

topo_order_once_example : Distinct sorted × All (λ p. has p.id (ids sorted) ≡ true) set
topo_order_once_example = topo_order_once set sorted topo_order_run

topo_order_sound_example : Closed set none_known sorted
topo_order_sound_example = topo_order_sound set rank sorted set-Ranked topo_order_run

-- A cycle gets levels too: the parser that is asked again counts as 0.
levels_of_cycle :
    levels (parser "a" [] ("b" ∷ []) ∷ parser "b" [] ("a" ∷ []) ∷ [])
    ≡ some (("b", 1) ∷ ("a", 2) ∷ [])
unfolding levels
levels_of_cycle = refl

set_unique : All (λ p. by_id set p.id ≡ some p) set
unfolding by_id
set_unique = (refl, (refl, (refl, tt)))

levels_longest_example :
    (result : Memo) × (levels set ≡ some result)
    × All (λ p. level_at p.id result ≡ some (depth set rank set-Ranked p)) set
    × All
        (λ p.
          All
            (λ q. depth set rank set-Ranked q < depth set rank set-Ranked p)
            (known_deps set p.depends_on))
        set
levels_longest_example = levels_longest set rank set-Ranked set_unique

abbrev snapshot : Volume
snapshot = record { name = "D"; path = "D" }

abbrev two_volumes : Machine
two_volumes = record host { volumes = c_drive ∷ snapshot ∷ [] }

abbrev of_logons : ℕ → Volume → Parser → ℕ
of_logons i vol p = if str_eq p.id "logons" then 1 else 0

run_tasks_run :
    run_tasks set (host ∷ two_volumes ∷ [])
    ≡ some (
        record (task evtx 0) { machine = host }
        ∷ record (task evtx 0) { m_idx = 1; machine = two_volumes }
        ∷ record (task logons 1) { machine = host }
        ∷ record (task logons 1) { m_idx = 1; machine = two_volumes }
        ∷ record (task evtx 0) { m_idx = 1; machine = two_volumes; volume = snapshot }
        ∷ record (task logons 1) { m_idx = 1; machine = two_volumes; volume = snapshot }
        ∷ [])
unfolding run_tasks levels topo_order applicable
run_tasks_run = refl

run_tasks-SameLevels_example :
    (tasks : List Task) × (run_tasks set (host ∷ two_volumes ∷ []) ≡ some tasks) × SameLevels tasks
run_tasks-SameLevels_example = run_tasks-SameLevels set (host ∷ two_volumes ∷ [])

run_tasks-total_example :
    (tasks : List Task) × (run_tasks set (host ∷ two_volumes ∷ []) ≡ some tasks)
    × (total (weigh of_logons) tasks ≡ total_pairs of_logons set 0 (host ∷ two_volumes ∷ []))
run_tasks-total_example = run_tasks-total of_logons set (host ∷ two_volumes ∷ [])
