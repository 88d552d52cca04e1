-- ===== src/Scheduler/Skips/Tests.antt =====
-- A run after the list of one parser was edited.
use artifact_engine.Prelude.{
  ℕ, ◌≡◌, refl, String, Bool, true, false, not, some, List, [], ◌∷◌, map, keep, ltb, if◌then◌else◌,
}
use artifact_engine.Prelude.Texts.{str_eq}
use artifact_engine.Scheduler.Manifest.{normal, Parser, Volume, Machine, by_id}
use artifact_engine.Scheduler.Waiting.{Task, key}
use artifact_engine.Scheduler.Skips.{
  Markers, Answers, Skips, no_skips, older_than_a_dependency, skip_all,
}
use artifact_engine.Scheduler.Skips.Round.{InOrder, is_stale, is_pending, needs_run}
use artifact_engine.Scheduler.Skips.Settled.{skip_all_lem}

abbrev reader : String → List String → Parser
reader id depends_on = record {
  id = id;
  os = "windows";
  category = "network";
  requires = [];
  depends_on = depends_on;
  has_command = false;
  on_vss = false;
  weight = normal;
}

abbrev drive : Volume
drive = record { name = "C"; path = "C" }

abbrev host : Machine
host = record {
  name = "host";
  os = "windows";
  collector = "kape";
  is_vss = false;
  volumes = drive ∷ [];
}

abbrev task : Parser → ℕ → Task
task p level = record { m_idx = 0; machine = host; volume = drive; parser = p; level = level }

abbrev evtx : Task
evtx = task (reader "evtx" []) 0

abbrev logons : Task
logons = task (reader "logons" ("evtx" ∷ [])) 1

abbrev shell : Task
shell = task (reader "shell" []) 0

abbrev all_tasks : List Task
all_tasks = evtx ∷ logons ∷ shell ∷ []

-- The marker of the logons is the oldest.
abbrev markers : Markers
markers = record {
  Time = ℕ;
  marker_mtime = λ m p. some (if str_eq p.id "logons" then 1 else 2);
  is_later = λ t u. ltb u t;
}

logons-older : older_than_a_dependency markers (evtx.parser ∷ logons.parser ∷ []) logons ≡ true
unfolding older_than_a_dependency by_id
logons-older = refl

abbrev never_older : Task → Bool
never_older t = false

abbrev answers : Answers
answers = record { is_cached = λ t. true; unchanged = λ t. not (str_eq t.parser.id "evtx") }

all_tasks-InOrder : InOrder all_tasks
all_tasks-InOrder = ((refl, (refl, (refl, tt))), ((refl, (refl, tt)), ((refl, tt), tt)))

skip_all_run : skip_all never_older answers all_tasks no_skips ≡ record {
  to_run = evtx ∷ logons ∷ [];
  rerun = key evtx ∷ key logons ∷ [];
  stale_keys = key evtx ∷ [];
  pending_keys = key logons ∷ [];
  cached = shell ∷ [];
}
unfolding skip_all
skip_all_run = refl

skip_all_lem_example :
    let final : Skips = skip_all never_older answers all_tasks no_skips in
    (final.to_run ≡ keep (needs_run never_older answers (map key final.to_run)) all_tasks)
    × (final.cached
        ≡ keep (λ t. not (needs_run never_older answers (map key final.to_run) t)) all_tasks)
    × (final.stale_keys ≡ map key (keep (is_stale never_older answers) all_tasks))
    × (final.pending_keys
        ≡ map key (keep (is_pending never_older answers (map key final.to_run)) all_tasks))
    × (final.rerun ≡ map key final.to_run)
skip_all_lem_example = skip_all_lem never_older answers all_tasks all_tasks-InOrder
