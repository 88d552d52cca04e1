-- ===== src/Scheduler/Skips.antt =====
-- What `run_all` of src/artifact_engine/core/scheduler.py accounts as cached before the dispatch. The
-- time of a marker is a parameter here, and so are the answers that Held gives (`runner.is_cached`,
-- `asset_state.unchanged`).
pub mod Held
pub mod Round
pub mod Settled
mod Tests
use artifact_engine.Prelude.{
  ℕ, String, Bool, true, false, not, ◌&&◌, ◌||◌, Option, none, some, List, [], ◌∷◌, ◌++◌, any, ◌==◌,
  if◌then◌else◌,
}
use artifact_engine.Prelude.Texts.{str_eq}
use artifact_engine.Scheduler.Manifest.{Parser, Machine, by_id}
use artifact_engine.Scheduler.Waiting.{Task, key}

-- `st_mtime` of a parser's marker on a machine (nothing: OSError), and `>` of such times.
pub record Markers : Type 1 where
  pub Time : Type 0
  pub marker_mtime : Machine → Parser → Option Time
  pub is_later : Time → Time → Bool

-- What is known of each task: whether its marker is of this parser as it is and the run is not forced,
-- and whether the lists that it reads are as they were.
pub record Answers : Type 0 where
  pub is_cached : Task → Bool
  pub unchanged : Task → Bool

abbrev pub Key : Type 0
Key = ℕ × String × String

abbrev pub same_task_key : Key → Key → Bool
same_task_key (i, path, x) (j, way, y) = i == j && (str_eq path way && str_eq x y)

-- `(*here, dep) in rerun`
abbrev pub is_among_rerun : Key → List Key → Bool
is_among_rerun k keys = any (same_task_key k) keys

-- `any((*here, dep) in rerun for dep in t.parser.depends_on)`
abbrev pub awaits_rerun : ℕ → String → List String → List Key → Bool
awaits_rerun i path deps rerun = any (λ dep. is_among_rerun (i, path, dep) rerun) deps

abbrev pub has_rerun_dep : Task → List Key → Bool
has_rerun_dep t rerun = awaits_rerun t.m_idx t.volume.path t.parser.depends_on rerun

module _ (markers : Markers) where
  abbrev pub mtime_of : Machine → Option Parser → Option markers.Time
  mtime_of m none = none
  mtime_of m (some p) = markers.marker_mtime m p

  abbrev pub later_than : markers.Time → Option markers.Time → Bool
  later_than mine none = false
  later_than mine (some theirs) = markers.is_later theirs mine

  abbrev pub older_than_any : List Parser → Task → Option markers.Time → Bool
  older_than_any parsers t none = false
  older_than_any parsers t (some mine) =
      any (λ dep. later_than mine (mtime_of t.machine (by_id parsers dep))) t.parser.depends_on

  -- `_older_than_a_dependency`
  unfoldable pub older_than_a_dependency : List Parser → Task → Bool
  unfolding by_id
  older_than_a_dependency parsers t =
      older_than_any parsers t (markers.marker_mtime t.machine t.parser)

-- `to_run`, `rerun`, `stale_keys` and `pending_keys`, and the tasks accounted as cached.
pub record Skips : Type 0 where
  pub to_run : List Task
  pub rerun : List Key
  pub stale_keys : List Key
  pub pending_keys : List Key
  pub cached : List Task

abbrev pub no_skips : Skips
no_skips = record { to_run = []; rerun = []; stale_keys = []; pending_keys = []; cached = [] }

abbrev pub with_run : Task → Skips → Skips
with_run t s = record s { to_run = s.to_run ++ t ∷ []; rerun = s.rerun ++ key t ∷ [] }

abbrev pub runs_stale : Task → Skips → Skips
runs_stale t s = with_run t (record s { stale_keys = s.stale_keys ++ key t ∷ [] })

abbrev pub runs_pending : Task → Skips → Skips
runs_pending t s = with_run t (record s { pending_keys = s.pending_keys ++ key t ∷ [] })

module _ (is_older : Task → Bool) (answers : Answers) where
  -- One round of the loop.
  unfoldable pub skip_one : Task → Skips → Skips
  skip_one t s =
      if is_older t
      then runs_stale t s
      else if answers.is_cached t
      then (if not (answers.unchanged t)
          then runs_stale t s
          else if not (has_rerun_dep t s.rerun)
          then record s { cached = s.cached ++ t ∷ [] }
          else runs_pending t s)
      else with_run t s

  unfoldable pub skip_all : List Task → Skips → Skips
  unfolding skip_one
  skip_all [] s = s
  skip_all (t ∷ tasks) s = skip_all tasks (skip_one t s)
