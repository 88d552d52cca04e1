-- ===== src/Scheduler/Waiting.antt =====
-- Tasks and what they wait for: `_Task`, `_key`, `_machine_key` and `_dependencies` of
-- src/artifact_engine/core/scheduler.py.
pub mod Progress
pub mod Counts
use artifact_engine.Prelude.{
  ℕ, String, Bool, true, false, ◌&&◌, List, [], ◌∷◌, ◌++◌, map, ltb, ◌==◌, keep, any, if◌then◌else◌,
}
use artifact_engine.Prelude.Texts.{str_eq, has}
use artifact_engine.Scheduler.Manifest.{Parser, Volume, Machine}

pub record Task : Type 0 where
  pub m_idx : ℕ
  pub machine : Machine
  pub volume : Volume
  pub parser : Parser
  pub level : ℕ

abbrev pub key : Task → ℕ × String × String
key t = (t.m_idx, t.volume.path, t.parser.id)

abbrev pub MachineKey : Type 0
MachineKey = ℕ × String

abbrev pub machine_key : Task → MachineKey
machine_key t = (t.m_idx, t.parser.id)

-- Equality of keys, and `key in keys`.
abbrev pub same_machine_key : MachineKey → MachineKey → Bool
same_machine_key (i, x) (j, y) = i == j && str_eq x y

abbrev pub is_awaited : MachineKey → List MachineKey → Bool
is_awaited k keys = any (same_machine_key k) keys

-- `present.get((m_idx, dep), [])`: the tasks of a machine and parser, in their order.
unfoldable pub present : List Task → ℕ → String → List Task
present tasks i dep = keep (λ d. d.m_idx == i && str_eq d.parser.id dep) tasks

-- `dict.fromkeys(names)`, with the names so far
unfoldable pub distinct_names : List String → List String → List String
distinct_names out [] = out
distinct_names out (d ∷ deps) = distinct_names (if has d out then out else out ++ d ∷ []) deps

-- The inner loops, for one task.
unfoldable pub waits_for : List Task → Task → List String → List MachineKey
unfolding present
waits_for tasks t [] = []
waits_for tasks t (dep ∷ deps) =
    map (λ d. (t.m_idx, dep)) (keep (λ d. ltb d.level t.level) (present tasks t.m_idx dep))
    ++ waits_for tasks t deps

-- `_dependencies(tasks)[_key(t)]`
unfoldable pub waiting_on : List Task → Task → List MachineKey
unfolding waits_for distinct_names
waiting_on tasks t = waits_for tasks t (distinct_names [] t.parser.depends_on)
