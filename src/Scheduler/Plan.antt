-- ===== src/Scheduler/Plan.antt =====
-- Which parsers run on a machine, where their tables go, and how many workers there are:
-- `_applicable`, `_out_dir` and `_plan_pools` of src/artifact_engine/core/scheduler.py.
pub mod Bounds
use artifact_engine.Prelude.{
  ℕ, ◌+◌, min, max, String, Bool, true, false, not, ◌&&◌, ◌||◌, List, [], ◌∷◌, ltb, ◌==◌, keep,
  if◌then◌else◌,
}
use artifact_engine.Prelude.Texts.{str_eq, has}
use artifact_engine.Scheduler.Manifest.{Parser, Machine}

-- `MEMORY_POINTER`, the file that stands for a memory image
abbrev pub memory_pointer : String
memory_pointer = "memory.image"

-- `p.os in (machine.os, "any")`
abbrev pub fits_os : Machine → Parser → Bool
fits_os m p = has p.os (m.os ∷ "any" ∷ [])

unfoldable pub applicable : Machine → List Parser → List Parser
applicable m parsers =
    if str_eq m.collector "memory"
    then keep (λ p. has memory_pointer p.requires && fits_os m p) parsers
    else keep
        (λ p. fits_os m p && ((p.on_vss || not m.is_vss) && not (has memory_pointer p.requires)))
        parsers

-- `_CATEGORY_DIR`
abbrev pub category_dir : List (String × String)
category_dir =
    ("filesystem", "Filesystem")
    ∷ ("execution", "Execution")
    ∷ ("eventlogs", "EventLogs")
    ∷ ("registry", "Registry")
    ∷ ("shellbags", "FilesystemAccess")
    ∷ ("systeminfo", "SystemInfo")
    ∷ ("shell", "Shell")
    ∷ ("browser", "Browser")
    ∷ ("persistence", "Persistence")
    ∷ ("search", "Search")
    ∷ ("network", "Network")
    ∷ ("processes", "Processes")
    ∷ ("detections", "Detections")
    ∷ ("web", "Web")
    ∷ ("containers", "Containers")
    ∷ ("memory", "Memory")
    ∷ []

-- `_CATEGORY_DIR.get(category, category or "Other")`
unfoldable pub dir_in : List (String × String) → String → String
dir_in [] category = if str_eq category "" then "Other" else category
dir_in ((key, dir) ∷ dirs) category = if str_eq key category then dir else dir_in dirs category

-- A folder below the machine's, as its parts.
unfoldable pub out_dir : String → List String
unfolding dir_in
out_dir category =
    if str_eq category "liveresponse"
    then "JSONs" ∷ []
    else "CSVs" ∷ dir_in category_dir category ∷ []

pub record Pools : Type 0 where
  pub use_proc : Bool
  pub proc_workers : ℕ
  pub thread_workers : ℕ

unfoldable pub plan_pools : (py cmd max_workers : ℕ) → Bool → Pools
plan_pools py cmd max_workers parse_processes =
    let use_proc = parse_processes && ltb max_workers py in
    let thread_load = cmd + (if use_proc then 0 else py) in
    record {
      use_proc = use_proc;
      proc_workers = if use_proc then min max_workers py else 0;
      thread_workers = if thread_load == 0 then 0 else max 1 (min max_workers thread_load);
    }
