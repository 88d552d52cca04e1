-- ===== src/Detection/Drops.antt =====
-- The machines of loose event logs, named after the host of their events (`name_evtx_drops` of
-- src/artifact_engine/core/detector.py).
pub mod Frequent
pub mod Again
use artifact_engine.Prelude.{
  ℕ, zero, suc, ◌≡◌, refl, Bool, true, false, not, Option, none, some, List, [], ◌∷◌, ltb, ◌==◌,
  if◌then◌else◌,
}
use artifact_engine.Prelude.Chars.{Chars, chars_eq, codes}
use artifact_engine.ConsoleGroups.{count_up}
use artifact_engine.Outputs.Record.{strip}
use artifact_engine.Detection.{FolderPath, Machine}

-- The `Computer` cells of each table of event logs below a folder, the tables by name, up to the end
-- or to an OSError; nothing where a row has no such cell.
pub record EventTables : Type 0 where
  pub computers : FolderPath → List (List (Option Chars))

-- `_EVTX_HOST_SAMPLE`
abbrev pub evtx_host_sample : ℕ
evtx_host_sample = 200

-- `comp.split(".")[0]`
abbrev pub up_to_dot : Chars → Chars
up_to_dot [] = []
up_to_dot (c ∷ s) = let rest = up_to_dot s in if c == b'.' then [] else c ∷ rest

abbrev pub cell_text : Option Chars → Chars
cell_text none = []
cell_text (some s) = strip s

abbrev pub count_host : Chars → List (Chars × ℕ) → List (Chars × ℕ)
count_host [] names = names
count_host (c ∷ comp) names = count_up (up_to_dot (c ∷ comp)) names

-- The rows of a table, as many as the sample has.
unfoldable pub count_rows : ℕ → List (Option Chars) → List (Chars × ℕ) → List (Chars × ℕ)
unfolding count_up
count_rows zero rows names = names
count_rows (suc left) [] names = names
count_rows (suc left) (r ∷ rows) names = count_rows left rows (count_host (cell_text r) names)

unfoldable pub count_tables : List (List (Option Chars)) → List (Chars × ℕ) → List (Chars × ℕ)
unfolding count_rows
count_tables [] names = names
count_tables (rows ∷ tables) names = count_tables tables (count_rows evtx_host_sample rows names)

-- The first of the entries that no other exceeds, with its count.
abbrev pub leader : Chars → ℕ → List (Chars × ℕ) → Chars × ℕ
leader host n [] = (host, n)
leader host n ((other, k) ∷ names) =
    leader (if ltb n k then other else host) (if ltb n k then k else n) names

-- `names.most_common(1)[0][0]`, if there are names.
abbrev pub most_common : List (Chars × ℕ) → Option Chars
most_common [] = none
most_common ((host, n) ∷ names) = some (leader host n names).0

module _ (events : EventTables) where
  unfoldable pub host_of_events : FolderPath → Option Chars
  unfolding count_tables
  host_of_events path = most_common (count_tables (events.computers path) [])

  abbrev pub with_host : Option Chars → Machine → Machine
  with_host none m = m
  with_host (some host) m = record m { name = host }

  unfoldable pub named_machine : Machine → Machine
  unfolding chars_eq host_of_events
  named_machine m =
      if chars_eq m.collector (codes "evtx") then with_host (host_of_events m.path) m else m

  -- `name_evtx_drops`: the machines, and those that it renamed.
  unfoldable pub name_evtx_drops : List Machine → List Machine × List Machine
  unfolding named_machine chars_eq
  name_evtx_drops [] = ([], [])
  name_evtx_drops (m ∷ machines) =
      let (rest, renamed) = name_evtx_drops machines in
      (
        named_machine m ∷ rest,
        if chars_eq m.name (named_machine m).name then renamed else named_machine m ∷ renamed,
      )
