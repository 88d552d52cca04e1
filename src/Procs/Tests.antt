-- ===== src/Procs/Tests.antt =====
-- A tree of processes for src/artifact_engine/core/procs.py: 1 started 2 and 3, and 2 started 4; 5 names
-- 1 as its parent but is older.
use artifact_engine.Prelude.{
  ℕ, ◌+◌, ◌==◌, if◌then◌else◌, ◌≡◌, refl, Option, some, List, [], ◌∷◌, All,
}
use artifact_engine.Procs.{ProcessChildren, add_children, tree}
use artifact_engine.Procs.Descendants.{IsStarted, tree-IsStarted}

abbrev children : ProcessChildren
children = (1, 2 ∷ 3 ∷ 5 ∷ []) ∷ (2, 4 ∷ []) ∷ []

abbrev created_at : ℕ → Option ℕ
created_at p = some (if p == 5 then 9 else p + 9)

found_all : tree children created_at 1 ≡ some (2 ∷ 3 ∷ 4 ∷ [])
unfolding tree add_children
found_all = refl

tree-IsStarted_example :
    (found : List ℕ) × (tree children created_at 1 ≡ some found)
    × All (IsStarted children created_at 1) found
tree-IsStarted_example = tree-IsStarted children created_at 1
