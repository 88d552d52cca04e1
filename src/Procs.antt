-- ===== src/Procs.antt =====
-- `tree` of src/artifact_engine/core/procs.py: the processes that a process started, and theirs. When
-- a process was created is what the system says; it does not change while the tree is read.
pub mod Descendants
mod Tests
use artifact_engine.Prelude.{
  ℕ, zero, suc, ◌+◌, Bool, true, false, not, ◌&&◌, ◌||◌, Option, none, some, List, [], ◌∷◌, ◌++◌,
  length, ltb, ◌==◌, if◌then◌else◌,
}

-- Which processes name a process as their parent.
abbrev pub ProcessChildren : Type 0
ProcessChildren = List (ℕ × List ℕ)

-- `children.get(parent, ())`
abbrev pub children_of : ℕ → ProcessChildren → List ℕ
children_of p [] = []
children_of p ((q, kids) ∷ children) =
    let rest = children_of p children in if p == q then kids else rest

-- `child in found`
abbrev pub is_found : ℕ → List ℕ → Bool
is_found x [] = false
is_found x (y ∷ ys) = x == y || is_found x ys

-- The processes to look at, the last one in front, and those found.
abbrev pub TreeSearch : Type 0
TreeSearch = List (ℕ × Option ℕ) × List ℕ

abbrev pub all_children : ProcessChildren → List ℕ
all_children [] = []
all_children ((p, kids) ∷ children) = kids ++ all_children children

module _ (children : ProcessChildren) (created : ℕ → Option ℕ) where
  abbrev pub add_born : ℕ → ℕ → Option ℕ → TreeSearch → TreeSearch
  add_born born child none s = s
  add_born born child (some t) (queue, found) =
      if ltb born t && not (is_found child found)
      then ((child, some t) ∷ queue, found ++ child ∷ [])
      else (queue, found)

  -- The loop over the children of a process that was created at `born`.
  unfoldable pub add_children : ℕ → List ℕ → TreeSearch → TreeSearch
  add_children born [] s = s
  add_children born (child ∷ kids) s =
      add_children born kids (add_born born child (created child) s)

  -- `while queue`
  unfoldable pub tree_from : ℕ → TreeSearch → Option (List ℕ)
  unfolding add_children
  tree_from fuel ([], found) = some found
  tree_from zero (x ∷ queue, found) = none
  tree_from (suc fuel) ((p, none) ∷ queue, found) = tree_from fuel (queue, found)
  tree_from (suc fuel) ((p, some born) ∷ queue, found) =
      tree_from fuel (add_children born (children_of p children) (queue, found))

  -- `tree`: a round for the process itself and one for each child that is named.
  unfoldable pub tree : ℕ → Option (List ℕ)
  unfolding tree_from
  tree pid = tree_from (suc (length (all_children children))) ((pid, created pid) ∷ [], [])
