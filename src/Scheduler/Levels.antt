-- ===== src/Scheduler/Levels.antt =====
-- `_levels` of src/artifact_engine/core/scheduler.py. The recursion of `lvl` takes fuel, of which one
-- step more than there are parsers is enough.
pub mod Ends
pub mod Chain
mod Settled
pub mod Longest
use artifact_engine.Prelude.{
  ℕ, zero, suc, max, String, Bool, true, false, Option, none, some, List, [], ◌∷◌, map, length,
  if◌then◌else◌,
}
use artifact_engine.Prelude.Texts.{str_eq}
use artifact_engine.Scheduler.Manifest.{Parser, by_id}

-- `memo`, and the result, its last assignment first.
abbrev pub Memo : Type 0
Memo = List (String × ℕ)

-- `memo[id]`, if `id in memo`.
unfoldable pub level_at : String → Memo → Option ℕ
level_at x [] = none
level_at x ((y, n) ∷ memo) = if str_eq x y then some n else level_at x memo

abbrev pub then_level : Option (ℕ × Memo) → (ℕ → Memo → Option (ℕ × Memo)) → Option (ℕ × Memo)
then_level none f = none
then_level (some (n, memo)) f = f n memo

abbrev pub set_level : String → ℕ → Memo → Option (ℕ × Memo)
set_level x n memo = some (n, (x, n) ∷ memo)

abbrev pub then_all : Option (ℕ × Memo) → (ℕ → Memo → Option Memo) → Option Memo
then_all none f = none
then_all (some (n, memo)) f = f n memo

module _ (parsers : List Parser) where
  -- `[by_id[d] for d in p.depends_on if d in by_id]`
  unfoldable pub known_deps : List String → List Parser
  unfolding by_id
  known_deps [] = []
  known_deps (d ∷ deps) = elim (by_id parsers d) [
    | none ↦ known_deps deps
    | some q ↦ q ∷ known_deps deps
  ]

  -- `max(lvl(d) for d in deps)`, with the greatest so far.
  unfoldable pub max_level :
      (Parser → Memo → Option (ℕ × Memo)) → List Parser → ℕ → Memo → Option (ℕ × Memo)
  max_level lvl [] best memo = some (best, memo)
  max_level lvl (q ∷ deps) best memo =
      then_level (lvl q memo) (λ n left. max_level lvl deps (max best n) left)

  -- The level of a parser, given its dependencies.
  unfoldable pub level_over :
      (Parser → Memo → Option (ℕ × Memo)) → String → List Parser → Memo → Option (ℕ × Memo)
  unfolding max_level
  level_over lvl x [] memo = set_level x 0 memo
  level_over lvl x (q ∷ deps) memo =
      then_level (max_level lvl (q ∷ deps) 0 memo) (λ best left. set_level x (suc best) left)

  -- `lvl`
  unfoldable pub lvl : ℕ → Parser → Memo → Option (ℕ × Memo)
  unfolding level_at known_deps level_over
  lvl zero p memo = none
  lvl (suc f) p memo = elim (level_at p.id memo) [
    | some n ↦ some (n, memo)
    | none ↦ level_over (lvl f) p.id (known_deps p.depends_on) ((p.id, 0) ∷ memo)
  ]

  -- `{p.id: lvl(p) for p in parsers}`, with what it has so far.
  unfoldable pub levels_from : ℕ → List Parser → Memo → Memo → Option Memo
  unfolding lvl
  levels_from f [] out memo = some out
  levels_from f (p ∷ ps) out memo =
      then_all (lvl f p memo) (λ n left. levels_from f ps ((p.id, n) ∷ out) left)

  -- `_levels`
  unfoldable pub levels : Option Memo
  unfolding levels_from
  levels = levels_from (suc (length parsers)) parsers [] []
