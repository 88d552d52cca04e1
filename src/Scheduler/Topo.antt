-- ===== src/Scheduler/Topo.antt =====
-- `_topo_order` of src/artifact_engine/core/scheduler.py. The recursion of `visit` takes fuel, of
-- which one step more than there are parsers is enough.
pub mod Total
mod Steps
pub mod Once
pub mod Order
use artifact_engine.Prelude.{
  ℕ, zero, suc, ◌+◌, String, Bool, true, false, Option, none, some, List, [], ◌∷◌, ◌++◌, length,
}
use artifact_engine.Prelude.Texts.{has}
use artifact_engine.Scheduler.Manifest.{Parser, by_id}

-- `seen` and `ordered`
pub record Visit : Type 0 where
  pub seen : List String
  pub ordered : List Parser

infixl 5 ◌>>=◌
abbrev pub ◌>>=◌ : Option Visit → (Visit → Option Visit) → Option Visit
none >>= f = none
some v >>= f = f v

abbrev pub see : String → Visit → Visit
see x v = record v { seen = x ∷ v.seen }

abbrev pub place : Parser → Visit → Option Visit
place p v = some (record v { ordered = v.ordered ++ p ∷ [] })

module _ (parsers : List Parser) where
  -- `for dep in p.depends_on`, given `visit`
  unfoldable pub visit_deps : (Parser → Visit → Option Visit) → List String → Visit → Option Visit
  unfolding by_id
  visit_deps visit [] v = some v
  visit_deps visit (d ∷ deps) v = elim (by_id parsers d) [
    | none ↦ visit_deps visit deps v
    | some q ↦ visit q v >>= λ w. visit_deps visit deps w
  ]

  unfoldable pub visit : ℕ → Parser → Visit → Option Visit
  unfolding visit_deps
  visit zero p v = none
  visit (suc f) p v = elim (has p.id v.seen) [
    | true ↦ some v
    | false ↦ visit_deps (visit f) p.depends_on (see p.id v) >>= place p
  ]

  unfoldable pub visit_all : ℕ → List Parser → Visit → Option Visit
  unfolding visit
  visit_all f [] v = some v
  visit_all f (p ∷ ps) v = visit f p v >>= λ w. visit_all f ps w

  abbrev pub ordered_of : Option Visit → Option (List Parser)
  ordered_of none = none
  ordered_of (some v) = some v.ordered

  unfoldable pub topo_order : Option (List Parser)
  unfolding visit_all
  topo_order =
      ordered_of (visit_all (suc (length parsers)) parsers (record { seen = []; ordered = [] }))
