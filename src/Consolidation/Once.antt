-- ===== src/Consolidation/Once.antt =====
-- The machines and the runs in the units of `plan_units` (src/artifact_engine/core/consolidate.py).
use artifact_engine.Prelude.{
  ◌≡◌, refl, sym, ap, ◌∙◌, Bool, some, List, [], ◌∷◌, ◌++◌, arith, if◌then◌else◌,
}
use artifact_engine.Prelude.Sums.{total, count_of, total-append}
use artifact_engine.Consolidation.{
  Machine, Builtins, Result, Planned, machines_of, runs_of, plan_units,
}
use artifact_engine.Consolidation.Labels.{OneNumber}
use artifact_engine.Consolidation.Grouping.{plan_units-total}

module _ (b : Builtins) (R : Type 0) where
  abbrev pub members_in : List (Planned b R) → List Machine
  members_in [] = []
  members_in (u ∷ units) = u.0.members ++ members_in units

  abbrev pub runs_in : List (Planned b R) → List R
  runs_in [] = []
  runs_in (u ∷ units) = u.1 ++ runs_in units

  module _ (of_machine : Machine → Bool) where
    count-machines_of :
        (xs : List (Result b R))
        → count_of of_machine (machines_of b R xs) ≡ total (λ x. if of_machine x.0 then 1 else 0) xs
    count-machines_of [] = refl
    count-machines_of (x ∷ xs) = rw (count-machines_of xs) refl

    count-members_in :
        (units : List (Planned b R))
        → count_of of_machine (members_in units)
          ≡ total (λ u. count_of of_machine u.0.members) units
    count-members_in [] = refl
    count-members_in (u ∷ units) =
        rw
          (
            total-append (λ m. if of_machine m then 1 else 0) u.0.members (members_in units),
            count-members_in units,
          )
          refl

  module _ (of_run : R → Bool) where
    count-runs_of :
        (xs : List (Result b R))
        → count_of of_run (runs_of b R xs) ≡ total (λ x. count_of of_run x.1) xs
    count-runs_of [] = refl
    count-runs_of (x ∷ xs) =
        rw (total-append (λ r. if of_run r then 1 else 0) x.1 (runs_of b R xs), count-runs_of xs)
          refl

    count-runs_in :
        (units : List (Planned b R))
        → count_of of_run (runs_in units) ≡ total (λ u. count_of of_run u.1) units
    count-runs_in [] = refl
    count-runs_in (u ∷ units) =
        rw (total-append (λ r. if of_run r then 1 else 0) u.1 (runs_in units), count-runs_in units)
          refl

  -- The units are planned, and whatever machines or runs are counted, there are as many in the units
  -- as in the results: none is lost or doubled. This when numbers are written apart.
  pub plan_units_once :
      (merge_vss : Bool) (results : List (Result b R)) (of_machine : Machine → Bool)
      (of_run : R → Bool)
      → OneNumber b
      → (units : List (Planned b R)) × (plan_units b R merge_vss results ≡ some units)
        × (count_of of_machine (members_in units) ≡ count_of of_machine (machines_of b R results))
        × (count_of of_run (runs_in units) ≡ count_of of_run (runs_of b R results))
  plan_units_once merge_vss results of_machine of_run one =
      let (units, planned, machines) =
        plan_units-total b one R (λ x. if of_machine x.0 then 1 else 0)
          (λ u. count_of of_machine u.0.members) (λ x. omega arith)
          (λ name path labels xs. count-machines_of of_machine xs) merge_vss results in
      let (others, again, runs) =
        plan_units-total b one R (λ x. count_of of_run x.1) (λ u. count_of of_run u.1) (λ x. refl)
          (λ name path labels xs. count-runs_of of_run xs) merge_vss results in
      let same : units ≡ others = cc (planned, again) in
      (
        units,
        planned,
        count-members_in of_machine units ∙ machines ∙ sym (count-machines_of of_machine results),
        count-runs_in of_run units
            ∙ ap (total (λ u. count_of of_run u.1)) same
            ∙ runs
            ∙ sym (count-runs_of of_run results),
      )
