-- ===== src/Consolidation/Grouping.antt =====
-- Every acquisition that `plan_units` (src/artifact_engine/core/consolidate.py) is given is in one of
-- its units, once.
use artifact_engine.Prelude.{
  ℕ, ◌+◌, ◌≡◌, refl, inl, inr, Bool, not, ◌||◌, some, List, [], ◌∷◌, ◌++◌, map, any, keep,
  Bool-cases, arith,
}
use artifact_engine.Prelude.Chars.{Chars}
use artifact_engine.Prelude.Sorting.{sorted}
use artifact_engine.Prelude.Sums.{total, total-append, total-keep, total-sorted}
use artifact_engine.Consolidation.{
  Builtins, Key, same_key, Result, Planned, Groups, solo, append_to, is_memory, group_all, unit_key,
  vss_lt, is_snapshot, is_live, machines_of, runs_of, units_from, units_of, units_of_groups,
  plan_units,
}
use artifact_engine.Consolidation.Labels.{OneNumber, labels_for-some}

-- A weight of results, and of units, that the units of the code carry over.
module _ (b : Builtins) (one : OneNumber b) (R : Type 0) (w : Result b R → ℕ) (v : Planned b R → ℕ)
    (v-solo : (x : Result b R) → v (solo b R x) ≡ w x)
    (v-merged : (name path : Chars) (labels : List Chars) (xs : List (Result b R))
      → v (
        record {
          unit_name = name;
          unit_path = path;
          members = machines_of b R xs;
          labels = labels;
        },
        runs_of b R xs,
      )
        ≡ total w xs) where
  total-solo : (xs : List (Result b R)) → total v (map (solo b R) xs) ≡ total w xs
  total-solo [] = refl
  total-solo (x ∷ xs) = rw (v-solo x, total-solo xs) refl

  -- The weight of the groups.
  abbrev held : Groups b R → ℕ
  held = total (λ g. total w g.1)

  held-append_to :
      (k : Key b) (x : Result b R) (groups : Groups b R)
      → held (append_to b R k x groups) ≡ w x + held groups
  unfolding append_to
  held-append_to k x [] = omega arith
  held-append_to k x ((l, xs) ∷ groups) = elim (Bool-cases (same_key b k l)) [
    | inl same ↦ rw same (omega (arith, total-append w xs (x ∷ [])))
    | inr other ↦ rw other (omega (arith, held-append_to k x groups))
  ]

  held-group_all :
      (results : List (Result b R)) (groups : Groups b R)
      → held (group_all b R results groups)
        ≡ total w (keep (λ x. not (is_memory b R x)) results) + held groups
  unfolding group_all
  held-group_all [] groups = omega arith
  held-group_all (x ∷ results) groups = elim (Bool-cases (is_memory b R x)) [
    | inl memory ↦ rw memory (held-group_all results groups)
    | inr other ↦ rw other (
        omega (
          arith,
          held-group_all results (append_to b R (unit_key b x.0) x groups),
          held-append_to (unit_key b x.0) x groups,
        ))
  ]

  units_from-total :
      (members live vss : List (Result b R))
      → total w live + total w vss ≡ total w members
      → (units : List (Planned b R)) × (units_from b R members live vss ≡ some units)
        × (total v units ≡ total w members)
  units_from-total members [] vss h = (map (solo b R) members, refl, total-solo members)
  units_from-total members (x ∷ live) [] h = (map (solo b R) members, refl, total-solo members)
  units_from-total members (x ∷ live) (y ∷ vss) h =
      let (labels, found, new) = labels_for-some b one (machines_of b R (x ∷ y ∷ vss)) in
      (
        (
          record {
            unit_name = x.0.name;
            unit_path = b.parent x.0.path;
            members = machines_of b R (x ∷ y ∷ vss);
            labels = labels;
          },
          runs_of b R (x ∷ y ∷ vss),
        )
            ∷ map (solo b R) live,
        rw found refl,
        omega
            (arith, h, total-solo live, v-merged x.0.name (b.parent x.0.path) labels (x ∷ y ∷ vss)),
      )

  units_of-total :
      (members : List (Result b R))
      → (units : List (Planned b R)) × (units_of b R members ≡ some units)
        × (total v units ≡ total w members)
  units_of-total members =
      units_from-total members (keep (is_live b R) members)
        (sorted (vss_lt b R) (keep (is_snapshot b R) members))
        (omega (
          arith,
          total-keep w (is_snapshot b R) members,
          total-sorted (vss_lt b R) w (keep (is_snapshot b R) members),
        ))

  units_of_groups-total :
      (groups : Groups b R)
      → (units : List (Planned b R)) × (units_of_groups b R groups ≡ some units)
        × (total v units ≡ held groups)
  unfolding units_of_groups
  units_of_groups-total [] = ([], refl, refl)
  units_of_groups-total ((k, members) ∷ groups) =
      let (here, found, same) = units_of-total members in
      let (rest, others, equal) = units_of_groups-total groups in
      (here ++ rest, rw (found, others) refl, omega (arith, total-append v here rest, same, equal))

  pub plan_units-total :
      (merge_vss : Bool) (results : List (Result b R))
      → (units : List (Planned b R)) × (plan_units b R merge_vss results ≡ some units)
        × (total v units ≡ total w results)
  unfolding plan_units
  plan_units-total merge_vss results =
      elim (Bool-cases (not merge_vss || not (any (is_snapshot b R) results))) [
        | inl apart ↦ (map (solo b R) results, rw apart refl, total-solo results)
        | inr merged ↦
            let (units, found, same) = units_of_groups-total (group_all b R results []) in
            (
              map (solo b R) (keep (is_memory b R) results) ++ units,
              rw (merged, found) refl,
              omega (
                arith,
                total-append v (map (solo b R) (keep (is_memory b R) results)) units,
                total-solo (keep (is_memory b R) results),
                same,
                held-group_all results [],
                total-keep w (is_memory b R) results,
              ),
            )
      ]
