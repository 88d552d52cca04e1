-- ===== src/Consolidation/Tests.antt =====
-- A host with a shadow copy, for `plan_units` of src/artifact_engine/core/consolidate.py.
use artifact_engine.Prelude.{
  ℕ, zero, suc, ◌≡◌, refl, sym, ap, ◌∙◌, Bool, true, false, none, some, List, [], ◌∷◌, all, ◌==◌,
  length,
}
use artifact_engine.Prelude.Chars.{Chars, codes}
use artifact_engine.Prelude.Sums.{count_of}
use artifact_engine.Consolidation.{
  Machine, Builtins, Result, Planned, machines_of, runs_of, plan_units,
}
use artifact_engine.Consolidation.Labels.{OneNumber}
use artifact_engine.Consolidation.Once.{members_in, runs_in, plan_units_once}
use artifact_engine.Consolidation.Merged.{are_one_host, plan_units_merges}

abbrev strokes : ℕ → Chars
strokes zero = []
strokes (suc n) = b'1' ∷ strokes n

-- The host is called as the collection, a path's parent is the collection.
abbrev builtins : Builtins
builtins = record {
  without_suffix = λ name. codes "HOST";
  last_number = λ name. some 1;
  lower = λ s. s;
  parent = λ path. codes "coll";
  resolve_path = λ path. none;
  str = strokes;
}

length-strokes : (n : ℕ) → length (strokes n) ≡ n
length-strokes zero = refl
length-strokes (suc n) = ap suc (length-strokes n)

one_number : OneNumber builtins
one_number m n e = sym (length-strokes m) ∙ ap length e ∙ length-strokes n

abbrev disk : Machine
disk = record {
  name = codes "HOST";
  path = codes "coll/C";
  collector = codes "kape";
  is_vss = false;
  volumes = codes "C" ∷ [];
}

abbrev snapshot : Machine
snapshot = record {
  name = codes "HOST_VSS1";
  path = codes "coll/VSS1";
  collector = codes "kape";
  is_vss = true;
  volumes = codes "C" ∷ [];
}

abbrev results : List (Result builtins ℕ)
results = (snapshot, 1 ∷ []) ∷ (disk, 2 ∷ 3 ∷ []) ∷ []

abbrev is_snapshot_machine : Machine → Bool
is_snapshot_machine m = m.is_vss

plan_units_once_example :
    (units : List (Planned builtins ℕ)) × (plan_units builtins ℕ true results ≡ some units)
    × (count_of is_snapshot_machine (members_in builtins ℕ units)
        ≡ count_of is_snapshot_machine (machines_of builtins ℕ results))
    × (count_of (λ r. r == 3) (runs_in builtins ℕ units)
        ≡ count_of (λ r. r == 3) (runs_of builtins ℕ results))
plan_units_once_example =
    plan_units_once builtins ℕ true results is_snapshot_machine (λ r. r == 3) one_number

plan_units_merges_example :
    (units : List (Planned builtins ℕ)) × (plan_units builtins ℕ true results ≡ some units)
    × (all (λ u. are_one_host builtins u.0.members) units ≡ true)
plan_units_merges_example = plan_units_merges builtins ℕ true results one_number
