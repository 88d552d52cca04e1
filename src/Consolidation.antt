-- ===== src/Consolidation.antt =====
-- `plan_units` of src/artifact_engine/core/consolidate.py: which acquisitions are consolidated into
-- one output. The runs of a machine are of any type.
pub mod Labels
pub mod Grouping
pub mod Once
pub mod Merged
mod Tests
use artifact_engine.Prelude.{
  ℕ, zero, suc, ◌+◌, Bool, true, false, not, ◌&&◌, ◌||◌, Option, none, some, List, [], ◌∷◌, ◌++◌,
  map, any, keep, length, ltb, if◌then◌else◌,
}
use artifact_engine.Prelude.Chars.{Chars, chars_eq, codes}
use artifact_engine.Prelude.Sorting.{sorted}
use artifact_engine.Prelude.Options.{◌>>=◌}

-- What the module reads of a machine (core/detector.py).
pub record Machine : Type 0 where
  pub name : Chars
  pub path : Chars
  pub collector : Chars
  pub is_vss : Bool
  pub volumes : List Chars

-- `_VSS_SUFFIX.sub("", name)`, the number at the end of a name, `str.lower`, `Path.parent`,
-- `Path.resolve_path` (nothing: OSError), and `str` of a number.
pub record Builtins : Type 0 where
  pub without_suffix : Chars → Chars
  pub last_number : Chars → Option ℕ
  pub lower : Chars → Chars
  pub parent : Chars → Chars
  pub resolve_path : Chars → Option Chars
  pub str : ℕ → Chars

-- `Unit`
pub record OutputUnit : Type 0 where
  pub unit_name : Chars
  pub unit_path : Chars
  pub members : List Machine
  pub labels : List Chars

-- `Unit.merged`
abbrev pub is_merged : OutputUnit → Bool
is_merged u = ltb 1 (length u.members)

abbrev pub first_volume : Chars → List Chars → Chars
first_volume name [] = name
first_volume name (v ∷ volumes) = v

-- `_vol_label`
abbrev pub vol_label : Machine → Chars
vol_label m = first_volume m.name m.volumes

abbrev pub is_seen : Chars → List Chars → Bool
is_seen x [] = false
is_seen x (y ∷ ys) = chars_eq x y || is_seen x ys

module _ (b : Builtins) where
  -- `_host_of`
  abbrev pub host_of : Machine → Chars
  host_of m = if m.is_vss then b.without_suffix m.name else m.name

  abbrev pub or_zero : Option ℕ → ℕ
  or_zero none = 0
  or_zero (some n) = n

  -- `_vss_ordinal`
  abbrev pub vss_ordinal : Machine → ℕ
  vss_ordinal m = or_zero (b.last_number m.name)

  -- The label tried at a round, from `base#1` on.
  abbrev pub numbered : Chars → ℕ → Chars
  numbered base i = base ++ b'#' ∷ b.str i

  -- `while label in seen`, with `base#i` next.
  unfoldable pub free_label : ℕ → Chars → ℕ → Chars → List Chars → Option Chars
  free_label zero base i label seen = none
  free_label (suc fuel) base i label seen =
      let rest = free_label fuel base (suc i) (numbered base i) seen in
      if is_seen label seen then rest else some label

  -- One round is enough for each label that is seen, and one more.
  unfoldable pub labels_from : List Machine → List Chars → Option (List Chars)
  unfolding free_label
  labels_from [] seen = some []
  labels_from (m ∷ machines) seen = do
    label ← free_label (suc (length seen)) (vol_label m) 1 (vol_label m) seen
    rest ← labels_from machines (label ∷ seen)
    some (label ∷ rest)

  -- `_labels_for`
  unfoldable pub labels_for : List Machine → Option (List Chars)
  unfolding labels_from
  labels_for machines = labels_from machines []

  abbrev pub Key : Type 0
  Key = Chars × Chars

  abbrev pub same_key : Key → Key → Bool
  same_key a c = chars_eq a.0 c.0 && chars_eq a.1 c.1

  abbrev pub or_unresolved : Chars → Option Chars → Chars
  or_unresolved parent none = b.lower parent
  or_unresolved parent (some p) = b.lower p

  -- The folder that a collection is in, and the host.
  abbrev pub unit_key : Machine → Key
  unit_key m =
      (or_unresolved (b.parent m.path) (b.resolve_path (b.parent m.path)), b.lower (host_of m))

  module _ (R : Type 0) where
    abbrev pub Result : Type 0
    Result = Machine × List R

    abbrev pub Planned : Type 0
    Planned = OutputUnit × List R

    abbrev pub Groups : Type 0
    Groups = List (Key × List Result)

    -- `solo`
    abbrev pub solo : Result → Planned
    solo (m, runs) = (
      record {
        unit_name = m.name;
        unit_path = m.path;
        members = m ∷ [];
        labels = vol_label m ∷ [];
      },
      runs,
    )

    -- `groups.setdefault(key, []).append(x)`
    unfoldable pub append_to : Key → Result → Groups → Groups
    append_to k x [] = (k, x ∷ []) ∷ []
    append_to k x ((l, xs) ∷ groups) =
        let rest = append_to k x groups in
        if same_key k l then (l, xs ++ x ∷ []) ∷ groups else (l, xs) ∷ rest

    abbrev pub is_memory : Result → Bool
    is_memory x = chars_eq x.0.collector (codes "memory")

    -- The groups, of what is no memory image.
    unfoldable pub group_all : List Result → Groups → Groups
    unfolding append_to chars_eq
    group_all [] groups = groups
    group_all (x ∷ results) groups =
        group_all results (if is_memory x then groups else append_to (unit_key x.0) x groups)

    abbrev pub vss_lt : Result → Result → Bool
    vss_lt x y = ltb (vss_ordinal x.0) (vss_ordinal y.0)

    abbrev pub is_snapshot : Result → Bool
    is_snapshot x = x.0.is_vss

    abbrev pub is_live : Result → Bool
    is_live x = not x.0.is_vss

    abbrev pub machines_of : List Result → List Machine
    machines_of [] = []
    machines_of (x ∷ xs) = x.0 ∷ machines_of xs

    abbrev pub runs_of : List Result → List R
    runs_of [] = []
    runs_of (x ∷ xs) = x.1 ++ runs_of xs

    -- The unit of a live volume and its snapshots; nothing only when the labels run out of fuel.
    abbrev pub merged_unit : Result → List Result → Option Planned
    merged_unit primary vss = do
      labels ← labels_for (machines_of (primary ∷ vss))
      some (
        record {
          unit_name = primary.0.name;
          unit_path = b.parent primary.0.path;
          members = machines_of (primary ∷ vss);
          labels = labels;
        },
        runs_of (primary ∷ vss),
      )

    -- The units of a group, from its live volumes and its snapshots in their order.
    abbrev pub units_from : List Result → List Result → List Result → Option (List Planned)
    units_from members [] vss = some (map solo members)
    units_from members (x ∷ live) [] = some (map solo members)
    units_from members (x ∷ live) (y ∷ vss) = do
      unit ← merged_unit x (y ∷ vss)
      some (unit ∷ map solo live)

    abbrev pub units_of : List Result → Option (List Planned)
    units_of members =
        units_from members (keep is_live members) (sorted vss_lt (keep is_snapshot members))

    unfoldable pub units_of_groups : Groups → Option (List Planned)
    unfolding labels_for sorted
    units_of_groups [] = some []
    units_of_groups ((k, members) ∷ groups) = do
      here ← units_of members
      rest ← units_of_groups groups
      some (here ++ rest)

    abbrev pub plan_merged : List Result → Option (List Planned)
    plan_merged results = do
      merged ← units_of_groups (group_all results [])
      some (map solo (keep is_memory results) ++ merged)

    -- `plan_units`
    unfoldable pub plan_units : Bool → List Result → Option (List Planned)
    unfolding units_of_groups group_all chars_eq
    plan_units merge_vss results =
        if not merge_vss || not (any is_snapshot results)
        then some (map solo results)
        else plan_merged results
