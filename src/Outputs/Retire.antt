-- ===== src/Outputs/Retire.antt =====
-- `retire` of src/artifact_engine/core/outputs.py.
pub mod Named
pub mod Removal
use artifact_engine.Prelude.{
  ℕ, Bool, true, false, not, ◌&&◌, ◌||◌, Option, none, some, List, [], ◌∷◌, ◌++◌, ◌==◌,
  if◌then◌else◌,
}
use artifact_engine.Prelude.Chars.{Chars, chars_lt}
use artifact_engine.Prelude.Sorting.{sorted}
use artifact_engine.Outputs.{System, Entry, Files, Folder, fresh_names, is_in, stat, attempt}
use artifact_engine.Outputs.Record.{
  Stamp, at, minus_one, Dict, lookup, is_safe, Reading, no_record, raised, entries, read,
}

-- `{*previous, *declared}`: each name once.
abbrev pub with_name : Chars → List Chars → List Chars
with_name n names = if is_in n names then names else n ∷ names

abbrev pub names_of : Dict Stamp → List Chars → List Chars
names_of [] declared = declared
names_of ((n, s) ∷ d) declared = with_name n (names_of d declared)

abbrev pub once : List Chars → List Chars
once [] = []
once (n ∷ names) = with_name n (once names)

-- `previous.get(name) == now`
abbrev pub is_recorded_at : Option Stamp → ℕ → Bool
is_recorded_at none now = false
is_recorded_at (some (at s)) now = s == now
is_recorded_at (some minus_one) now = false

-- The files, and the names that could not be removed.
pub record Retiring : Type 0 where
  pub files : Files
  pub left : List Chars

module _ (sys : System) where
  module _ (previous : Dict Stamp) (owned skip : List Chars) where
    abbrev pub may_go : Chars → ℕ → Bool
    may_go name now = is_in (sys.casefold name) owned || is_recorded_at (lookup name previous) now

    abbrev pub retire_entry : Chars → Option ℕ → Retiring → Retiring
    retire_entry name none r = record r { files = attempt sys name none r.files }
    retire_entry name (some s) r = record r {
      files = attempt sys name (some s) r.files;
      left = r.left ++ name ∷ [];
    }

    abbrev pub retire_found : Chars → Option Entry → Retiring → Retiring
    retire_found name none r = r
    retire_found name (some e) r = if may_go name e.stamp then retire_entry name e.leaves r else r

    -- One round of the loop of `retire`.
    unfoldable pub retire_one : Chars → Retiring → Retiring
    unfolding stat lookup is_safe
    retire_one name r =
        if not (is_safe name) || is_in (sys.casefold name) skip
        then r
        else retire_found name (stat sys name r.files) r

    unfoldable pub retire_all : List Chars → Retiring → Retiring
    unfolding retire_one
    retire_all [] r = r
    retire_all (n ∷ names) r = retire_all names (retire_one n r)

  -- The record and the marker go once nothing is left.
  abbrev pub drop_traces : List Chars → Folder → Folder
  drop_traces [] f = record f {
    stored = if f.record_deletable then none else f.stored;
    marker = f.marker && not f.marker_deletable;
  }
  drop_traces (n ∷ left) f = f

  -- `_read(...) or {}`; nothing is the ValueError.
  abbrev pub previous_of : Reading → Option (Dict Stamp)
  previous_of no_record = some []
  previous_of raised = none
  previous_of (entries d) = some d

  unfoldable pub retire_with :
      (declared fresh : List Chars) → Folder → Dict Stamp → List Chars × Folder
  unfolding retire_all sorted chars_lt
  retire_with declared fresh f previous =
      let r =
        retire_all previous (fresh_names sys declared) (fresh_names sys fresh)
          (sorted chars_lt (names_of previous (once declared)))
          (record { files = f.files; left = [] }) in
      (r.left, drop_traces r.left (record f { files = r.files }))

  abbrev pub retire_if :
      (declared fresh : List Chars) → Folder → Option (Dict Stamp) → Option (List Chars × Folder)
  retire_if declared fresh f none = none
  retire_if declared fresh f (some previous) = some (retire_with declared fresh f previous)

  -- `retire`: the names it could not remove, and the folder.
  unfoldable pub retire : (declared fresh : List Chars) → Folder → Option (List Chars × Folder)
  unfolding read retire_with
  retire declared fresh f = retire_if declared fresh f (previous_of (read sys f.stored))
