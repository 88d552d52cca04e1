-- ===== src/Outputs/Settle.antt =====
-- `_current`, `_bootstrap`, `note` and `settle` of src/artifact_engine/core/outputs.py.
pub mod Removal
pub mod Outcome
use artifact_engine.Prelude.{
  ℕ, Bool, true, false, not, ◌&&◌, ◌||◌, Option, none, some, List, [], ◌∷◌, ◌++◌, ltb, ◌==◌,
  if◌then◌else◌,
}
use artifact_engine.Prelude.Chars.{Chars, chars_lt}
use artifact_engine.Prelude.Sorting.{sorted}
use artifact_engine.Outputs.{System, Entry, Files, Folder, fresh_names, is_in, stat, attempt}
use artifact_engine.Outputs.Record.{
  Stamp, at, minus_one, Dict, assign, update, item_lt, is_safe, Reading, no_record, raised, entries,
  read, write,
}

-- What a candidate is judged by: its recorded stamp, or none when there is no record.
abbrev pub Candidate : Type 0
Candidate = Chars × Option Stamp

abbrev pub recorded : Dict Stamp → List Candidate
recorded [] = []
recorded ((n, s) ∷ d) = (n, some s) ∷ recorded d

-- `dict.fromkeys(declared)`
abbrev pub fromkeys : List Chars → Dict (Option Stamp) → Dict (Option Stamp)
fromkeys [] d = d
fromkeys (n ∷ names) d = fromkeys names (assign n none d)

-- Whether a file that is there now is still the previous run's.
abbrev pub is_previous : ℕ → Option Stamp → ℕ → Bool
is_previous started none now = not (started == 0) && ltb now started
is_previous started (some (at s)) now = now == s
is_previous started (some minus_one) now = false

-- The files, the names removed, and the stale ones that could not be.
pub record Removing : Type 0 where
  pub files : Files
  pub removed : List Chars
  pub kept : Dict Stamp

module _ (sys : System) where
  module _ (fresh : List Chars) (started : ℕ) where
    abbrev pub is_spared : Chars → Bool
    is_spared name = not (is_safe name) || is_in (sys.casefold name) fresh

    abbrev pub removal_of : Chars → ℕ → Option ℕ → Removing → Removing
    removal_of name now none r = record r {
      files = attempt sys name none r.files;
      removed = r.removed ++ name ∷ [];
    }
    removal_of name now (some s) r = record r {
      files = attempt sys name (some s) r.files;
      kept = assign name (at now) r.kept;
    }

    abbrev pub judge : Chars → Option Stamp → Option Entry → Removing → Removing
    judge name stamp none r = r
    judge name stamp (some e) r =
        if is_previous started stamp e.stamp then removal_of name e.stamp e.leaves r else r

    -- One round of the loop of `settle`.
    unfoldable pub settle_one : Candidate → Removing → Removing
    unfolding stat assign is_safe
    settle_one (name, stamp) r =
        if is_spared name then r else judge name stamp (stat sys name r.files) r

    unfoldable pub settle_all : List Candidate → Removing → Removing
    unfolding settle_one
    settle_all [] r = r
    settle_all (c ∷ cs) r = settle_all cs (settle_one c r)

  abbrev pub with_entry : Chars → Option Entry → Dict Stamp → Dict Stamp
  with_entry name none rest = rest
  with_entry name (some e) rest = (name, at e.stamp) ∷ rest

  -- The items of `_current`, which its dict is updated with.
  unfoldable pub current : Files → List Chars → Dict Stamp
  unfolding stat
  current files [] = []
  current files (n ∷ names) = with_entry n (stat sys n files) (current files names)

  abbrev pub from_before : ℕ → Chars → Option Entry → Dict Stamp → Dict Stamp
  from_before started name none out = out
  from_before started name (some e) out =
      if not (started == 0) && ltb e.stamp started then assign name (at e.stamp) out else out

  -- `_bootstrap`
  unfoldable pub bootstrap : Files → ℕ → List Chars → Dict Stamp → Dict Stamp
  unfolding stat assign is_safe
  bootstrap files started [] out = out
  bootstrap files started (n ∷ declared) out =
      bootstrap files started declared
        (from_before started n (if is_safe n then stat sys n files else none) out)

  abbrev pub note_with : Reading → (names declared : List Chars) → ℕ → Folder → Option Folder
  note_with raised names declared started f = none
  note_with no_record names declared started f =
      some (write sys (update (bootstrap f.files started declared []) (current f.files names)) f)
  note_with (entries previous) names declared started f =
      some (write sys (update previous (current f.files names)) f)

  -- `note`; nothing is the ValueError of `_read`.
  unfoldable pub note : (names declared : List Chars) → ℕ → Folder → Option Folder
  unfolding read write bootstrap current update
  note [] declared started f = some f
  note (n ∷ names) declared started f = note_with (read sys f.stored) (n ∷ names) declared started f

  -- The candidates; nothing is the ValueError of `_read`.
  abbrev pub candidates_of : Reading → List Chars → Option (List Candidate)
  candidates_of raised declared = none
  candidates_of no_record declared = some (fromkeys declared [])
  candidates_of (entries previous) declared = some (recorded previous)

  unfoldable pub settle_with : List Candidate → List Chars → ℕ → Folder → List Chars × Folder
  unfolding settle_all sorted chars_lt write current update
  settle_with candidates names started f =
      let r =
        settle_all (fresh_names sys names) started (sorted item_lt candidates)
          (record { files = f.files; removed = []; kept = [] }) in
      (r.removed, write sys (update r.kept (current r.files names)) (record f { files = r.files }))

  abbrev pub settle_if :
      Option (List Candidate) → List Chars → ℕ → Folder → Option (List Chars × Folder)
  settle_if none names started f = none
  settle_if (some candidates) names started f = some (settle_with candidates names started f)

  -- `settle`: the names removed, and the folder.
  unfoldable pub settle : (names declared : List Chars) → ℕ → Folder → Option (List Chars × Folder)
  unfolding read settle_with
  settle names declared started f =
      settle_if (candidates_of (read sys f.stored) declared) names started f
