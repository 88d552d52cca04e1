-- ===== src/AssetState.antt =====
-- The record of the lists a parser last ran with: `unchanged`, `begin` and `record` of
-- src/artifact_engine/core/asset_state.py, and how the scheduler's loop
-- (src/artifact_engine/core/scheduler.py) uses them. The digest of the lists is a given text.
pub mod Runs
mod Tests
use artifact_engine.Prelude.{
  ℕ, ◌≡◌, Bool, true, false, ◌&&◌, Option, none, some, List, [], ◌∷◌, ltb, leb, all, if◌then◌else◌,
}
use artifact_engine.Prelude.Chars.{Chars, chars_eq}

-- `str.strip`: once is enough, and what has no blank at all is left as it is.
pub record Strip : Type 0 where
  pub strip : Chars → Chars
  pub strip_strip : (s : Chars) → strip (strip s) ≡ strip s
  pub strip_visible : (s : Chars) → all (λ c. ltb 32 c && ltb c 127) s ≡ true → strip s ≡ s

-- `RUNNING`
abbrev pub running : Chars
running = b'?' ∷ []

-- What a read of the record's file finds: no file, a failure (OSError, ValueError), or its text.
pub data Stored : Type 0 where
  absent : Stored
  unreadable : Stored
  held : Chars → Stored

-- The record of one parser: whether its folder exists, whether writes and deletions there succeed,
-- and its file.
pub record Folder : Type 0 where
  pub is_dir : Bool
  pub writable : Bool
  pub stored : Stored

-- `record(out_dir, parser_id, value)`
unfoldable pub put_record : Folder → Option Chars → Folder
put_record f none = if f.writable then record f { stored = absent } else f
put_record f (some value) = if f.is_dir && f.writable then record f { stored = held value } else f

module _ (b : Strip) where
  -- `unchanged(parser, out_dir, assets)`, given the digest now, and what it leaves.
  unfoldable pub unchanged_at : Chars → Folder → Stored → Bool × Folder
  unfolding chars_eq put_record
  unchanged_at now f absent = (true, put_record f (some now))
  unchanged_at now f unreadable = (false, f)
  unchanged_at now f (held text) = (chars_eq (b.strip text) now, f)

  unfoldable pub unchanged : Chars → Folder → Bool × Folder
  unfolding unchanged_at
  unchanged now f = unchanged_at now f f.stored

  -- `before` in `begin`
  abbrev pub before_of : Stored → Option Chars
  before_of absent = none
  before_of unreadable = none
  before_of (held text) = some (b.strip text)

  unfoldable pub begin : Folder → Option Chars × Folder
  unfolding put_record
  begin f = (before_of f.stored, if f.is_dir then put_record f (some running) else f)

-- When a result is in: `started_with if result.status == "ok" else before`.
unfoldable pub finish : Bool → Chars → Option Chars → Folder → Folder
unfolding put_record
finish is_ok started_with before f = put_record f (if is_ok then some started_with else before)

-- A whole run: its record from the dispatch to the result.
unfoldable pub run : Strip → Bool → Chars → Folder → Folder
unfolding begin finish
run b is_ok started_with f =
    let (before, dispatched) = begin b f in finish is_ok started_with before dispatched
