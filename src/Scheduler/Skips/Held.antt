-- ===== src/Scheduler/Skips/Held.antt =====
-- What a task's marker says (`is_cached` of src/artifact_engine/core/runner.py), and what
-- src/artifact_engine/core/asset_state.py says of the lists it reads. A parser's fingerprint is a given
-- text, and so is the digest of the lists.
use artifact_engine.Prelude.{Bool, false, if◌then◌else◌}
use artifact_engine.Prelude.Chars.{Chars, chars_eq}
use artifact_engine.AssetState.{Strip, Stored, absent, unreadable, held, Folder, unchanged}
use artifact_engine.Scheduler.Waiting.{Task}
use artifact_engine.Scheduler.Skips.{Answers}

module _ (b : Strip) where
  -- The marker's text, read and stripped, against the fingerprint; an OSError or a ValueError is no.
  unfoldable pub is_marker_of : Chars → Stored → Bool
  unfolding chars_eq
  is_marker_of fingerprint absent = false
  is_marker_of fingerprint unreadable = false
  is_marker_of fingerprint (held text) = chars_eq (b.strip text) fingerprint

  -- `is_cached(parser, out_dir, force)`, by the parser's fingerprint and what its marker holds.
  unfoldable pub is_cached_by : Bool → Chars → Stored → Bool
  unfolding is_marker_of
  is_cached_by force fingerprint marker = if force then false else is_marker_of fingerprint marker

  -- The answers for the tasks of a run, by the fingerprint and marker of each, and the digest and
  -- record of its lists.
  unfoldable pub answers_of :
      Bool → (Task → Chars) → (Task → Stored) → (Task → Chars) → (Task → Folder) → Answers
  unfolding is_cached_by unchanged
  answers_of force fingerprint marker digest folder = record {
    is_cached = λ t. is_cached_by force (fingerprint t) (marker t);
    unchanged = λ t. (unchanged b (digest t) (folder t)).0;
  }
