-- ===== src/AssetState/Tests.antt =====
-- Runs of src/artifact_engine/core/asset_state.py on a record that held a digest.
use artifact_engine.Prelude.{◌≡◌, ◌↔◌, refl, true, false, ◌||◌}
use artifact_engine.Prelude.Chars.{Chars, codes, chars_eq}
use artifact_engine.AssetState.{Strip, running, held, unreadable, unchanged, run}
use artifact_engine.AssetState.Runs.{
  is_visible, is_unreadable, ready, good_run_iff, failed_run_keeps,
}

-- Texts here have no blanks around them.
abbrev bare : Strip
bare = record { strip = λ s. s; strip_strip = λ s. refl; strip_visible = λ s h. refl }

abbrev digest : Chars
digest = codes "0f3a"

abbrev edited : Chars
edited = codes "77c1"

running_differs : chars_eq running edited ≡ false
unfolding chars_eq
running_differs = refl

digest_visible : is_visible digest ≡ true
digest_visible = refl

good_run_iff_example :
    ((unchanged bare edited (run bare true digest (ready (held edited)))).0 ≡ true)
    ↔ (digest ≡ edited)
good_run_iff_example = good_run_iff bare digest edited (held edited) digest_visible

failed_run_keeps_example :
    (unchanged bare edited (run bare false digest (ready unreadable))).0
    ≡ ((unchanged bare edited (ready unreadable)).0 || is_unreadable unreadable)
failed_run_keeps_example = failed_run_keeps bare digest edited unreadable
