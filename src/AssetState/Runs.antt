-- ===== src/AssetState/Runs.antt =====
-- What the record of src/artifact_engine/core/asset_state.py says after a run, by how the run ended.
use artifact_engine.Prelude.{
  ◌≡◌, ◌↔◌, refl, sym, ap, ◌∙◌, Bool, true, false, ◌&&◌, ◌||◌, arith, ltb, all,
}
use artifact_engine.Prelude.Chars.{Chars, chars_eq, chars_eq_refl, eq_of_chars_eq}
use artifact_engine.AssetState.{
  Strip, running, Stored, absent, unreadable, held, Folder, put_record, unchanged, begin, run,
}

abbrev pub is_visible : Chars → Bool
is_visible s = all (λ c. ltb 32 c && ltb c 127) s

abbrev pub is_unreadable : Stored → Bool
is_unreadable absent = false
is_unreadable unreadable = true
is_unreadable (held text) = false

-- A folder that exists and can be written.
abbrev pub ready : Stored → Folder
ready s = record { is_dir = true; writable = true; stored = s }

module _ (b : Strip) where
  -- A run whose result never came in is not taken for done, whatever the lists are now, in a folder
  -- that exists and can be written.
  pub stopped_run_is_changed :
      (now : Chars) (s : Stored)
      → chars_eq running now ≡ false
      → (unchanged b now (begin b (ready s)).1).0 ≡ false
  unfolding begin put_record unchanged
  stopped_run_is_changed now s differ =
      ap (λ text. chars_eq text now) (b.strip_visible running refl) ∙ differ

  -- After a run that ended well, the lists are unchanged exactly if they are what the run started
  -- with, in a folder that exists and can be written.
  pub good_run_iff :
      (started now : Chars) (s : Stored)
      → is_visible started ≡ true
      → ((unchanged b now (run b true started (ready s))).0 ≡ true) ↔ (started ≡ now)
  unfolding run put_record unchanged
  good_run_iff started now s visible =
      let answer = ap (λ text. chars_eq text now) (b.strip_visible started visible) in
      (
        λ h. eq_of_chars_eq started now (sym answer ∙ h),
        λ e. answer ∙ ap (chars_eq started) (sym e) ∙ chars_eq_refl started,
      )

  -- After a run that ended otherwise, the answer is what it was before the run, except that a record
  -- that could not be read is gone, and whatever the lists are now is adopted; this in a folder that
  -- exists and can be written.
  pub failed_run_keeps :
      (started now : Chars) (s : Stored)
      → (unchanged b now (run b false started (ready s))).0
        ≡ ((unchanged b now (ready s)).0 || is_unreadable s)
  unfolding run put_record unchanged
  failed_run_keeps started now absent = refl
  failed_run_keeps started now unreadable = refl
  failed_run_keeps started now (held text) =
      ap (λ t. chars_eq t now) (b.strip_strip text) ∙ ground arith
