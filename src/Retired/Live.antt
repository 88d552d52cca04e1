-- ===== src/Retired/Live.antt =====
-- What a loaded parser writes is left by `sweep` (src/artifact_engine/core/retired.py).
use artifact_engine.Prelude.{
  ◌≡◌, refl, ap, ◌∙◌, inl, inr, Bool, true, ◌||◌, Option, none, some, List, [], ◌∷◌, any, keep, Any,
  Bool-cases,
}
use artifact_engine.Prelude.Chars.{Chars}
use artifact_engine.Prelude.Options.{◌>>=◌}
use artifact_engine.Outputs.{System, Entry, Files, Folder, stat}
use artifact_engine.Outputs.Record.{Dict, Stamp, read}
use artifact_engine.Outputs.Settle.Outcome.{file_after, OneFold}
use artifact_engine.Outputs.Retire.{previous_of, retire}
use artifact_engine.Outputs.Retire.Removal.{retire_spares}
use artifact_engine.Retired.{
  LoadedParser, RetiredParser, Traces, Globs, file_names, exists_file, live_patterns, is_live_name,
  names_for, folder_with, settled_traces, has_traces, sweep_folder,
}

Any-keep :
    (test : Chars → Bool) (n : Chars) (xs : List Chars)
    → test n ≡ true
    → Any (λ x. x ≡ n) xs
    → Any (λ x. x ≡ n) (keep test xs)
Any-keep test n [] h m = m
Any-keep test n (x ∷ xs) h (inl e) = rw (ap test e ∙ h) (inl e)
Any-keep test n (x ∷ xs) h (inr m) = elim (Bool-cases (test x)) [
  | inl kept ↦ rw kept (inr (Any-keep test n xs h m))
  | inr lost ↦ rw lost (Any-keep test n xs h m)
]

module _ (sys : System) (g : Globs) where
  -- The file of a name in a folder that was swept; nothing when that raised.
  abbrev pub swept_file : Chars → Option (List Chars × (Files × Traces)) → Option (Option Entry)
  swept_file n none = none
  swept_file n (some (left, (files, t))) = some (stat sys n files)

  swept-file_after :
      (n : Chars) (t : Traces) (o : Option (List Chars × Folder))
      → swept_file n (o >>= λ r. some (r.0, (r.1.files, settled_traces sys g r.0 r.1 t)))
        ≡ file_after sys n o
  swept-file_after n t none = refl
  swept-file_after n t (some (left, f)) = refl

  -- A file in the folder whose name a loaded parser of the system and the category writes is as it
  -- was once an entry was swept there, if the record can be read, and names of one file are equal
  -- without case.
  pub sweep_keeps_live :
      (parsers : List LoadedParser) (machine_os : Chars) (spec : RetiredParser) (files : Files)
      (t : Traces) (previous : Dict Stamp) (n : Chars)
      → previous_of sys (read sys t.stored) ≡ some previous
      → OneFold sys
      → Any (λ x. x ≡ n) (file_names files)
      → is_live_name sys g (live_patterns sys g parsers machine_os spec.retired_category) n ≡ true
      → swept_file n (sweep_folder sys g parsers machine_os spec (files, t))
        ≡ some (stat sys n files)
  unfolding sweep_folder
  sweep_keeps_live parsers machine_os spec files t previous n readable one here live =
      let names = names_for sys g spec.retired_outputs files in
      let kept =
        keep (is_live_name sys g (live_patterns sys g parsers machine_os spec.retired_category))
          (file_names files) in
      elim (Bool-cases (any (λ m. exists_file (stat sys m files)) names || has_traces sys g t)) [
        | inr nothing ↦ rw nothing refl
        | inl something ↦ rw something (
            swept-file_after n t (retire sys names kept (folder_with sys g files t))
            ∙ retire_spares sys names kept (folder_with sys g files t) previous n readable one (
                Any-keep
                  (is_live_name sys g
                    (live_patterns sys g parsers machine_os spec.retired_category))
                  n (file_names files) live here))
      ]
