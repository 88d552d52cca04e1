-- ===== src/Retired/Tests.antt =====
-- A folder with the table of a retired parser and that of a loaded one, for `sweep` of
-- src/artifact_engine/core/retired.py.
use artifact_engine.Prelude.{◌≡◌, refl, inl, inr, true, false, none, some, List, [], ◌∷◌}
use artifact_engine.Prelude.Chars.{codes, chars_eq}
use artifact_engine.Outputs.{System, Files, stat}
use artifact_engine.Outputs.Record.{read}
use artifact_engine.Outputs.Retire.{previous_of}
use artifact_engine.Retired.{
  LoadedParser, RetiredParser, Traces, Globs, no_traces, live_patterns, is_live_name, sweep_folder,
}
use artifact_engine.Retired.Live.{swept_file, sweep_keeps_live}

abbrev posix : System
posix = record {
  resolved = λ s. s;
  casefold = λ s. s;
  isdigit = λ s. false;
  int = λ s. none;
  str = λ n. [];
}

abbrev exact : Globs
exact = record { fnmatch = chars_eq; glob = λ pat names. []; base_name = λ path. path }

abbrev loaded : List LoadedParser
loaded =
    record {
      parser_id = codes "new";
      parser_os = codes "windows";
      parser_category = codes "net";
      short = [];
      outputs = [];
    }
    ∷ []

abbrev retired_entry : RetiredParser
retired_entry = record {
  retired_id = codes "old";
  retired_os = codes "windows";
  retired_category = codes "net";
  retired_outputs = codes "old.csv" ∷ codes "new.csv" ∷ [];
}

abbrev tables : Files
tables =
    (codes "old.csv", record { stamp = 1; leaves = none })
    ∷ (codes "new.csv", record { stamp = 2; leaves = none })
    ∷ []

abbrev old_traces : Traces
old_traces = record no_traces { marker = true }

none_recorded : previous_of posix (read posix old_traces.stored) ≡ some []
unfolding read
none_recorded = refl

new_is_live :
    is_live_name posix exact
      (live_patterns posix exact loaded (codes "windows") (codes "net"))
      (codes "new.csv")
    ≡ true
unfolding live_patterns chars_eq
new_is_live = refl

sweep_keeps_live_example :
    swept_file posix exact
      (codes "new.csv")
      (sweep_folder posix exact loaded (codes "windows") retired_entry (tables, old_traces))
    ≡ some (stat posix (codes "new.csv") tables)
sweep_keeps_live_example =
    sweep_keeps_live posix exact loaded (codes "windows") retired_entry tables old_traces []
      (codes "new.csv") none_recorded (λ a b h. h) (inr (inl refl)) new_is_live
