-- ===== src/Retired.antt =====
-- `sweep` of src/artifact_engine/core/retired.py, on top of `retire`: what it removes of the parsers
-- that no longer exist. A folder has files, and for each parser the traces that its runs left.
pub mod Live
mod Tests
use artifact_engine.Prelude.{
  ℕ, suc, ◌+◌, Bool, true, false, not, ◌&&◌, ◌||◌, Option, none, some, List, [], ◌∷◌, ◌++◌, any,
  keep, ◌==◌, if◌then◌else◌,
}
use artifact_engine.Prelude.Chars.{Chars, chars_eq, chars_lt, codes}
use artifact_engine.Prelude.Sorting.{sorted}
use artifact_engine.Prelude.Options.{◌>>=◌}
use artifact_engine.Outputs.{System, Entry, Files, Folder, is_in, stat}
use artifact_engine.Outputs.Retire.{once, retire}

-- What the module reads of a parser; `outputs` are the declared paths.
pub record LoadedParser : Type 0 where
  pub parser_id : Chars
  pub parser_os : Chars
  pub parser_category : Chars
  pub short : Chars
  pub outputs : List Chars

-- An entry of `retired_parsers.yaml`; a field that is missing is empty.
pub record RetiredParser : Type 0 where
  pub retired_id : Chars
  pub retired_os : Chars
  pub retired_category : Chars
  pub retired_outputs : List Chars

-- What the runs of one parser left in a folder, apart from its files.
pub record Traces : Type 0 where
  pub stored : Option Chars
  pub has_record : Bool
  pub marker : Bool
  pub assets : Bool
  pub writable : Bool
  pub record_deletable : Bool
  pub marker_deletable : Bool
  pub assets_deletable : Bool

-- `fnmatch`, `Path.glob` on the names in a folder, and `Path(path).name`.
pub record Globs : Type 0 where
  pub fnmatch : Chars → Chars → Bool
  pub glob : Chars → List Chars → List Chars
  pub base_name : Chars → Chars

abbrev pub file_names : Files → List Chars
file_names [] = []
file_names ((n, e) ∷ files) = n ∷ file_names files

abbrev pub exists_file : Option Entry → Bool
exists_file none = false
exists_file (some e) = true

abbrev pub is_special : ℕ → Bool
is_special c = c == b'*' || (c == b'?' || c == b'[')

module _ (sys : System) (g : Globs) where
  abbrev pub declared_patterns : List Chars → List Chars
  declared_patterns [] = []
  declared_patterns (o ∷ outputs) = sys.casefold (g.base_name o) ∷ declared_patterns outputs

  abbrev pub short_pattern : Chars → List Chars
  short_pattern [] = []
  short_pattern (c ∷ s) = sys.casefold ((c ∷ s) ++ codes "_*") ∷ []

  -- `_live_patterns`
  unfoldable pub live_patterns : List LoadedParser → (os category : Chars) → List Chars
  unfolding chars_eq
  live_patterns [] os category = []
  live_patterns (p ∷ parsers) os category =
      let rest = live_patterns parsers os category in
      if chars_eq p.parser_os os && chars_eq p.parser_category category
      then sys.casefold (p.parser_id ++ codes ".csv")
        ∷ (short_pattern p.short ++ (declared_patterns p.outputs ++ rest))
      else rest

  abbrev pub is_live_name : List Chars → Chars → Bool
  is_live_name live name = any (g.fnmatch (sys.casefold name)) live

  abbrev pub named : List Chars → Files → List Chars
  named [] files = []
  named (pat ∷ patterns) files =
      if any is_special pat
      then g.glob pat (file_names files) ++ named patterns files
      else pat ∷ named patterns files

  -- `_names`
  abbrev pub names_for : List Chars → Files → List Chars
  names_for patterns files = sorted chars_lt (once (named patterns files))

  abbrev pub folder_with : Files → Traces → Folder
  folder_with files t = record {
    files = files;
    stored = t.stored;
    writable = t.writable;
    marker = t.marker;
    record_deletable = t.record_deletable;
    marker_deletable = t.marker_deletable;
  }

  -- The record is gone when `retire` removed it, and then the one of the lists goes too.
  abbrev pub settled_traces : List Chars → Folder → Traces → Traces
  settled_traces [] f t = record t {
    stored = f.stored;
    has_record = t.has_record && not t.record_deletable;
    marker = f.marker;
    assets = t.assets && not t.assets_deletable;
  }
  settled_traces (n ∷ left) f t = record t { stored = f.stored; marker = f.marker }

  abbrev pub has_traces : Traces → Bool
  has_traces t = t.marker || (t.has_record || t.assets)

  -- The body of `sweep` for an entry, in a folder that exists: the names left, the files and the traces;
  -- nothing is the ValueError of `retire`.
  unfoldable pub sweep_folder :
      List LoadedParser
      → Chars
      → RetiredParser
      → Files × Traces
      → Option (List Chars × (Files × Traces))
  unfolding live_patterns retire stat chars_lt sorted
  sweep_folder parsers machine_os spec (files, t) =
      let live = live_patterns parsers machine_os spec.retired_category in
      let kept = keep (is_live_name live) (file_names files) in
      let names = names_for spec.retired_outputs files in
      if any (λ n. exists_file (stat sys n files)) names || has_traces t
      then (retire sys names kept (folder_with files t) >>= λ r.
          some (r.0, (r.1.files, settled_traces r.0 r.1 t)))
      else some ([], (files, t))

-- A folder of a case, by its path, with the traces of each parser.
pub record CaseFolder : Type 0 where
  pub path : Chars
  pub files : Files
  pub traces : List (Chars × Traces)

-- A machine, by its system and the folder that each category has (`out_dir_of`).
pub record SweptMachine : Type 0 where
  pub machine_os : Chars
  pub out_dir_of : Chars → Chars

abbrev pub no_traces : Traces
no_traces = record {
  stored = none;
  has_record = false;
  marker = false;
  assets = false;
  writable = true;
  record_deletable = true;
  marker_deletable = true;
  assets_deletable = true;
}

abbrev pub traces_of : Chars → List (Chars × Traces) → Traces
traces_of pid [] = no_traces
traces_of pid ((q, t) ∷ traces) =
    let rest = traces_of pid traces in if chars_eq pid q then t else rest

abbrev pub is_loaded : Chars → List LoadedParser → Bool
is_loaded pid parsers = any (λ p. chars_eq p.parser_id pid) parsers

-- What is left over, by the place of the machine and the entry.
abbrev pub Leftovers : Type 0
Leftovers = List (ℕ × (Chars × Chars))

abbrev pub leftovers_of : ℕ → Chars → List Chars → Leftovers
leftovers_of i pid [] = []
leftovers_of i pid (n ∷ names) = (i, (pid, n)) ∷ leftovers_of i pid names

module _ (sys : System) (g : Globs) (parsers : List LoadedParser) where
  abbrev pub with_swept :
      CaseFolder → Chars → Option (List Chars × (Files × Traces)) → Option (List Chars × CaseFolder)
  with_swept d pid none = none
  with_swept d pid (some (left, (files, t))) =
      some (left, record d { files = files; traces = (pid, t) ∷ d.traces })

  -- The folders of a case, with the one at a path swept; a path with no folder is passed over.
  unfoldable pub sweep_at :
      Chars → Chars → RetiredParser → List CaseFolder → Option (List Chars × List CaseFolder)
  unfolding sweep_folder chars_eq
  sweep_at p machine_os spec [] = some ([], [])
  sweep_at p machine_os spec (d ∷ folders) =
      let rest = sweep_at p machine_os spec folders in
      if chars_eq p d.path
      then (with_swept d spec.retired_id (
            sweep_folder sys g parsers machine_os spec
              (d.files, traces_of spec.retired_id d.traces))
          >>= λ r. some (r.0, r.1 ∷ folders))
      else (rest >>= λ r. some (r.0, d ∷ r.1))

  abbrev pub is_passed : SweptMachine → RetiredParser → Bool
  is_passed m spec =
      is_loaded spec.retired_id parsers
      || not (chars_eq spec.retired_os [] || chars_eq spec.retired_os m.machine_os)

  -- The inner loop of `sweep`, over the entries, for a machine.
  unfoldable pub sweep_machine :
      ℕ → SweptMachine → List RetiredParser → List CaseFolder → Option (Leftovers × List CaseFolder)
  unfolding sweep_at chars_eq
  sweep_machine i m [] folders = some ([], folders)
  sweep_machine i m (spec ∷ retired) folders =
      (if is_passed m spec
        then some ([], folders)
        else sweep_at (m.out_dir_of spec.retired_category) m.machine_os spec folders)
      >>= λ r. sweep_machine i m retired r.1 >>= λ s.
          some (leftovers_of i spec.retired_id r.0 ++ s.0, s.1)

  -- `sweep`, from a place on.
  unfoldable pub sweep :
      ℕ
      → List SweptMachine
      → List RetiredParser
      → List CaseFolder
      → Option (Leftovers × List CaseFolder)
  unfolding sweep_machine
  sweep i [] retired folders = some ([], folders)
  sweep i (m ∷ machines) retired folders = sweep_machine i m retired folders >>= λ r.
      sweep (suc i) machines retired r.1 >>= λ s. some (r.0 ++ s.0, s.1)
