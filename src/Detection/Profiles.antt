-- ===== src/Detection/Profiles.antt =====
-- Whether a folder satisfies a profile, and the name of the machine in it
-- (src/artifact_engine/core/detector.py).
use artifact_engine.Prelude.{
  Bool, true, false, not, ◌&&◌, Option, none, some, List, [], ◌∷◌, ◌++◌, all, any, if◌then◌else◌,
}
use artifact_engine.Prelude.Chars.{Chars, chars_eq, codes}
use artifact_engine.Outputs.Record.{strip}
use artifact_engine.Detection.{FolderPath, parent, name_of, Volume, Clause, NameSpec, Profile, Tree}

abbrev pub has_none : {A : Type 0} → List A → Bool
has_none [] = true
has_none (x ∷ xs) = false

abbrev pub last_of : FolderPath → Chars → Chars
last_of [] otherwise = otherwise
last_of (c ∷ []) otherwise = c
last_of (c ∷ d ∷ p) otherwise = last_of (d ∷ p) otherwise

-- `rel.parts[0] if rel.parts else base.name`
abbrev pub top_of : FolderPath → FolderPath → Chars
top_of rel base = last_of rel (name_of base)

abbrev pub non_empty : Option Chars → Chars → Chars
non_empty none otherwise = otherwise
non_empty (some []) otherwise = otherwise
non_empty (some (c ∷ s)) otherwise = c ∷ s

abbrev pub windows : Chars
windows = codes "windows"

-- `_collect_volumes`
unfoldable pub collect_volumes : FolderPath → Chars → List Volume
unfolding chars_eq
collect_volumes base profile_os =
    record {
      name = if chars_eq profile_os windows then name_of base else codes "live";
      path = base;
      is_live = true;
    }
    ∷ []

module _ (tree : Tree) where
  abbrev pub holds_dir_name : FolderPath → Option Chars → Bool
  holds_dir_name base none = false
  holds_dir_name base (some pattern) = tree.fullmatch_ignoring_case pattern (name_of base)

  abbrev pub holds_glob : FolderPath → Option Chars → Option Chars → Bool
  holds_glob base (some pattern) dir_name = tree.has_match base pattern
  holds_glob base none dir_name = holds_dir_name base dir_name

  abbrev pub holds_first : FolderPath → Option Chars → Option Chars → Option Chars → Bool
  holds_first base (some relative) glob dir_name = tree.exists base relative
  holds_first base none glob dir_name = holds_glob base glob dir_name

  -- `_clause_matches`
  unfoldable pub clause_matches : FolderPath → Clause → Bool
  clause_matches base c = holds_first base c.exists c.glob c.dir_name

  -- `_profile_matches`
  unfoldable pub profile_matches : FolderPath → Profile → Bool
  unfolding clause_matches
  profile_matches base p =
      if not (has_none p.all_of) && not (all (clause_matches base) p.all_of)
      then false
      else if not (has_none p.any_of) && not (any (clause_matches base) p.any_of)
      then false
      else true

  abbrev pub stripped_text : Option Chars → Chars
  stripped_text none = []
  stripped_text (some text) = strip text

  -- The text of `spec.file`, empty where the manifest names none.
  abbrev pub name_in_file : FolderPath → Option Chars → Chars
  name_in_file base none = []
  name_in_file base (some []) = []
  name_in_file base (some (c ∷ file)) = stripped_text (tree.read_text base (c ∷ file))

  abbrev pub group_in : Option Chars → Chars → Chars
  group_in none top = top
  group_in (some []) top = top
  group_in (some (c ∷ regex)) top = non_empty (tree.match_group (c ∷ regex) top) top

  -- `name` by the strategy, empty where there is none.
  unfoldable pub name_by : FolderPath → FolderPath → NameSpec → Chars
  unfolding chars_eq
  name_by rel base spec =
      if chars_eq spec.strategy (codes "file")
      then name_in_file base spec.file
      else if chars_eq spec.strategy (codes "acquisition")
      then group_in spec.regex (top_of rel base)
      else if chars_eq spec.strategy (codes "parent_dir")
      then name_of (parent base)
      else if chars_eq spec.strategy (codes "dir_name")
      then name_of base
      else []

  unfoldable pub named_or : Chars → FolderPath → Chars → Chars
  unfolding chars_eq
  named_or [] base fallback =
      if chars_eq fallback (codes "parent_dir") then name_of (parent base) else name_of base
  named_or (c ∷ name) base fallback = c ∷ name

  -- `_resolve_name`
  unfoldable pub resolve_name : FolderPath → FolderPath → NameSpec → Chars
  unfolding name_by
  resolve_name rel base spec = named_or (name_by rel base spec) base spec.fallback ++ spec.suffix
