-- ===== src/Registry.antt =====
-- Loading of manifests: src/artifact_engine/registry.py. A folder's files come in the order of
-- `sorted(d.rglob(...))`; reading YAML and validating a manifest are parameters.
pub mod Loaded
pub mod Warnings
mod Tests
use artifact_engine.Prelude.{
  ℕ, String, Bool, true, false, not, ◌&&◌, Option, none, some, List, [], ◌∷◌, ◌++◌, if◌then◌else◌,
}
use artifact_engine.Prelude.Texts.{str_eq, has}

pub record File : Type 0 where
  pub name : String
  pub place : String

-- What `yaml.safe_load` makes of a file: a YAMLError, a value that is no dict, or a dict.
pub data Content (D : Type 0) : Type 0 where
  invalid : Content D
  no_dict : Content D
  dict : D → Content D

-- `seen` and `docs`
pub record Loading (D : Type 0) : Type 0 where
  pub seen : List String
  pub docs : List (File × D)

-- `ids` and `parsers`
pub record Accepted (M : Type 0) : Type 0 where
  pub ids : List String
  pub manifests : List M

module _ {D : Type 0} where
  abbrev pub with_content : File → Content D → List (File × D) → List (File × D)
  with_content f invalid docs = docs
  with_content f no_dict docs = docs
  with_content f (dict d) docs = docs ++ (f, d) ∷ []

  module _ (content : File → Content D) where
    unfoldable pub load_file : File → Loading D → Loading D
    load_file f l =
        if has f.name l.seen
        then l
        else record { seen = f.name ∷ l.seen; docs = with_content f (content f) l.docs }

    unfoldable pub load_files : List File → Loading D → Loading D
    unfolding load_file
    load_files [] l = l
    load_files (f ∷ files) l = load_files files (load_file f l)

    -- Nothing stands for a path that is no folder.
    unfoldable pub load_dirs : List (Option (List File)) → Loading D → Loading D
    unfolding load_files
    load_dirs [] l = l
    load_dirs (none ∷ dirs) l = load_dirs dirs l
    load_dirs (some files ∷ dirs) l = load_dirs dirs (load_files files l)

    unfoldable pub load_yaml_dir : List (Option (List File)) → List (File × D)
    unfolding load_dirs
    load_yaml_dir dirs = (load_dirs dirs (record { seen = []; docs = [] })).docs

module _ {M : Type 0} where
  module _ (id_of : M → String) where
    -- Nothing stands for a ValidationError.
    unfoldable pub accept : Option M → Accepted M → Accepted M
    accept none a = a
    accept (some m) a =
        if has (id_of m) a.ids
        then a
        else record { ids = id_of m ∷ a.ids; manifests = a.manifests ++ m ∷ [] }

    module _ {D : Type 0} (validate : D → Option M) where
      unfoldable pub accept_all : List (File × D) → Accepted M → Accepted M
      unfolding accept
      accept_all [] a = a
      accept_all ((f, d) ∷ docs) a = accept_all docs (accept (validate d) a)

      -- `load_parsers` and `load_profiles`, which differ in the kind of manifest.
      unfoldable pub load_manifests : (File → Content D) → List (Option (List File)) → List M
      unfolding accept_all load_yaml_dir
      load_manifests content dirs =
          (accept_all (load_yaml_dir content dirs) (record { ids = []; manifests = [] })).manifests

-- What `_check_dependencies` reads of a parser's manifest.
pub record Links : Type 0 where
  pub id : String
  pub replaces : List String
  pub depends_on : List String

pub data Warning : Type 0 where
  still_exists : (id old : String) → Warning
  does_not_exist : (id dep : String) → Warning

module _ (ids : List String) where
  unfoldable pub replaced_warnings : String → List String → List Warning
  replaced_warnings id [] = []
  replaced_warnings id (old ∷ replaces) =
      (if has old ids then still_exists id old ∷ [] else []) ++ replaced_warnings id replaces

  unfoldable pub dependency_warnings : String → List String → List Warning
  dependency_warnings id [] = []
  dependency_warnings id (dep ∷ depends_on) =
      (if not (str_eq dep "all") && not (has dep ids) then does_not_exist id dep ∷ [] else [])
      ++ dependency_warnings id depends_on

  unfoldable pub warnings_from : List Links → List Warning
  unfolding replaced_warnings dependency_warnings
  warnings_from [] = []
  warnings_from (p ∷ parsers) =
      (replaced_warnings p.id p.replaces ++ dependency_warnings p.id p.depends_on)
      ++ warnings_from parsers

abbrev pub ids_of_links : List Links → List String
ids_of_links [] = []
ids_of_links (p ∷ parsers) = p.id ∷ ids_of_links parsers

unfoldable pub check_dependencies : List Links → List Warning
unfolding warnings_from
check_dependencies parsers = warnings_from (ids_of_links parsers) parsers
