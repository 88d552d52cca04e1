-- ===== src/Registry/Tests.antt =====
-- Runs of src/artifact_engine/registry.py on two folders of manifests.
use artifact_engine.Prelude.{
  ◌≡◌, refl, String, Option, none, some, List, [], ◌∷◌, All, if◌then◌else◌,
}
use artifact_engine.Prelude.Texts.{DistinctTexts, str_eq}
use artifact_engine.Registry.{
  File, Content, invalid, dict, load_yaml_dir, load_manifests, Links, does_not_exist,
  check_dependencies,
}
use artifact_engine.Registry.Loaded.{ids_in, IsLoaded, load_manifests_once}

-- A document is the id it declares, which is valid unless it is empty.
abbrev validate : String → Option String
validate id = if str_eq id "" then none else some id

abbrev own : String → String
own id = id

abbrev content : File → Content String
content f =
    if str_eq f.name "broken.yaml"
    then invalid
    else dict (if str_eq f.place "custom" then "evtx" else f.name)

abbrev file : String → String → File
file name place = record { name = name; place = place }

abbrev dirs : List (Option (List File))
dirs =
    some (file "evtx.yaml" "custom" ∷ file "broken.yaml" "custom" ∷ [])
    ∷ none
    ∷ some (file "evtx.yaml" "bundled" ∷ file "broken.yaml" "bundled" ∷ file "mft" "bundled" ∷ [])
    ∷ []

load_manifests_run : load_manifests own validate content dirs ≡ "evtx" ∷ "mft" ∷ []
unfolding load_manifests
load_manifests_run = refl

load_manifests_once_example :
    DistinctTexts (ids_in own (load_manifests own validate content dirs))
    × All
        (λ doc. IsLoaded own (load_manifests own validate content dirs) (validate doc.1))
        (load_yaml_dir content dirs)
load_manifests_once_example = load_manifests_once own validate content dirs

abbrev linked : Links
linked = record { id = "logons"; replaces = []; depends_on = "evtx" ∷ "all" ∷ [] }

check_dependencies_run : check_dependencies (linked ∷ []) ≡ does_not_exist "logons" "evtx" ∷ []
unfolding check_dependencies
check_dependencies_run = refl
