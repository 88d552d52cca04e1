-- ===== src/Detection/Walk.antt =====
-- The walk over the extracted tree, `detect_machines` of src/artifact_engine/core/detector.py. A
-- folder below the root is named by its names above the root's own.
pub mod Steps
pub mod Once
pub mod Complete
pub mod Detected
pub mod Justified
use artifact_engine.Prelude.{
  ℕ, zero, suc, Bool, true, false, not, ◌&&◌, ◌||◌, Option, none, some, List, [], ◌∷◌, ◌++◌, any,
  keep, ◌==◌, if◌then◌else◌,
}
use artifact_engine.Prelude.Chars.{Chars, chars_eq, codes}
use artifact_engine.Detection.{
  FolderPath, parent, name_of, path_eq, is_at_or_above, Volume, Machine, Clause, NameSpec, Profile,
  Tree,
}
use artifact_engine.Detection.Profiles.{
  top_of, collect_volumes, windows, profile_matches, resolve_name,
}

-- `machines`, `matched` and `lr_only`
pub record Sighted : Type 0 where
  pub machines : List Machine
  pub matched : List FolderPath
  pub lr_only : List FolderPath

abbrev pub nothing : Sighted
nothing = record { machines = []; matched = []; lr_only = [] }

-- `rp in matched`
abbrev pub is_among : FolderPath → List FolderPath → Bool
is_among rp matched = any (path_eq rp) matched

-- `name.upper().startswith("VSS")`, of the name in capitals.
abbrev pub starts_vss : Chars → Bool
starts_vss [] = false
starts_vss (a ∷ []) = false
starts_vss (a ∷ b ∷ []) = false
starts_vss (a ∷ b ∷ c ∷ s) = a == b'V' && (b == b'S' && c == b'S')

-- `next((p.machine_name for p in profiles if p.collector == "kape"), None)`
unfoldable pub kape_name : List Profile → Option NameSpec
unfolding chars_eq
kape_name [] = none
kape_name (p ∷ profiles) =
    if chars_eq p.collector (codes "kape") then some p.machine_name else kape_name profiles

module _ (tree : Tree) where
  -- `_has_liveresponse`
  unfoldable pub has_liveresponse : FolderPath → Bool
  has_liveresponse base =
      tree.is_lr_dir base || (tree.is_lr_dir (parent base) || tree.is_lr_dir (parent (parent base)))

  -- The folders in `base`, when there are any that can be listed, that are shadow copies.
  abbrev pub vss_paths : FolderPath → Option (List Chars) → List FolderPath
  vss_paths above none = []
  vss_paths above (some []) = []
  vss_paths above (some (d ∷ names)) =
      let rest = vss_paths above (some names) in
      if starts_vss (tree.upper d) then (d ∷ above) ∷ rest else rest

  -- `_vss_siblings`
  unfoldable pub vss_siblings : FolderPath → List FolderPath
  vss_siblings base = vss_paths (parent base) (tree.sorted_dirs (parent base))

  -- What the walk keeps of `dirs`.
  unfoldable pub is_walked : Chars → Bool
  unfolding chars_eq
  is_walked d =
      not (starts_vss (tree.upper d)) && not (chars_eq (tree.lower d) (codes "velociraptor"))

  abbrev pub vss_machine : Chars → Chars → Profile → FolderPath → Machine
  vss_machine name source p vdir = record {
    name = name ++ (b'_' ∷ name_of vdir);
    os = p.os;
    collector = p.collector;
    profile_id = p.id;
    path = vdir;
    source = source;
    volumes = collect_volumes vdir p.os;
    display = [];
    is_vss = true;
    has_lr = false;
    outputs_at = none;
  }

  abbrev pub vss_machines : Chars → Chars → Profile → List FolderPath → List Machine
  vss_machines name source p [] = []
  vss_machines name source p (vdir ∷ vdirs) =
      vss_machine name source p vdir ∷ vss_machines name source p vdirs

  unfoldable pub live_machine : FolderPath → FolderPath → Profile → Machine
  unfolding chars_eq has_liveresponse resolve_name
  live_machine rel base p = record {
    name = resolve_name tree rel base p.machine_name;
    os = p.os;
    collector = p.collector;
    profile_id = p.id;
    path = base;
    source = top_of rel base;
    volumes = collect_volumes base p.os;
    display = [];
    is_vss = false;
    has_lr = has_liveresponse base;
    outputs_at = if chars_eq p.collector (codes "memory") then some base else none;
  }

  unfoldable pub lr_name : FolderPath → FolderPath → Option NameSpec → Chars
  unfolding resolve_name
  lr_name rel col none = name_of col
  lr_name rel col (some spec) = resolve_name tree rel col spec

  abbrev pub lr_machine : Option NameSpec → FolderPath → FolderPath → Machine
  lr_machine kape rel col = record {
    name = lr_name rel col kape;
    os = windows;
    collector = codes "velociraptor";
    profile_id = codes "windows_liveresponse";
    path = col;
    source = top_of rel col;
    volumes = collect_volumes col windows;
    display = [];
    is_vss = false;
    has_lr = true;
    outputs_at = none;
  }

  module _ (root : FolderPath) (profiles : List Profile) (avoid_vss : Bool) where
    -- The machines of a profile that matches: the folder itself and its shadow copies.
    unfoldable pub with_machine : FolderPath → Profile → Sighted → Sighted
    unfolding chars_eq vss_siblings
    with_machine rel p s =
        let base : FolderPath = rel ++ root in
        let live : Machine = live_machine rel base p in
        record {
          machines =
              s.machines
              ++ (live
                  ∷ (if not avoid_vss && chars_eq p.os windows
                      then vss_machines live.name live.source p (vss_siblings base)
                      else []));
          matched = s.matched ++ tree.resolve_path base ∷ [];
          lr_only = s.lr_only;
        }

    -- The loop over profiles, with whether a machine was found.
    unfoldable pub first_match : FolderPath → List Profile → Sighted → Sighted × Bool
    unfolding profile_matches path_eq with_machine
    first_match rel [] s = (s, false)
    first_match rel (p ∷ ps) s =
        let later = first_match rel ps s in
        if profile_matches tree (rel ++ root) p
        then if is_among (tree.resolve_path (rel ++ root)) s.matched
          then later
          else (with_machine rel p s, true)
        else later

    abbrev pub noted : FolderPath → Sighted → Sighted
    noted rel s =
        if tree.is_lr_dir (rel ++ root) then record s { lr_only = s.lr_only ++ rel ∷ [] } else s

    unfoldable pub visit_folder : FolderPath → Sighted → Sighted × Bool
    unfolding first_match
    visit_folder rel s = first_match rel profiles (noted rel s)

    -- The folders of one, each walked by the given function.
    abbrev pub walk_each :
        (FolderPath → Sighted → Sighted) → FolderPath → List Chars → Sighted → Sighted
    walk_each walk_one rel [] s = s
    walk_each walk_one rel (d ∷ dirs) s = walk_each walk_one rel dirs (walk_one (d ∷ rel) s)

    abbrev pub descend : (FolderPath → Sighted → Sighted) → FolderPath → Sighted × Bool → Sighted
    descend walk_one rel (s, true) = s
    descend walk_one rel (s, false) =
        walk_each walk_one rel (keep is_walked (tree.subdirs (rel ++ root))) s

    -- The walk from a folder, with the depth left below it.
    unfoldable pub walk : ℕ → FolderPath → Sighted → Sighted
    unfolding visit_folder
    walk zero rel s = (visit_folder rel s).0
    walk (suc depth) rel s = descend (walk depth) rel (visit_folder rel s)

    unfoldable pub reconcile_one : FolderPath → Sighted → Sighted
    unfolding is_at_or_above
    reconcile_one rel s =
        let rp : FolderPath = tree.resolve_path (rel ++ root) in
        if any (is_at_or_above rp) s.matched then s else record s {
          machines = s.machines ++ lr_machine (kape_name profiles) rel (rel ++ root) ∷ [];
          matched = s.matched ++ rp ∷ [];
        }

    -- The loop over `lr_only`.
    unfoldable pub reconcile : List FolderPath → Sighted → Sighted
    unfolding reconcile_one
    reconcile [] s = s
    reconcile (rel ∷ rels) s = reconcile rels (reconcile_one rel s)

    -- `detect_machines`
    unfoldable pub detect_machines : ℕ → Sighted
    unfolding walk reconcile
    detect_machines max_depth = let s = walk max_depth [] nothing in reconcile s.lr_only s
