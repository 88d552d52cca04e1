-- ===== src/Detection/Tests.antt =====
-- A tree with a host, its shadow copy and a LiveResponse beside it, detected and labelled.
use artifact_engine.Prelude.{
  ℕ, ◌+◌, ◌≡◌, refl, Bool, true, false, ◌&&◌, ◌||◌, none, some, List, [], ◌∷◌, ◌==◌, map, any, all,
  get_elem?, ◌≤◌, leb, arith, if◌then◌else◌,
}
use artifact_engine.Prelude.Chars.{Chars, chars_eq, codes}
use artifact_engine.ConsoleGroups.{count_up}
use artifact_engine.Detection.{FolderPath, name_of, path_eq, is_at_or_above, Machine, Profile, Tree}
use artifact_engine.Detection.Profiles.{
  profile_matches, clause_matches, collect_volumes, name_by, named_or, resolve_name,
}
use artifact_engine.Detection.Walk.{
  kape_name, has_liveresponse, vss_siblings, is_walked, live_machine, lr_name, with_machine,
  first_match, visit_folder, walk, reconcile_one, reconcile, detect_machines,
}
use artifact_engine.Detection.Walk.Once.{no_repeat, live_resolved, detect_machines_once}
use artifact_engine.Detection.Walk.Complete.{is_covered}
use artifact_engine.Detection.Walk.Detected.{detect_machines_complete, liveresponse_complete}
use artifact_engine.Detection.Walk.Justified.{is_justified, detect_machines_justified}
use artifact_engine.Detection.Displays.{
  Digits, provenance_label, times_in, seen_at, tagged, assign_from, assign_display_names,
}
use artifact_engine.Detection.Displays.Numbered.{display_at}
use artifact_engine.Detection.Drops.{
  EventTables, count_rows, count_tables, host_of_events, named_machine, name_evtx_drops,
}
use artifact_engine.Detection.Drops.Again.{name_evtx_drops_again}
use artifact_engine.Detection.Drops.Frequent.{hosts_in, named_after_most_frequent}

abbrev begins : ℕ → Chars → Bool
begins c [] = false
begins c (d ∷ s) = c == d

-- `<root>/case/C` is a Windows volume, `<root>/case/VSS1` its shadow copy, `<root>/live` a LiveResponse.
abbrev volume : FolderPath
volume = codes "C" ∷ codes "case" ∷ []

abbrev live : FolderPath
live = codes "live" ∷ []

abbrev folders : FolderPath → List Chars
folders [] = codes "case" ∷ codes "live" ∷ []
folders (d ∷ []) =
    if begins b'c' d then codes "C" ∷ codes "VSS1" ∷ [] else codes "Velociraptor" ∷ []
folders (d ∷ e ∷ p) = []

abbrev evidence : Tree
evidence = record {
  exists = λ base relative. begins b'C' (name_of base);
  has_match = λ base pattern. false;
  read_text = λ base file. none;
  subdirs = folders;
  sorted_dirs = λ base. some (folders base);
  is_lr_dir = λ base. begins b'l' (name_of base);
  resolve_path = λ p. p;
  fullmatch_ignoring_case = λ pattern name. false;
  match_group = λ regex text. none;
  upper = λ s. s;
  lower = λ s. if begins b'V' s then codes "velociraptor" else s;
}

abbrev kape : Profile
kape = record {
  id = codes "windows_kape";
  os = codes "windows";
  collector = codes "kape";
  any_of = [];
  all_of = record { exists = some (codes "$MFT"); glob = none; dir_name = none } ∷ [];
  machine_name = record {
    strategy = codes "parent_dir";
    file = none;
    regex = none;
    fallback = codes "dir_name";
    suffix = [];
  };
}

abbrev detected : List Machine
detected = (detect_machines evidence [] (kape ∷ []) false 6).machines

detected_names :
    map (λ (m : Machine). m.name) detected ≡ codes "case" ∷ codes "case_VSS1" ∷ codes "live" ∷ []
unfolding detect_machines walk visit_folder first_match with_machine profile_matches clause_matches
    live_machine resolve_name name_by named_or vss_siblings is_walked reconcile reconcile_one
    is_at_or_above path_eq chars_eq kape_name lr_name collect_volumes has_liveresponse
detected_names = refl

detect_machines_once_example :
    (no_repeat (live_resolved evidence detected) ≡ true)
    × ((detect_machines evidence [] (kape ∷ []) false 6).matched ≡ live_resolved evidence detected)
detect_machines_once_example = detect_machines_once evidence [] (kape ∷ []) false 6

detect_machines_complete_example :
    is_covered evidence [] [] (codes "case" ∷ codes "C" ∷ []) (live_resolved evidence detected)
    ≡ true
unfolding profile_matches clause_matches is_walked chars_eq
detect_machines_complete_example =
    detect_machines_complete evidence [] (kape ∷ []) false 6 (codes "case" ∷ codes "C" ∷ [])
      (omega arith) refl refl

liveresponse_complete_example :
    (is_covered evidence [] [] (codes "live" ∷ []) (live_resolved evidence detected)
      || any (is_at_or_above live) (live_resolved evidence detected))
    ≡ true
unfolding is_walked chars_eq
liveresponse_complete_example =
    liveresponse_complete evidence [] (kape ∷ []) false 6 (codes "live" ∷ []) (omega arith) refl
      refl

detect_machines_justified_example : all (is_justified evidence [] (kape ∷ []) false) detected ≡ true
detect_machines_justified_example = detect_machines_justified evidence [] (kape ∷ []) false 6

-- A host four folders below a LiveResponse: the handler does not look that far up, and there is no
-- machine for the LiveResponse either.
abbrev deep_folders : FolderPath → List Chars
deep_folders [] = codes "x" ∷ []
deep_folders (d ∷ []) = codes "y" ∷ []
deep_folders (d ∷ e ∷ []) = codes "z" ∷ []
deep_folders (d ∷ e ∷ f ∷ []) = codes "C" ∷ []
deep_folders (d ∷ e ∷ f ∷ g ∷ p) = []

abbrev is_top : FolderPath → Bool
is_top [] = true
is_top (d ∷ p) = false

abbrev deep_evidence : Tree
deep_evidence = record evidence { subdirs = deep_folders; is_lr_dir = is_top }

deep_machine-has_lr :
    map (λ (m : Machine). m.has_lr) (detect_machines deep_evidence [] (kape ∷ []) true 6).machines
    ≡ false ∷ []
unfolding detect_machines walk visit_folder first_match with_machine profile_matches clause_matches
    live_machine resolve_name name_by named_or vss_siblings is_walked reconcile reconcile_one
    is_at_or_above path_eq chars_eq kape_name lr_name collect_volumes has_liveresponse
deep_machine-has_lr = refl

abbrev digits : Digits
digits = record { is_digit = λ c. leb b'0' c && leb c b'9'; str_of = λ n. (b'0' + n) ∷ [] }

abbrev host_at : Chars → Machine
host_at source = record {
  name = codes "PC1";
  os = codes "windows";
  collector = codes "kape";
  profile_id = codes "windows_kape";
  path = volume;
  source = source;
  volumes = [];
  display = [];
  is_vss = false;
  has_lr = false;
  outputs_at = none;
}

abbrev three_hosts : List Machine
three_hosts = host_at (codes "PC1-20260331164325") ∷ host_at (codes "a") ∷ host_at (codes "a") ∷ []

displays_of_hosts :
    map (λ (m : Machine). m.display) (assign_display_names digits three_hosts)
    ≡ codes "PC1 [2026-03-31]" ∷ codes "PC1 (a)" ∷ codes "PC1 (a)#2" ∷ []
unfolding assign_display_names assign_from tagged provenance_label times_in seen_at count_up
    chars_eq
displays_of_hosts = refl

-- A machine that is alone with its base label may show the tagged label of another.
abbrev namesake : Machine
namesake = record (host_at (codes "b")) { name = codes "PC1 (a)" }

displays_clash :
    map (λ (m : Machine). m.display) (assign_display_names digits (namesake ∷ three_hosts))
    ≡ codes "PC1 (a)" ∷ codes "PC1 [2026-03-31]" ∷ codes "PC1 (a)" ∷ codes "PC1 (a)#2" ∷ []
unfolding assign_display_names assign_from tagged provenance_label times_in seen_at count_up
    chars_eq
displays_clash = refl

display_at_example :
    get_elem? (assign_display_names digits three_hosts) 2
    ≡ some (record (host_at (codes "a")) { display = codes "PC1 (a)#2" })
unfolding assign_display_names assign_from tagged provenance_label times_in seen_at count_up
    chars_eq
display_at_example =
    display_at digits (host_at (codes "PC1-20260331164325") ∷ host_at (codes "a") ∷ [])
      (host_at (codes "a")) []

abbrev event_tables : EventTables
event_tables = record {
  computers = λ path.
      (some (codes "web.corp") ∷ none ∷ some (codes "dc1") ∷ [])
      ∷ (some (codes "dc1.corp ") ∷ [])
      ∷ [];
}

abbrev drop_folder : Machine
drop_folder = record (host_at (codes "a")) { name = codes "evtx-x"; collector = codes "evtx" }

name_of_drop : (named_machine event_tables drop_folder).name ≡ codes "dc1"
unfolding named_machine host_of_events count_tables count_rows count_up chars_eq
name_of_drop = refl

name_evtx_drops_again_example :
    name_evtx_drops event_tables (name_evtx_drops event_tables (drop_folder ∷ three_hosts)).0
    ≡ ((name_evtx_drops event_tables (drop_folder ∷ three_hosts)).0, [])
name_evtx_drops_again_example = name_evtx_drops_again event_tables (drop_folder ∷ three_hosts)

named_after_most_frequent_example :
    times_in (codes "web") (hosts_in (event_tables.computers volume))
    ≤ times_in
        (named_machine event_tables drop_folder).name
        (hosts_in (event_tables.computers volume))
unfolding chars_eq
named_after_most_frequent_example =
    named_after_most_frequent event_tables drop_folder (codes "web") refl
