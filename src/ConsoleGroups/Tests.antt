-- ===== src/ConsoleGroups/Tests.antt =====
-- Runs of src/artifact_engine/core/console_groups.py on a host with a snapshot and a log drop.
use artifact_engine.Prelude.{
  ◌≡◌, refl, true, false, List, [], ◌∷◌, if◌then◌else◌, length, ltb, ◌+◌, ◌-◌,
}
use artifact_engine.Prelude.Chars.{Chars, codes, ascii_lower, plain}
use artifact_engine.ConsoleGroups.{Host, Builtins, take, group}
use artifact_engine.ConsoleGroups.Lines.{places, places-group}

-- Snapshots here are named with `_VSS1`, and counts have one digit.
abbrev builtins : Builtins
builtins = record {
  unicode = plain;
  without_vss = λ s. take (length s - 5) s;
  strip = λ s. s;
  upper = λ s. codes "UAC";
  digits = λ n. (b'0' + n) ∷ [];
}

abbrev machine : Chars → Chars → Host
machine name collector = record {
  name = name;
  os = codes "windows";
  collector = collector;
  display = [];
  is_vss = false;
  has_lr = false;
}

abbrev live : Host
live = machine (codes "HOST") (codes "kape")

abbrev snapshot : Host
snapshot = record (machine (codes "host_VSS1") (codes "kape")) { is_vss = true }

abbrev drop : Host
drop = machine (codes "logs") (codes "evtx")

abbrev machines : List Host
machines = live ∷ drop ∷ snapshot ∷ []

group_run :
    group builtins machines ≡ (codes "HOST [1 VSS]", 0 ∷ 2 ∷ []) ∷ (codes "logs", 1 ∷ []) ∷ []
unfolding group ascii_lower
group_run = refl

places-group_example :
    places 2 (group builtins machines) ≡ (if ltb 2 (length machines) then 1 else 0)
places-group_example = places-group builtins machines 2
