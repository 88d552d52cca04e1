-- ===== src/Detection/Drops/Frequent.antt =====
-- The host that the event logs of a folder are named after is the most frequent one
-- (src/artifact_engine/core/detector.py).
use artifact_engine.Prelude.{
  ℕ, zero, suc, ◌≤◌, ◌≡◌, refl, sym, ap, ◌∙◌, subst, inl, inr, true, Option, none, some, List, [],
  ◌∷◌, ◌++◌, append-nil, append_assoc, All, ltb, Bool-cases, arith,
}
use artifact_engine.Prelude.Chars.{Chars, chars_eq, chars_eq_refl, eq_of_chars_eq, codes}
use artifact_engine.ConsoleGroups.{count_up}
use artifact_engine.Detection.{Machine}
use artifact_engine.Detection.Displays.{times_in, seen_at}
use artifact_engine.Detection.Displays.Numbered.{Counts, seen_times, count_up-Counts, times_in-snoc}
use artifact_engine.Detection.Drops.{
  EventTables, evtx_host_sample, up_to_dot, cell_text, count_host, count_rows, count_tables, leader,
  most_common, host_of_events, named_machine,
}

-- The hosts that the sampled rows name.
abbrev pub host_in : Chars → List Chars
host_in [] = []
host_in (c ∷ comp) = up_to_dot (c ∷ comp) ∷ []

abbrev pub hosts_in_rows : ℕ → List (Option Chars) → List Chars
hosts_in_rows zero rows = []
hosts_in_rows (suc left) [] = []
hosts_in_rows (suc left) (r ∷ rows) = host_in (cell_text r) ++ hosts_in_rows left rows

abbrev pub hosts_in : List (List (Option Chars)) → List Chars
hosts_in [] = []
hosts_in (rows ∷ tables) = hosts_in_rows evtx_host_sample rows ++ hosts_in tables

-- The counter has each host as often as it was named, and no entry has more.
abbrev IsCounter : List (Chars × ℕ) → List Chars → Type 0
IsCounter names hosts = Counts names hosts × All (λ (e : Chars × ℕ). e.1 ≤ times_in e.0 hosts) names

times_in-snoc_le :
    (g host : Chars) (hosts : List Chars) → times_in g hosts ≤ times_in g (hosts ++ host ∷ [])
times_in-snoc_le g host hosts = ground (arith, times_in-snoc g host hosts)

entries_grow :
    (host : Chars) (names : List (Chars × ℕ)) (hosts : List Chars)
    → All (λ (e : Chars × ℕ). e.1 ≤ times_in e.0 hosts) names
    → All (λ (e : Chars × ℕ). e.1 ≤ times_in e.0 (hosts ++ host ∷ [])) names
entries_grow host [] hosts h = tt
entries_grow host ((g, n) ∷ names) hosts h =
    (omega (arith, h.0, times_in-snoc_le g host hosts), entries_grow host names hosts h.1)

count_up-entries :
    (host : Chars) (names : List (Chars × ℕ)) (hosts : List Chars)
    → All (λ (e : Chars × ℕ). e.1 ≤ times_in e.0 hosts) names
    → All (λ (e : Chars × ℕ). e.1 ≤ times_in e.0 (hosts ++ host ∷ [])) (count_up host names)
unfolding count_up
count_up-entries host [] hosts h =
    (ground (arith, times_in-snoc host host hosts, chars_eq_refl host), tt)
count_up-entries host ((g, n) ∷ names) hosts h = elim (Bool-cases (chars_eq host g)) [
  | inl same ↦
      let e = eq_of_chars_eq host g same in
      let here : chars_eq g host ≡ true = rw e (chars_eq_refl g) in
      rw same
        (ground (arith, h.0, here, times_in-snoc g host hosts), entries_grow host names hosts h.1)
  | inr other ↦
      rw other
        (omega (arith, h.0, times_in-snoc_le g host hosts), count_up-entries host names hosts h.1)
]

count_up-IsCounter :
    (host : Chars) (names : List (Chars × ℕ)) (hosts : List Chars)
    → IsCounter names hosts
    → IsCounter (count_up host names) (hosts ++ host ∷ [])
count_up-IsCounter host names hosts h =
    (count_up-Counts host names hosts h.0, count_up-entries host names hosts h.1)

count_host-IsCounter :
    (comp : Chars) (names : List (Chars × ℕ)) (hosts : List Chars)
    → IsCounter names hosts
    → IsCounter (count_host comp names) (hosts ++ host_in comp)
count_host-IsCounter [] names hosts h = subst (λ l. IsCounter names l) (sym (append-nil hosts)) h
count_host-IsCounter (c ∷ comp) names hosts h =
    count_up-IsCounter (up_to_dot (c ∷ comp)) names hosts h

count_rows-IsCounter :
    (left : ℕ) (rows : List (Option Chars)) (names : List (Chars × ℕ)) (hosts : List Chars)
    → IsCounter names hosts
    → IsCounter (count_rows left rows names) (hosts ++ hosts_in_rows left rows)
unfolding count_rows
count_rows-IsCounter zero rows names hosts h =
    subst (λ l. IsCounter names l) (sym (append-nil hosts)) h
count_rows-IsCounter (suc left) [] names hosts h =
    subst (λ l. IsCounter names l) (sym (append-nil hosts)) h
count_rows-IsCounter (suc left) (r ∷ rows) names hosts h =
    subst (λ l. IsCounter (count_rows left rows (count_host (cell_text r) names)) l)
      (append_assoc hosts (host_in (cell_text r)) (hosts_in_rows left rows))
      (count_rows-IsCounter left rows (count_host (cell_text r) names)
        (hosts ++ host_in (cell_text r)) (count_host-IsCounter (cell_text r) names hosts h))

count_tables-IsCounter :
    (tables : List (List (Option Chars))) (names : List (Chars × ℕ)) (hosts : List Chars)
    → IsCounter names hosts
    → IsCounter (count_tables tables names) (hosts ++ hosts_in tables)
unfolding count_tables
count_tables-IsCounter [] names hosts h = subst (λ l. IsCounter names l) (sym (append-nil hosts)) h
count_tables-IsCounter (rows ∷ tables) names hosts h =
    subst (λ l. IsCounter (count_tables tables (count_rows evtx_host_sample rows names)) l)
      (append_assoc hosts (hosts_in_rows evtx_host_sample rows) (hosts_in tables))
      (count_tables-IsCounter tables (count_rows evtx_host_sample rows names)
        (hosts ++ hosts_in_rows evtx_host_sample rows)
        (count_rows-IsCounter evtx_host_sample rows names hosts h))

-- The leader's count is one of the entries', and none is greater.
leader-ge : (host : Chars) (n : ℕ) (names : List (Chars × ℕ)) → n ≤ (leader host n names).1
leader-ge host n [] = omega arith
leader-ge host n ((other, k) ∷ names) = elim (Bool-cases (ltb n k)) [
  | inl less ↦ rw (less, leader) (ground (arith, less, leader-ge other k names))
  | inr most ↦ rw (most, leader) (leader-ge host n names)
]

leader-ge_entry :
    (g : Chars) (m : ℕ) (host : Chars) (n : ℕ) (names : List (Chars × ℕ))
    → seen_at g names ≡ some m
    → m ≤ (leader host n names).1
unfolding seen_at
leader-ge_entry g m host n [] h = cc
leader-ge_entry g m host n ((other, k) ∷ names) h = elim (Bool-cases (ltb n k)) [
  | inl less ↦
      rw (less, leader)
        (ground (arith, h, leader-ge other k names, leader-ge_entry g m other k names))
  | inr most ↦
      rw (most, leader)
        (ground (arith, h, most, leader-ge host n names, leader-ge_entry g m host n names))
]

leader-le_times :
    (hosts : List Chars) (host : Chars) (n : ℕ) (names : List (Chars × ℕ))
    → n ≤ times_in host hosts
    → All (λ (e : Chars × ℕ). e.1 ≤ times_in e.0 hosts) names
    → (leader host n names).1 ≤ times_in (leader host n names).0 hosts
leader-le_times hosts host n [] h k = h
leader-le_times hosts host n ((other, m) ∷ names) h k = elim (Bool-cases (ltb n m)) [
  | inl less ↦ rw (less, leader) (leader-le_times hosts other m names k.0 k.1)
  | inr most ↦ rw (most, leader) (leader-le_times hosts host n names h k.1)
]

no_host-IsCounter : IsCounter [] []
unfolding times_in seen_at
no_host-IsCounter = ((λ l. refl), tt)

-- What the leader of a counter has is the greatest number of times.
most_common_lem :
    (g : Chars) (names : List (Chars × ℕ)) (hosts : List Chars)
    → IsCounter names hosts
    → (m : ℕ) → times_in g hosts ≡ suc m
    → (host : Chars) × (most_common names ≡ some host) × (suc m ≤ times_in host hosts)
unfolding seen_at
most_common_lem g [] hosts h m e = let stuck : none ≡ some (suc m) = h.0 g ∙ ap seen_times e in cc
most_common_lem g ((other, n) ∷ names) hosts h m e =
    let first : n ≤ times_in other hosts = h.1.0 in
    let there : seen_at g ((other, n) ∷ names) ≡ some (suc m) = h.0 g ∙ ap seen_times e in
    (
      (leader other n names).0,
      refl,
      ground (
        arith,
        there,
        leader-ge other n names,
        leader-ge_entry g (suc m) other n names,
        leader-le_times hosts other n names first h.1.1,
      ),
    )

module _ (events : EventTables) where
  named_machine_named :
      (g : Chars) (m : Machine) (k : ℕ)
      → chars_eq m.collector (codes "evtx") ≡ true
      → times_in g (hosts_in (events.computers m.path)) ≡ k
      → times_in g (hosts_in (events.computers m.path))
        ≤ times_in (named_machine events m).name (hosts_in (events.computers m.path))
  unfolding named_machine host_of_events
  named_machine_named g m zero drop_folder e = rw e (omega arith)
  named_machine_named g m (suc k) drop_folder e =
      let hosts : List Chars = hosts_in (events.computers m.path) in
      let (host, named, most) =
        most_common_lem g (count_tables (events.computers m.path) []) hosts
          (count_tables-IsCounter (events.computers m.path) [] [] no_host-IsCounter) k e in
      rw (drop_folder, named, e) most

  -- The machine of a folder of loose event logs bears the name of a host that no other exceeds in the
  -- sampled rows, if these name any: no host is named more often in them than its name.
  pub named_after_most_frequent :
      (m : Machine) (g : Chars)
      → chars_eq m.collector (codes "evtx") ≡ true
      → times_in g (hosts_in (events.computers m.path))
        ≤ times_in (named_machine events m).name (hosts_in (events.computers m.path))
  named_after_most_frequent m g drop_folder =
      named_machine_named g m (times_in g (hosts_in (events.computers m.path))) drop_folder refl
