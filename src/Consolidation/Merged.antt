-- ===== src/Consolidation/Merged.antt =====
-- Which machines `plan_units` (src/artifact_engine/core/consolidate.py) folds into one unit.
use artifact_engine.Prelude.{
  ◌≡◌, refl, sym, ap, ◌∙◌, inl, inr, Bool, true, false, not, ◌&&◌, ◌||◌, Option, none, some, List,
  [], ◌∷◌, ◌++◌, map, any, all, keep, all-append, all-keep, all-kept, all-and, Bool-cases, arith,
}
use artifact_engine.Prelude.Chars.{chars_eq, codes, chars_eq_refl, eq_of_chars_eq}
use artifact_engine.Prelude.Sorting.{sorted, all-sorted}
use artifact_engine.Prelude.Options.{◌>>=◌}
use artifact_engine.Consolidation.{
  Machine, Builtins, Key, same_key, Result, Planned, Groups, solo, append_to, is_memory, group_all,
  unit_key, vss_lt, is_snapshot, is_live, machines_of, units_from, units_of, units_of_groups,
  plan_units,
}
use artifact_engine.Consolidation.Labels.{OneNumber, labels_for-some}
use artifact_engine.Consolidation.Once.{plan_units_once}

and_true : (p q : Bool) → p ≡ true → q ≡ true → (p && q) ≡ true
and_true p q h k = rw (h, k) refl

module _ (b : Builtins) where
  same_key_refl : (k : Key b) → same_key b k k ≡ true
  same_key_refl k = rw (chars_eq_refl k.0, chars_eq_refl k.1) refl

  eq_of_same_key : (k l : Key b) → same_key b k l ≡ true → k ≡ l
  eq_of_same_key (k, m) (l, n) h =
      let first = eq_of_chars_eq k l (ground (arith, h)) in
      let second = eq_of_chars_eq m n (ground (arith, h)) in cc (first, second)

  -- A snapshot of one host in one collection, and no memory image.
  abbrev pub is_sibling : Key b → Machine → Bool
  is_sibling k m = same_key b k (unit_key b m) && not (chars_eq m.collector (codes "memory"))

  -- One machine; or a live volume and snapshots that have its key, none of them a memory image.
  abbrev pub are_one_host : List Machine → Bool
  are_one_host [] = false
  are_one_host (m ∷ []) = true
  are_one_host (m ∷ x ∷ ms) =
      (not m.is_vss && is_sibling (unit_key b m) m)
      && all (λ y. is_sibling (unit_key b m) y && y.is_vss) (x ∷ ms)

  module _ (R : Type 0) where
    abbrev in_group : Key b → Result b R → Bool
    in_group k x = is_sibling k x.0

    abbrev are_grouped : Groups b R → Bool
    are_grouped = all (λ g. all (in_group g.0) g.1)

    are_grouped-append_to :
        (k : Key b) (x : Result b R) (groups : Groups b R)
        → in_group k x ≡ true
        → are_grouped groups ≡ true
        → are_grouped (append_to b R k x groups) ≡ true
    unfolding append_to
    are_grouped-append_to k x [] h g = rw h refl
    are_grouped-append_to k x ((l, xs) ∷ groups) h g = elim (Bool-cases (same_key b k l)) [
      | inl same ↦
          let here : in_group l x ≡ true =
            sym (ap (λ i. in_group i x) (eq_of_same_key k l same)) ∙ h in
          rw (same, all-append (in_group l) xs (x ∷ []), here) (ground (arith, g))
      | inr other ↦ rw other (ground (arith, g, are_grouped-append_to k x groups h))
    ]

    are_grouped-group_all :
        (results : List (Result b R)) (groups : Groups b R)
        → are_grouped groups ≡ true
        → are_grouped (group_all b R results groups) ≡ true
    unfolding group_all
    are_grouped-group_all [] groups g = g
    are_grouped-group_all (x ∷ results) groups g = elim (Bool-cases (is_memory b R x)) [
      | inl memory ↦ rw memory (are_grouped-group_all results groups g)
      | inr other ↦ rw other (
          are_grouped-group_all results (append_to b R (unit_key b x.0) x groups) (
            are_grouped-append_to (unit_key b x.0) x groups
              (rw (same_key_refl (unit_key b x.0), other) refl) g))
    ]

    all-machines_of :
        (test : Machine → Bool) (xs : List (Result b R))
        → all test (machines_of b R xs) ≡ all (λ x. test x.0) xs
    all-machines_of test [] = refl
    all-machines_of test (x ∷ xs) = rw (all-machines_of test xs) refl

    abbrev pub are_sound : List (Planned b R) → Bool
    are_sound = all (λ u. are_one_host u.0.members)

    are_sound-solo : (xs : List (Result b R)) → are_sound (map (solo b R) xs) ≡ true
    are_sound-solo [] = refl
    are_sound-solo (x ∷ xs) = are_sound-solo xs

    joined_sound :
        (here rest : Option (List (Planned b R))) (units : List (Planned b R))
        → ((u : List (Planned b R)) → here ≡ some u → are_sound u ≡ true)
        → ((u : List (Planned b R)) → rest ≡ some u → are_sound u ≡ true)
        → (here >>= λ u. rest >>= λ t. some (u ++ t)) ≡ some units
        → are_sound units ≡ true
    joined_sound none rest units h r p = cc p
    joined_sound (some u) none units h r p = cc p
    joined_sound (some u) (some t) units h r p =
        let e : u ++ t ≡ units = cc p in
        sym (ap are_sound e)
        ∙ all-append (λ x. are_one_host x.0.members) u t
        ∙ and_true (are_sound u) (are_sound t) (h u refl) (r t refl)

    merged-IsOneHost :
        (k : Key b) (x y : Result b R) (vss : List (Result b R))
        → in_group k x ≡ true
        → x.0.is_vss ≡ false
        → all (in_group k) (y ∷ vss) ≡ true
        → all (is_snapshot b R) (y ∷ vss) ≡ true
        → are_one_host (machines_of b R (x ∷ y ∷ vss)) ≡ true
    merged-IsOneHost k x y vss h live g s =
        let e : k ≡ unit_key b x.0 = eq_of_same_key k (unit_key b x.0) (ground (arith, h)) in
        let own : is_sibling (unit_key b x.0) x.0 ≡ true = sym (ap (λ i. in_group i x) e) ∙ h in
        let others : all (in_group (unit_key b x.0)) (y ∷ vss) ≡ true =
          sym (ap (λ i. all (in_group i) (y ∷ vss)) e) ∙ g in
        let both =
          all-machines_of (λ m. is_sibling (unit_key b x.0) m && m.is_vss) (y ∷ vss)
          ∙ all-and (in_group (unit_key b x.0)) (is_snapshot b R) (y ∷ vss) others s in
        and_true (not x.0.is_vss && is_sibling (unit_key b x.0) x.0)
          (all (λ m. is_sibling (unit_key b x.0) m && m.is_vss) (machines_of b R (y ∷ vss)))
          (and_true (not x.0.is_vss) (is_sibling (unit_key b x.0) x.0) (ap not live) own) both

    module _ (one : OneNumber b) where
      units_from_sound :
          (k : Key b) (members live vss : List (Result b R)) (units : List (Planned b R))
          → all (in_group k) live ≡ true
          → all (is_live b R) live ≡ true
          → all (in_group k) vss ≡ true
          → all (is_snapshot b R) vss ≡ true
          → units_from b R members live vss ≡ some units
          → are_sound units ≡ true
      units_from_sound k members [] vss units g l h s p =
          let e : map (solo b R) members ≡ units = cc p in
          sym (ap are_sound e) ∙ are_sound-solo members
      units_from_sound k members (x ∷ live) [] units g l h s p =
          let e : map (solo b R) members ≡ units = cc p in
          sym (ap are_sound e) ∙ are_sound-solo members
      units_from_sound k members (x ∷ live) (y ∷ vss) units g l h s p =
          let (labels, found, new) = labels_for-some b one (machines_of b R (x ∷ y ∷ vss)) in
          let e = some_eq (rw found at p) in
          sym (ap are_sound e)
          ∙ rw (merged-IsOneHost k x y vss (ground (arith, g)) (ground (arith, l)) h s)
              (are_sound-solo live)
        where
          some_eq : {u v : List (Planned b R)} → some u ≡ some v → u ≡ v
          some_eq e = cc e

      units_of_sound :
          (k : Key b) (members : List (Result b R)) (units : List (Planned b R))
          → all (in_group k) members ≡ true
          → units_of b R members ≡ some units
          → are_sound units ≡ true
      units_of_sound k members units g =
          units_from_sound k members (keep (is_live b R) members)
            (sorted (vss_lt b R) (keep (is_snapshot b R) members)) units
            (all-keep (in_group k) (is_live b R) members g) (all-kept (is_live b R) members)
            (all-sorted (vss_lt b R) (in_group k) (keep (is_snapshot b R) members)
              ∙ all-keep (in_group k) (is_snapshot b R) members g)
            (all-sorted (vss_lt b R) (is_snapshot b R) (keep (is_snapshot b R) members)
              ∙ all-kept (is_snapshot b R) members)

      units_of_groups_sound :
          (groups : Groups b R) (units : List (Planned b R))
          → are_grouped groups ≡ true
          → units_of_groups b R groups ≡ some units
          → are_sound units ≡ true
      unfolding units_of_groups
      units_of_groups_sound [] units g p = let e : [] ≡ units = cc p in ap are_sound (sym e)
      units_of_groups_sound ((k, members) ∷ groups) units g p =
          joined_sound (units_of b R members) (units_of_groups b R groups) units
            (λ u. units_of_sound k members u (ground (arith, g)))
            (λ u. units_of_groups_sound groups u (ground (arith, g))) p

      planned_sound :
          (merge_vss : Bool) (results : List (Result b R)) (units : List (Planned b R))
          → plan_units b R merge_vss results ≡ some units
          → are_sound units ≡ true
      unfolding plan_units
      planned_sound merge_vss results units p =
          elim (Bool-cases (not merge_vss || not (any (is_snapshot b R) results))) [
            | inl apart ↦
                let e : map (solo b R) results ≡ units = cc (rw apart at p) in
                sym (ap are_sound e) ∙ are_sound-solo results
            | inr merged ↦
                joined_sound (some (map (solo b R) (keep (is_memory b R) results)))
                  (units_of_groups b R (group_all b R results [])) units
                  (λ u q.
                    let e : map (solo b R) (keep (is_memory b R) results) ≡ u = cc q in
                    sym (ap are_sound e) ∙ are_sound-solo (keep (is_memory b R) results))
                  (λ u.
                    units_of_groups_sound (group_all b R results []) u
                      (are_grouped-group_all results [] refl))
                  (rw merged at p)
          ]

    -- Every unit that is planned has one machine, or a live volume in front of snapshots of the same
    -- host in the same collection, with no memory image among them. This when numbers are written
    -- apart.
    pub plan_units_merges :
        (merge_vss : Bool) (results : List (Result b R))
        → OneNumber b
        → (units : List (Planned b R)) × (plan_units b R merge_vss results ≡ some units)
          × (all (λ u. are_one_host u.0.members) units ≡ true)
    plan_units_merges merge_vss results one =
        let (units, planned, machines, runs) =
          plan_units_once b R merge_vss results (λ m. false) (λ r. false) one in
        (units, planned, planned_sound one merge_vss results units planned)
