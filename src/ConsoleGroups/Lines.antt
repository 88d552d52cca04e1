-- ===== src/ConsoleGroups/Lines.antt =====
-- Each machine is on one console line, together with those of its host
-- (src/artifact_engine/core/console_groups.py).
use artifact_engine.Prelude.{
  ℕ, suc, ◌+◌, ◌≡◌, refl, ◌∙◌, inl, inr, ◌&&◌, List, [], ◌∷◌, ◌++◌, length, ltb, leb, ◌==◌,
  if◌then◌else◌, arith, Bool-cases,
}
use artifact_engine.ConsoleGroups.{
  Host, Builtins, Key, key_eq, Group, add_index, key, gather, Line, label_lines, fix, group,
}

-- How often an index is in the lists.
abbrev pub occurrences : ℕ → List ℕ → ℕ
occurrences j [] = 0
occurrences j (i ∷ indexes) = (if i == j then 1 else 0) + occurrences j indexes

occurrences-append :
    (j : ℕ) (xs ys : List ℕ) → occurrences j (xs ++ ys) ≡ occurrences j xs + occurrences j ys
occurrences-append j [] ys = omega arith
occurrences-append j (x ∷ xs) ys = rw (occurrences-append j xs ys) (omega arith)

abbrev pub places : {A : Type 0} → ℕ → List (A × List ℕ) → ℕ
places j [] = 0
places j ((a, members) ∷ groups) = occurrences j members + places j groups

places-add_index :
    (j i : ℕ) (k : Key) (groups : List Group)
    → places j (add_index i k groups) ≡ places j groups + (if i == j then 1 else 0)
unfolding add_index
places-add_index j i k [] = omega arith
places-add_index j i k ((l, members) ∷ groups) = elim (Bool-cases (key_eq k l)) [
  | inl same ↦ rw (same, occurrences-append j members (i ∷ [])) (omega arith)
  | inr other ↦ rw (other, places-add_index j i k groups) (omega arith)
]

module _ (b : Builtins) where
  places-gather :
      (j i : ℕ) (machines : List Host) (groups : List Group)
      → places j (gather b i machines groups)
        ≡ places j groups + (if leb i j && ltb j (i + length machines) then 1 else 0)
  unfolding gather
  places-gather j i [] groups = ground arith
  places-gather j i (m ∷ machines) groups =
      places-gather j (suc i) machines (add_index i (key b i m) groups)
      ∙ rw (places-add_index j i (key b i m) groups) (ground arith)

  places-label_lines :
      (j : ℕ) (machines : List Host) (groups : List Group)
      → places j (label_lines b machines groups) ≡ places j groups
  places-label_lines j machines [] = refl
  places-label_lines j machines ((k, members) ∷ groups) =
      rw (places-label_lines j machines groups) refl

  places-fix :
      (j : ℕ) (machines : List Host) (out lines : List Line)
      → places j (fix b machines out lines) ≡ places j lines
  places-fix j machines out [] = refl
  places-fix j machines out ((text, members) ∷ lines) = rw (places-fix j machines out lines) refl

  -- Every machine's index is on the lines exactly once, and no other index is on them.
  pub places-group :
      (machines : List Host) (j : ℕ)
      → places j (group b machines) ≡ (if ltb j (length machines) then 1 else 0)
  unfolding group
  places-group machines j =
      let groups = gather b 0 machines [] in
      let out = label_lines b machines groups in
      places-fix j machines out out
      ∙ places-label_lines j machines groups
      ∙ places-gather j 0 machines []
      ∙ ground arith
