-- ===== src/Detection/Displays.antt =====
-- The console labels of the machines (src/artifact_engine/core/detector.py).
pub mod Called
pub mod Numbered
use artifact_engine.Prelude.{
  ℕ, zero, suc, ◌+◌, ◌≡◌, refl, sym, ap, ◌∙◌, inl, inr, Bool, true, false, not, ◌&&◌, ◌||◌, Option,
  none, some, List, [], ◌∷◌, ◌++◌, map, ltb, leb, ◌==◌, if◌then◌else◌, Bool-cases, arith,
}
use artifact_engine.Prelude.Chars.{Chars, chars_eq, chars_eq_refl, eq_of_chars_eq, codes}
use artifact_engine.ConsoleGroups.{take, drop, count_up}
use artifact_engine.Detection.{Machine}
use artifact_engine.Detection.Walk.{starts_vss}

-- `\d` of `re`, and `str` of a number.
pub record Digits : Type 0 where
  pub is_digit : ℕ → Bool
  pub str_of : ℕ → Chars

-- `name.replace("_VSS", "-VSS")`
abbrev pub replace_vss : Chars → Chars
replace_vss [] = []
replace_vss (c ∷ s) = (if c == b'_' && starts_vss s then b'-' else c) ∷ replace_vss s

-- `_provenance_label`
unfoldable pub provenance_label : Machine → Chars
provenance_label m =
    let n : Chars = if m.is_vss then replace_vss m.name else m.name in
    if m.has_lr then n ++ codes "-LR" else n

-- `counts[base]`
unfoldable pub times_in : Chars → List Chars → ℕ
unfolding chars_eq
times_in base [] = 0
times_in base (l ∷ labels) = (if chars_eq base l then 1 else 0) + times_in base labels

abbrev pub digits_run : (ℕ → Bool) → Chars → ℕ × Chars
digits_run is_digit [] = (0, [])
digits_run is_digit (c ∷ s) =
    let (n, rest) = digits_run is_digit s in if is_digit c then (suc n, rest) else (0, c ∷ s)

-- `$`
abbrev pub at_end : Chars → Bool
at_end [] = true
at_end (c ∷ []) = c == 10
at_end (c ∷ d ∷ s) = false

-- `seen[label]`, if `label in seen`.
unfoldable pub seen_at : Chars → List (Chars × ℕ) → Option ℕ
unfolding chars_eq
seen_at label [] = none
seen_at label ((l, n) ∷ seen) =
    let rest = seen_at label seen in if chars_eq label l then some n else rest

module _ (digits : Digits) where
  -- Eight to fourteen digits, and the end.
  abbrev pub is_date : Chars → Bool
  is_date s = let (n, rest) = digits_run digits.is_digit s in leb 8 n && (leb n 14 && at_end rest)

  -- `_source_tag`
  abbrev pub source_tag : Chars → Chars
  source_tag [] = []
  source_tag (c ∷ s) =
      let rest = source_tag s in
      if is_date (c ∷ s)
      then take 4 (c ∷ s) ++ (b'-' ∷ take 2 (drop 4 (c ∷ s)) ++ (b'-' ∷ take 2 (drop 6 (c ∷ s))))
      else rest

  abbrev pub with_tag : Chars → Chars → Chars → Chars
  with_tag base source [] = base ++ (codes " (" ++ (source ++ codes ")"))
  with_tag base source (c ∷ tag) = base ++ (codes " [" ++ ((c ∷ tag) ++ codes "]"))

  -- The label of a machine whose base label is not its own.
  unfoldable pub tagged : Machine → Chars
  unfolding provenance_label
  tagged m = with_tag (provenance_label m) m.source (source_tag m.source)

  -- `label`, or `label#2` and so on.
  abbrev pub with_number : Chars → Option ℕ → Chars
  with_number label none = label
  with_number label (some n) = label ++ (b'#' ∷ digits.str_of (suc n))

  abbrev pub is_alone : List Chars → Machine → Bool
  is_alone labels m = leb (times_in (provenance_label m) labels) 1

  -- The loop of `assign_display_names`, with the base labels of all machines.
  unfoldable pub assign_from : List Chars → List (Chars × ℕ) → List Machine → List Machine
  unfolding seen_at count_up tagged provenance_label times_in
  assign_from labels seen [] = []
  assign_from labels seen (m ∷ machines) =
      record m {
        display =
            if is_alone labels m
            then provenance_label m
            else with_number (tagged m) (seen_at (tagged m) seen);
      }
      ∷ assign_from labels (if is_alone labels m then seen else count_up (tagged m) seen) machines

  -- `assign_display_names`
  unfoldable pub assign_display_names : List Machine → List Machine
  unfolding assign_from provenance_label
  assign_display_names machines = assign_from (map provenance_label machines) [] machines
