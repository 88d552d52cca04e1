-- ===== src/SigmaPrefilter/Gate.antt =====
-- `Gate` of src/artifact_engine/core/sigma_prefilter.py: one test per row for a set of rules. How
-- `re` searches is a parameter.
pub mod Found
pub mod Sound
mod Tests
use artifact_engine.Prelude.{
  ℕ, ◌≡◌, Bool, true, false, Option, none, some, List, [], ◌∷◌, ltb, ◌==◌, get_elem?, if◌then◌else◌,
}
use artifact_engine.Prelude.Chars.{chars_lt, Chars, chars_eq, Occurs, Unicode, lower}
use artifact_engine.Prelude.Sorting.{sorted}
use artifact_engine.SigmaPrefilter.Needs.{Entry, Need, merge_entries}
use artifact_engine.SigmaPrefilter.Trie.{Pattern, trie_pattern}
use artifact_engine.SigmaPrefilter.Trie.Sound.{Matches}

-- `re.compile(pattern).search(text)` finds a match exactly when a part of the text is matched.
pub record Search : Type 0 where
  pub search : Pattern → Chars → Bool
  pub found : (p : Pattern) (w s : Chars) → Matches p w → Occurs w s → search p s ≡ true
  pub of_found :
      (p : Pattern) (s : Chars) → search p s ≡ true → (w : Chars) × Matches p w × Occurs w s

-- `merged`
unfoldable pub merge_needs : List Entry → List Need → List Entry
unfolding merge_entries
merge_needs out [] = out
merge_needs out (need ∷ needs) = merge_needs (merge_entries out need.entries) needs

abbrev pub entry_lt : Entry → Entry → Bool
entry_lt a b = chars_lt a.0 b.0

-- `columns`, a dict from names to indexes.
abbrev pub Columns : Type 0
Columns = List (Chars × ℕ)

unfoldable pub column_index : Columns → Chars → Option ℕ
unfolding chars_eq
column_index [] col = none
column_index ((name, i) ∷ columns) col =
    if chars_eq name col then some i else column_index columns col

abbrev pub Check : Type 0
Check = ℕ × Pattern

abbrev pub with_check : Option ℕ → Pattern → Option (List Check) → Option (List Check)
with_check none p checks = none
with_check (some i) p none = none
with_check (some i) p (some checks) = some ((i, p) ∷ checks)

-- The loop of `__init__`; nothing is its KeyError.
unfoldable pub checks_from : Columns → List Entry → Option (List Check)
unfolding column_index
checks_from columns [] = some []
checks_from columns ((col, lits) ∷ entries) =
    with_check (column_index columns col) (trie_pattern lits) (checks_from columns entries)

-- `Gate(needs, columns)`
unfoldable pub gate_checks : Columns → List Need → Option (List Check)
unfolding checks_from merge_needs sorted chars_lt
gate_checks columns needs = checks_from columns (sorted entry_lt (merge_needs [] needs))

-- `gate(row)`; nothing is the IndexError of a row that is too short.
module _ (u : Unicode) (re : Search) (row : List (Option Chars)) where
  -- The test of one value, in front of the tests behind it.
  abbrev pub check_value : Option (Option Chars) → Pattern → Option Bool → Option Bool
  check_value none p later = none
  check_value (some none) p later = later
  check_value (some (some v)) p later = if re.search p (lower u v) then some true else later

  unfoldable pub gate : List Check → Option Bool
  unfolding lower
  gate [] = some false
  gate ((i, p) ∷ checks) = check_value (get_elem? row i) p (gate checks)
