-- ===== src/SigmaPrefilter/Gate/Sound.antt =====
-- What `Gate` of src/artifact_engine/core/sigma_prefilter.py promises: it passes every row that a
-- rule matches.
use artifact_engine.Prelude.{
  ℕ, zero, suc, ◌<◌, ◌≡◌, refl, sym, ◌⊎◌, inl, inr, true, Option, none, some, List, [], ◌∷◌, arith,
  Any, All, Bool-cases, subst, Any-mono, length, get_elem?, Option-cases,
}
use artifact_engine.Prelude.Chars.{Chars, chars_eq, Unicode, lower}
use artifact_engine.Prelude.Sorting.{sorted, Any-sorted}
use artifact_engine.SigmaPrefilter.Needs.{Entry, Need, merge_entries}
use artifact_engine.SigmaPrefilter.Needs.Sound.{
  Row, HasOne, Holds, Passes, merge_entries_old, merge_entries_new,
}
use artifact_engine.SigmaPrefilter.Columns.{necessary}
use artifact_engine.SigmaPrefilter.Columns.Sound.{any_case, necessary_sound}
use artifact_engine.SigmaPrefilter.Reader.Grammar.{Expr, print_expr, Meaning, TrueExpr}
use artifact_engine.SigmaPrefilter.Trie.{trie_pattern}
use artifact_engine.SigmaPrefilter.Gate.Found.{search-trie_pattern}
use artifact_engine.SigmaPrefilter.Gate.{
  Search, merge_needs, entry_lt, Columns, column_index, Check, checks_from, gate_checks, gate,
}

-- The row by its column names, as the rules read it.
abbrev pub value_at : Option (Option Chars) → Option Chars
value_at none = none
value_at (some v) = v

abbrev pub cell : List (Option Chars) → Option ℕ → Option Chars
cell row none = none
cell row (some i) = value_at (get_elem? row i)

abbrev pub by_name : Columns → List (Option Chars) → Row
by_name columns row col = cell row (column_index columns col)

-- The row has a value at each column's index.
abbrev pub Fits : Columns → List (Option Chars) → Type 0
Fits columns row = All (λ column. column.1 < length row) columns

get_elem?-some :
    (row : List (Option Chars)) (i : ℕ)
    → i < length row
    → (v : Option Chars) × (get_elem? row i ≡ some v)
get_elem?-some [] i h = absurd (omega arith)
get_elem?-some (v ∷ row) zero h = (v, refl)
get_elem?-some (v ∷ row) (suc i) h = get_elem?-some row i (omega arith)

column_index-Fits :
    (columns : Columns) (row : List (Option Chars)) (col : Chars) (i : ℕ)
    → Fits columns row
    → column_index columns col ≡ some i
    → i < length row
unfolding column_index
column_index-Fits [] row col i h e = cc
column_index-Fits ((name, j) ∷ columns) row col i h e = elim (Bool-cases (chars_eq name col)) [
  | inl same ↦ let k : j ≡ i = ground arith in rw k at h.0
  | inr other ↦ column_index-Fits columns row col i h.1 (rw other at e)
]

module _ (u : Unicode) (re : Search) (columns : Columns) (row : List (Option Chars)) where
  -- A check whose column holds one of its literals passes the row, and none hides a later one.
  gate-cons :
      (i : ℕ) (lits : List Chars) (checks : List Check) (v : Option Chars)
      → get_elem? row i ≡ some v
      → HasOne u v lits ⊎ (gate u re row checks ≡ some true)
      → gate u re row ((i, trie_pattern lits) ∷ checks) ≡ some true
  unfolding gate
  gate-cons i lits checks none e (inl h) = absurd h
  gate-cons i lits checks none e (inr h) = rw e h
  gate-cons i lits checks (some v) e (inl h) =
      rw (e, search-trie_pattern re (lower u v) lits h) refl
  gate-cons i lits checks (some v) e (inr h) =
      elim (Bool-cases (re.search (trie_pattern lits) (lower u v))) [
        | inl hit ↦ rw (e, hit) refl
        | inr miss ↦ rw (e, miss) h
      ]

  checks_from-gate :
      (entries : List Entry) (checks : List Check)
      → Fits columns row
      → checks_from columns entries ≡ some checks
      → Any (Holds u (by_name columns row)) entries
      → gate u re row checks ≡ some true
  unfolding checks_from
  checks_from-gate [] checks fits e h = absurd h
  checks_from-gate ((col, lits) ∷ entries) checks fits e h =
      elim (Option-cases (column_index columns col)) [
        | inl absent ↦ cc (rw absent at e)
        | inr (i, found) ↦ elim (Option-cases (checks_from columns entries)) [
          | inl failed ↦ cc (rw (found, failed) at e)
          | inr (others, made) ↦
              let whole : (i, trie_pattern lits) ∷ others ≡ checks = cc (rw (found, made) at e) in
              let (v, at) = get_elem?-some row i (column_index-Fits columns row col i fits found) in
              subst (λ cs. gate u re row cs ≡ some true) whole
                (gate-cons i lits others v at (elim h [
                  | inl here ↦ inl (rw (found, at) at here)
                  | inr there ↦ inr (checks_from-gate entries others fits made there)
                ]))
        ]
      ]

  merge_needs_old :
      (out : List Entry) (needs : List Need)
      → Any (Holds u (by_name columns row)) out
      → Any (Holds u (by_name columns row)) (merge_needs out needs)
  unfolding merge_needs
  merge_needs_old out [] h = h
  merge_needs_old out (need ∷ needs) h =
      merge_needs_old (merge_entries out need.entries) needs
        (merge_entries_old u (by_name columns row) out need.entries h)

  merge_needs_new :
      (out : List Entry) (needs : List Need)
      → Any (λ need. Passes u (by_name columns row) (some need)) needs
      → Any (Holds u (by_name columns row)) (merge_needs out needs)
  unfolding merge_needs
  merge_needs_new out [] h = absurd h
  merge_needs_new out (need ∷ needs) (inl h) =
      merge_needs_old (merge_entries out need.entries) needs
        (merge_entries_new u (by_name columns row) out need.entries h)
  merge_needs_new out (need ∷ needs) (inr h) =
      merge_needs_new (merge_entries out need.entries) needs h

  -- The gate of some needs passes each row that meets one of them.
  pub gate-Passes :
      (needs : List Need) (checks : List Check)
      → Fits columns row
      → gate_checks columns needs ≡ some checks
      → Any (λ need. Passes u (by_name columns row) (some need)) needs
      → gate u re row checks ≡ some true
  unfolding gate_checks
  gate-Passes needs checks fits e h =
      checks_from-gate (sorted entry_lt (merge_needs [] needs)) checks fits e (
        Any-sorted entry_lt (Holds u (by_name columns row)) (merge_needs [] needs)
          (merge_needs_new [] needs h))

  -- A row at which the condition of a rule is true passes the gate made for needs among which is the
  -- rule's.
  pub gate_keeps_match :
      (casefold : Chars → Chars) (names : List Chars) (meaning : Meaning) (e : Expr) (need : Need)
      (needs : List Need) (checks : List Check)
      → necessary u casefold names (print_expr e []) ≡ some need
      → Any (λ n. n ≡ need) needs
      → gate_checks columns needs ≡ some checks
      → Fits columns row
      → TrueExpr (any_case casefold names (by_name columns row)) meaning e
      → gate u re row checks ≡ some true
  gate_keeps_match casefold names meaning e need needs checks read among made fits holds =
      gate-Passes needs checks fits made (
        Any-mono (λ n. n ≡ need) (λ n. Passes u (by_name columns row) (some n)) needs
          (λ n same.
            subst (λ x. Passes u (by_name columns row) (some x)) (sym same)
              (subst (Passes u (by_name columns row)) read
                (necessary_sound u casefold names (by_name columns row) meaning e holds)))
          among)
