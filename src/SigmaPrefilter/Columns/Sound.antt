-- ===== src/SigmaPrefilter/Columns/Sound.antt =====
-- Resolving the columns of a need (`necessary` of src/artifact_engine/core/sigma_prefilter.py) keeps
-- what it says of a row.
use artifact_engine.Prelude.{inl, inr, Option, none, some, List, [], ◌∷◌, Any, Option-cases}
use artifact_engine.Prelude.Chars.{Chars, Unicode}
use artifact_engine.SigmaPrefilter.Needs.{Entry, Need, merge_entry}
use artifact_engine.SigmaPrefilter.Needs.Sound.{
  Row, Holds, Passes, merge_entry_old, merge_entry_new,
}
use artifact_engine.SigmaPrefilter.Reader.{read_need}
use artifact_engine.SigmaPrefilter.Reader.Grammar.{Expr, print_expr, Meaning, TrueExpr}
use artifact_engine.SigmaPrefilter.Reader.Sound.{read_need_sound}
use artifact_engine.SigmaPrefilter.Columns.{by_fold, resolve_from, resolve, necessary}

-- A row by its column names in any case.
abbrev pub value_of : Row → Option Chars → Option Chars
value_of row none = none
value_of row (some name) = row name

abbrev pub any_case : (Chars → Chars) → List Chars → Row → Row
any_case casefold names row col = value_of row (by_fold casefold names (casefold col))

module _ (u : Unicode) (casefold : Chars → Chars) (names : List Chars) (row : Row) where
  -- What `resolve_from` makes of the entries holds of the row when one of them, or of those before,
  -- did.
  abbrev HoldsIn : Option (List Entry) → Type 0
  HoldsIn none = Unit
  HoldsIn (some entries) = Any (Holds u row) entries

  resolve_from-old :
      (resolved entries : List Entry)
      → Any (Holds u row) resolved
      → HoldsIn (resolve_from casefold names resolved entries)
  unfolding resolve_from
  resolve_from-old resolved [] h = h
  resolve_from-old resolved ((col, lits) ∷ entries) h =
      elim (Option-cases (by_fold casefold names (casefold col))) [
        | inl absent ↦ rw absent tt
        | inr (name, found) ↦ rw found (
            resolve_from-old (merge_entry name lits resolved) entries
              (merge_entry_old u row name lits resolved h))
      ]

  resolve_from-new :
      (resolved entries : List Entry)
      → Any (Holds u (any_case casefold names row)) entries
      → HoldsIn (resolve_from casefold names resolved entries)
  unfolding resolve_from
  resolve_from-new resolved [] h = absurd h
  resolve_from-new resolved ((col, lits) ∷ entries) h =
      elim (Option-cases (by_fold casefold names (casefold col))) [
        | inl absent ↦ rw absent tt
        | inr (name, found) ↦ rw found (elim h [
          | inl here ↦
              resolve_from-old (merge_entry name lits resolved) entries
                (merge_entry_new u row name lits resolved (rw found at here))
          | inr there ↦ resolve_from-new (merge_entry name lits resolved) entries there
        ])
      ]

  -- A row that meets a need by its columns in any case meets the resolved need by their names.
  pub resolve-Passes :
      (need : Option Need)
      → Passes u (any_case casefold names row) need
      → Passes u row (resolve casefold names need)
  unfolding resolve
  resolve-Passes none h = tt
  resolve-Passes (some need) h = elim (Option-cases (resolve_from casefold names [] need.entries)) [
    | inl failed ↦ rw failed tt
    | inr (entries, made) ↦ rw made (rw made at (resolve_from-new [] need.entries h))
  ]

  -- A row at which a rule's condition is true, its columns in any case, meets what `necessary` gives.
  pub necessary_sound :
      (meaning : Meaning) (e : Expr)
      → TrueExpr (any_case casefold names row) meaning e
      → Passes u row (necessary u casefold names (print_expr e []))
  unfolding necessary
  necessary_sound meaning e h =
      resolve-Passes (read_need u (print_expr e []))
        (read_need_sound u (any_case casefold names row) meaning e h)
