-- ===== src/SigmaPrefilter/Columns.antt =====
-- The second half of `necessary` of src/artifact_engine/core/sigma_prefilter.py: the columns that a
-- rule names, resolved to the table's. `str.casefold` is a parameter.
pub mod Sound
use artifact_engine.Prelude.{Bool, Option, none, some, List, [], ◌∷◌, if◌then◌else◌}
use artifact_engine.Prelude.Chars.{Chars, chars_eq, Unicode}
use artifact_engine.SigmaPrefilter.Needs.{Entry, Need, merge_entry}
use artifact_engine.SigmaPrefilter.Reader.{Token, read_need}

abbrev pub or_else : Option Chars → Option Chars → Option Chars
or_else none b = b
or_else (some a) b = some a

module _ (casefold : Chars → Chars) where
  -- `{c.casefold(): c for c in columns}`, read at a key: the last of the names that fold to it.
  unfoldable pub by_fold : List Chars → Chars → Option Chars
  unfolding chars_eq
  by_fold [] folded = none
  by_fold (c ∷ columns) folded =
      or_else (by_fold columns folded) (if chars_eq (casefold c) folded then some c else none)

module _ (casefold : Chars → Chars) (names : List Chars) where
  -- The loop over the need's columns, which ends at the first that is not in the table.
  abbrev pub resolve_at : Option Chars → (Chars → Option (List Entry)) → Option (List Entry)
  resolve_at none next = none
  resolve_at (some name) next = next name

  unfoldable pub resolve_from : List Entry → List Entry → Option (List Entry)
  unfolding by_fold merge_entry
  resolve_from resolved [] = some resolved
  resolve_from resolved ((col, lits) ∷ entries) =
      resolve_at (by_fold casefold names (casefold col))
        (λ name. resolve_from (merge_entry name lits resolved) entries)

  abbrev pub with_exact : Bool → Option (List Entry) → Option Need
  with_exact exact none = none
  with_exact exact (some entries) = some (record { entries = entries; exact = exact })

  unfoldable pub resolve : Option Need → Option Need
  unfolding resolve_from
  resolve none = none
  resolve (some need) = with_exact need.exact (resolve_from [] need.entries)

-- `necessary(sql, columns)`, from the tokens of the WHERE clause.
unfoldable pub necessary : Unicode → (Chars → Chars) → List Chars → List Token → Option Need
unfolding read_need resolve
necessary u casefold names ts = resolve casefold names (read_need u ts)
