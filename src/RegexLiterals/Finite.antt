-- ===== src/RegexLiterals/Finite.antt =====
-- `_finite_node` and `_finite` of src/artifact_engine/core/regex_literals.py: every text that a
-- part of a regex can match, when they are few.
pub mod Sound
use artifact_engine.Prelude.{
  ℕ, zero, suc, ◌+◌, ◌-◌, Bool, true, false, Option, none, some, List, [], ◌∷◌, ◌++◌, ltb, leb,
  ◌==◌, length, if◌then◌else◌,
}
use artifact_engine.Prelude.Chars.{Chars}
use artifact_engine.Prelude.CharSets.{union, cross}
use artifact_engine.RegexLiterals.Tree.{
  ClassItem, item, range, negate, category, Kind, max_repeat, min_repeat, possessive_repeat, Node,
  literal, at, class, subpattern, branch, repeat, atomic, other, Items, nil, cons, Branches,
  no_branch, or_branch,
}

abbrev pub max_strings : ℕ
max_strings = 256

abbrev pub max_class : ℕ
max_class = 12

-- `chr(x) for x in range(first, first + count)`
unfoldable pub chars_from : ℕ → ℕ → List Chars
chars_from first zero = []
chars_from first (suc count) = (first ∷ []) ∷ chars_from (first + 1) count

-- `range(first, last + 1)` holds this many.
abbrev pub range_size : ℕ → ℕ → ℕ
range_size first last = last + 1 - first

unfoldable pub class_strings : List Chars → List ClassItem → Option (List Chars)
unfolding union chars_from
class_strings out [] = some out
class_strings out (item v ∷ items) = class_strings (union out ((v ∷ []) ∷ [])) items
class_strings out (range first last ∷ items) =
    let rest = class_strings (union out (chars_from first (range_size first last))) items in
    if ltb (last - first) max_class then rest else none
class_strings out (negate ∷ items) = none
class_strings out (category ∷ items) = none

-- `out if len(out) <= limit else None`
abbrev pub at_most : ℕ → Option (List Chars) → Option (List Chars)
at_most limit none = none
at_most limit (some out) = if leb (length out) limit then some out else none

-- `(f | {""}) if lo == 0 else f`
abbrev pub optional : ℕ → Option (List Chars) → Option (List Chars)
optional lo none = none
optional lo (some f) = if lo == 0 then some (union f ([] ∷ [])) else some f

abbrev pub expandable : Kind → Bool
expandable possessive_repeat = false
expandable _ = true

unfoldable mutual
  unfolding class_strings cross

  pub finite_node : Node → Option (List Chars)
  finite_node (literal v) = some ((v ∷ []) ∷ [])
  finite_node at = some ([] ∷ [])
  finite_node (class items) = at_most max_class (class_strings [] items)
  finite_node (subpattern items) = finite ([] ∷ []) items
  finite_node (branch bs) = at_most max_strings (finite_branches [] bs)
  finite_node (repeat kind lo hi body) =
      let f = finite ([] ∷ []) body in
      if expandable kind then if ltb 1 hi then none else optional lo f else none
  finite_node (atomic items) = none
  finite_node other = none

  -- The loop of `_finite`, with `out` so far.
  pub finite : List Chars → Items → Option (List Chars)
  finite out nil = some out
  finite out (cons n items) = elim (finite_node n) [
    | none ↦ none
    | some f ↦
        let rest = finite (cross out f) items in
        if ltb max_strings (length (cross out f)) then none else rest
  ]

  pub finite_branches : List Chars → Branches → Option (List Chars)
  finite_branches out no_branch = some out
  finite_branches out (or_branch items bs) = elim (finite ([] ∷ []) items) [
    | none ↦ none
    | some f ↦ finite_branches (union out f) bs
  ]
