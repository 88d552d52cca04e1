-- ===== src/SigmaPrefilter/Needs.antt =====
-- `Need` and how needs combine: `_leaf`, `_either`, `_weakest` and `_both` of
-- src/artifact_engine/core/sigma_prefilter.py. A dict is an association list in insertion order
-- and a frozenset a list without repetition.
pub mod Sound
use artifact_engine.Prelude.{
  ℕ, ◌+◌, min, ◌≡◌, Bool, true, false, not, ◌&&◌, ◌||◌, Option, none, some, List, [], ◌∷◌, ◌++◌,
  ltb, leb, ◌==◌, length, any, if◌then◌else◌,
}
use artifact_engine.Prelude.Chars.{Chars, chars_eq, isascii, Unicode, lower}
use artifact_engine.Prelude.CharSets.{union}

abbrev pub min_literal : ℕ
min_literal = 3

abbrev pub Entry : Type 0
Entry = Chars × List Chars

pub record Need : Type 0 where
  pub entries : List Entry
  pub exact : Bool

-- `out[col] = out.get(col, frozenset()) | lits`
unfoldable pub merge_entry : Chars → List Chars → List Entry → List Entry
unfolding union chars_eq
merge_entry col lits [] = (col, union [] lits) ∷ []
merge_entry col lits ((c, own) ∷ rest) =
    if chars_eq c col then (c, union own lits) ∷ rest else (c, own) ∷ merge_entry col lits rest

unfoldable pub merge_entries : List Entry → List Entry → List Entry
unfolding merge_entry
merge_entries out [] = out
merge_entries out ((col, lits) ∷ rest) = merge_entries (merge_entry col lits out) rest

unfoldable pub leaf : Unicode → Chars → Chars → Option Need
unfolding lower isascii
leaf u col literal =
    if ltb (length literal) min_literal || not (isascii literal)
    then none
    else some (record { entries = (col, lower u literal ∷ []) ∷ []; exact = false })

unfoldable pub either : Option Need → Option Need → Option Need
unfolding merge_entries
either none b = none
either (some a) none = none
either (some a) (some b) =
    some (record { entries = merge_entries a.entries b.entries; exact = a.exact || b.exact })

-- The shortest of the literals, and how many there are. `min` of none is an error in the source,
-- which no need meets: it has a literal.
abbrev pub shortest : List Chars → ℕ
shortest [] = 0
shortest (s ∷ []) = length s
shortest (s ∷ t ∷ rest) = min (length s) (shortest (t ∷ rest))

abbrev pub literals : List Entry → List Chars
literals [] = []
literals ((col, lits) ∷ rest) = lits ++ literals rest

unfoldable pub weakest : Need → ℕ
weakest need = shortest (literals need.entries)

unfoldable pub size : Need → ℕ
size need = length (literals need.entries)

-- `ka >= kb` on the keys `(not exact, weakest, -size)`: the first place where they differ decides.
abbrev pub rest_ge : Need → Need → Bool
rest_ge a b = if weakest a == weakest b then leb (size a) (size b) else ltb (weakest b) (weakest a)

unfoldable pub preferred : Need → Need → Bool
unfolding weakest size
preferred a b =
    if a.exact && not b.exact then false else if not a.exact && b.exact then true else rest_ge a b

unfoldable pub both : Option Need → Option Need → Option Need
unfolding preferred
both none b = b
both (some a) none = some a
both (some a) (some b) = if preferred a b then some a else some b
