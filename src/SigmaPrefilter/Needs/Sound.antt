-- ===== src/SigmaPrefilter/Needs/Sound.antt =====
-- What a need says of a row, and that combining needs keeps it.
use artifact_engine.Prelude.{
  ◌≡◌, sym, true, not, ◌||◌, ◌⊎◌, inl, inr, Option, none, some, List, [], ◌∷◌, arith, ltb, length,
  Any, Bool-cases,
}
use artifact_engine.Prelude.Chars.{Chars, chars_eq, eq_of_chars_eq, Occurs, isascii, Unicode, lower}
use artifact_engine.Prelude.CharSets.{union, Any-union_left, Any-union_right}
use artifact_engine.SigmaPrefilter.Needs.{
  Entry, Need, min_literal, merge_entry, merge_entries, leaf, either, preferred, both,
}

-- A row gives each column its text, or nothing for NULL.
abbrev pub Row : Type 0
Row = Chars → Option Chars

module _ (u : Unicode) where
  abbrev pub HasOne : Option Chars → List Chars → Type 0
  HasOne none lits = ⊥
  HasOne (some v) lits = Any (λ l. Occurs l (lower u v)) lits

module _ (u : Unicode) (row : Row) where
  -- The row's value of the entry's column, lowered, holds one of the entry's literals.
  abbrev pub Holds : Entry → Type 0
  Holds (col, lits) = HasOne u (row col) lits

  abbrev pub Passes : Option Need → Type 0
  Passes none = Unit
  Passes (some need) = Any Holds need.entries

module _ (u : Unicode) (row : Row) where
  HasOne-union_left :
      (v : Option Chars) (xs ys : List Chars) → HasOne u v xs → HasOne u v (union xs ys)
  HasOne-union_left none xs ys h = h
  HasOne-union_left (some v) xs ys h = Any-union_left (λ l. Occurs l (lower u v)) xs ys h

  HasOne-union_right :
      (v : Option Chars) (xs ys : List Chars) → HasOne u v ys → HasOne u v (union xs ys)
  HasOne-union_right none xs ys h = h
  HasOne-union_right (some v) xs ys h = Any-union_right (λ l. Occurs l (lower u v)) xs ys h

  pub merge_entry_old :
      (col : Chars) (lits : List Chars) (out : List Entry)
      → Any (Holds u row) out
      → Any (Holds u row) (merge_entry col lits out)
  unfolding merge_entry
  merge_entry_old col lits [] h = absurd h
  merge_entry_old col lits ((c, own) ∷ rest) h = elim (Bool-cases (chars_eq c col)) [
    | inl same ↦ rw same (elim h [
      | inl here ↦ inl (HasOne-union_left (row c) own lits here)
      | inr there ↦ inr there
    ])
    | inr other ↦
        rw other
          (elim h [ inl here ↦ inl here | inr there ↦ inr (merge_entry_old col lits rest there) ])
  ]

  pub merge_entry_new :
      (col : Chars) (lits : List Chars) (out : List Entry)
      → HasOne u (row col) lits
      → Any (Holds u row) (merge_entry col lits out)
  unfolding merge_entry
  merge_entry_new col lits [] h = inl (HasOne-union_right (row col) [] lits h)
  merge_entry_new col lits ((c, own) ∷ rest) h = elim (Bool-cases (chars_eq c col)) [
    | inl same ↦
        rw same
          (inl (HasOne-union_right (row c) own lits (rw (sym (eq_of_chars_eq c col same)) at h)))
    | inr other ↦ rw other (inr (merge_entry_new col lits rest h))
  ]

  pub merge_entries_old :
      (out more : List Entry) → Any (Holds u row) out → Any (Holds u row) (merge_entries out more)
  unfolding merge_entries
  merge_entries_old out [] h = h
  merge_entries_old out ((col, lits) ∷ rest) h =
      merge_entries_old (merge_entry col lits out) rest (merge_entry_old col lits out h)

  pub merge_entries_new :
      (out more : List Entry) → Any (Holds u row) more → Any (Holds u row) (merge_entries out more)
  unfolding merge_entries
  merge_entries_new out [] h = absurd h
  merge_entries_new out ((col, lits) ∷ rest) (inl h) =
      merge_entries_old (merge_entry col lits out) rest (merge_entry_new col lits out h)
  merge_entries_new out ((col, lits) ∷ rest) (inr h) =
      merge_entries_new (merge_entry col lits out) rest h

  -- A row that meets either need meets what `_either` makes of them.
  pub Passes-either :
      (a b : Option Need) → Passes u row a ⊎ Passes u row b → Passes u row (either a b)
  unfolding either
  Passes-either none b h = tt
  Passes-either (some a) none h = tt
  Passes-either (some a) (some b) (inl h) = merge_entries_old a.entries b.entries h
  Passes-either (some a) (some b) (inr h) = merge_entries_new a.entries b.entries h

  -- A row that meets both needs meets what `_both` makes of them.
  pub Passes-both : (a b : Option Need) → Passes u row a → Passes u row b → Passes u row (both a b)
  unfolding both
  Passes-both none b h k = k
  Passes-both (some a) none h k = h
  Passes-both (some a) (some b) h k = elim (Bool-cases (preferred a b)) [
    | inl first ↦ rw first h
    | inr second ↦ rw second k
  ]

  pub Passes-leaf :
      (col literal value : Chars)
      → row col ≡ some value
      → (isascii literal ≡ true → Occurs (lower u literal) (lower u value))
      → Passes u row (leaf u col literal)
  unfolding leaf
  Passes-leaf col literal value e h =
      elim (Bool-cases (ltb (length literal) min_literal || not (isascii literal))) [
        | inl useless ↦ rw useless tt
        | inr useful ↦ rw (useful, e) (inl (inl (h (ground arith))))
      ]
