-- ===== src/Prelude/CharSets.antt =====
-- Python sets of texts: lists without repetition, in the order in which the texts come in.
use mathlib.Core.Path.{◌≡◌}
use mathlib.Core.Logic.{inl, inr}
use mathlib.Core.Bool.{true}
use mathlib.Core.List.{List, [], ◌∷◌, ◌++◌, map}
use artifact_engine.Prelude.Tests.{if◌then◌else◌, Bool-cases}
use artifact_engine.Prelude.Lists.{any, Any, Any-append_left, Any-append_right, Any-mono}
use artifact_engine.Prelude.Chars.{Chars, chars_eq, eq_of_chars_eq}

-- `xs | ys`
unfoldable pub union : List Chars → List Chars → List Chars
unfolding chars_eq
union xs [] = xs
union xs (y ∷ ys) = union (if any (chars_eq y) xs then xs else xs ++ y ∷ []) ys

-- `{a + b for a in xs for b in ys}`
abbrev pub concatenations : List Chars → List Chars → List Chars
concatenations [] ys = []
concatenations (x ∷ xs) ys = map (λ y. x ++ y) ys ++ concatenations xs ys

unfoldable pub cross : List Chars → List Chars → List Chars
unfolding union
cross xs ys = union [] (concatenations xs ys)

module _ (P : Chars → Type 0) where
  pub Any-union_left : (xs ys : List Chars) → Any P xs → Any P (union xs ys)
  unfolding union
  Any-union_left xs [] h = h
  Any-union_left xs (y ∷ ys) h = elim (Bool-cases (any (chars_eq y) xs)) [
    | inl old ↦ rw old (Any-union_left xs ys h)
    | inr new ↦ rw new (Any-union_left (xs ++ y ∷ []) ys (Any-append_left P xs (y ∷ []) h))
  ]

  Any-of_any : (y : Chars) (xs : List Chars) → any (chars_eq y) xs ≡ true → P y → Any P xs
  Any-of_any y [] h p = cc
  Any-of_any y (x ∷ xs) h p = elim (Bool-cases (chars_eq y x)) [
    | inl same ↦ inl (rw (eq_of_chars_eq y x same) at p)
    | inr other ↦ inr (Any-of_any y xs (rw other at h) p)
  ]

  pub Any-union_right : (xs ys : List Chars) → Any P ys → Any P (union xs ys)
  unfolding union
  Any-union_right xs [] h = absurd h
  Any-union_right xs (y ∷ ys) (inl p) = elim (Bool-cases (any (chars_eq y) xs)) [
    | inl old ↦ rw old (Any-union_left xs ys (Any-of_any y xs old p))
    | inr new ↦ rw new (Any-union_left (xs ++ y ∷ []) ys (Any-append_right P xs (y ∷ []) (inl p)))
  ]
  Any-union_right xs (y ∷ ys) (inr h) =
      Any-union_right (if any (chars_eq y) xs then xs else xs ++ y ∷ []) ys h

pub Any-map :
    {A B : Type 0} (P : B → Type 0) (f : A → B) (xs : List A)
    → Any (λ x. P (f x)) xs
    → Any P (map f xs)
Any-map P f [] h = h
Any-map P f (x ∷ xs) (inl h) = inl h
Any-map P f (x ∷ xs) (inr h) = inr (Any-map P f xs h)

module _ (P Q R : Chars → Type 0) (join : (x y : Chars) → P x → Q y → R (x ++ y)) where
  Any-concatenations : (xs ys : List Chars) → Any P xs → Any Q ys → Any R (concatenations xs ys)
  Any-concatenations [] ys h k = h
  Any-concatenations (x ∷ xs) ys (inl h) k =
      Any-append_left R (map (λ y. x ++ y) ys) (concatenations xs ys)
        (Any-map R (λ y. x ++ y) ys (Any-mono Q (λ y. R (x ++ y)) ys (λ y q. join x y h q) k))
  Any-concatenations (x ∷ xs) ys (inr h) k =
      Any-append_right R (map (λ y. x ++ y) ys) (concatenations xs ys)
        (Any-concatenations xs ys h k)

  pub Any-cross : (xs ys : List Chars) → Any P xs → Any Q ys → Any R (cross xs ys)
  unfolding cross
  Any-cross xs ys h k = Any-union_right R [] (concatenations xs ys) (Any-concatenations xs ys h k)
