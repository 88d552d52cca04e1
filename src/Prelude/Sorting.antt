-- ===== src/Prelude/Sorting.antt =====
-- `sorted`, by insertion: stable, and with an order given as its strict test.
use mathlib.Core.Path.{◌≡◌, refl}
use mathlib.Core.Bool.{Bool, ◌&&◌, ◌||◌}
use native.Mathlib.Omega.{arith}
use mathlib.Core.Logic.{inl, inr}
use mathlib.Core.List.{List, [], ◌∷◌}
use artifact_engine.Prelude.Tests.{if◌then◌else◌, Bool-cases}
use artifact_engine.Prelude.Lists.{Any, any, all}

module _ {A : Type 0} (lt : A → A → Bool) where
  unfoldable pub insert_sorted : A → List A → List A
  insert_sorted x [] = x ∷ []
  insert_sorted x (y ∷ ys) =
      let rest = insert_sorted x ys in if lt y x then y ∷ rest else x ∷ y ∷ ys

  unfoldable pub sorted : List A → List A
  unfolding insert_sorted
  sorted [] = []
  sorted (x ∷ xs) = insert_sorted x (sorted xs)

  module _ (P : A → Type 0) where
    Any-insert_new : (x : A) (ys : List A) → P x → Any P (insert_sorted x ys)
    unfolding insert_sorted
    Any-insert_new x [] h = inl h
    Any-insert_new x (y ∷ ys) h = elim (Bool-cases (lt y x)) [
      | inl after ↦ rw after (inr (Any-insert_new x ys h))
      | inr before ↦ rw before (inl h)
    ]

    Any-insert_old : (x : A) (ys : List A) → Any P ys → Any P (insert_sorted x ys)
    unfolding insert_sorted
    Any-insert_old x [] h = absurd h
    Any-insert_old x (y ∷ ys) h = elim (Bool-cases (lt y x)) [
      | inl after ↦
          rw after (elim h [ inl here ↦ inl here | inr there ↦ inr (Any-insert_old x ys there) ])
      | inr before ↦ rw before (inr h)
    ]

    Any-of_insert : (x : A) (ys : List A) → Any P (insert_sorted x ys) → Any P (x ∷ ys)
    unfolding insert_sorted
    Any-of_insert x [] h = h
    Any-of_insert x (y ∷ ys) h = elim (Bool-cases (lt y x)) [
      | inl after ↦ elim (rw after at h) [
        | inl here ↦ inr (inl here)
        | inr there ↦ elim (Any-of_insert x ys there) [
          | inl new ↦ inl new
          | inr old ↦ inr (inr old)
        ]
      ]
      | inr before ↦ rw before at h
    ]

    -- Sorting keeps what is in a list, and adds nothing.
    pub Any-sorted : (xs : List A) → Any P xs → Any P (sorted xs)
    unfolding sorted
    Any-sorted [] h = h
    Any-sorted (x ∷ xs) (inl h) = Any-insert_new x (sorted xs) h
    Any-sorted (x ∷ xs) (inr h) = Any-insert_old x (sorted xs) (Any-sorted xs h)

    pub Any-of_sorted : (xs : List A) → Any P (sorted xs) → Any P xs
    unfolding sorted
    Any-of_sorted [] h = h
    Any-of_sorted (x ∷ xs) h = elim (Any-of_insert x (sorted xs) h) [
      | inl here ↦ inl here
      | inr there ↦ inr (Any-of_sorted xs there)
    ]

  module _ (test : A → Bool) where
    pub any-insert : (x : A) (ys : List A) → any test (insert_sorted x ys) ≡ (test x || any test ys)
    unfolding insert_sorted
    any-insert x [] = refl
    any-insert x (y ∷ ys) = elim (Bool-cases (lt y x)) [
      | inl after ↦ rw (after, any-insert x ys) (ground arith)
      | inr before ↦ rw before refl
    ]

    pub any-sorted : (xs : List A) → any test (sorted xs) ≡ any test xs
    unfolding sorted
    any-sorted [] = refl
    any-sorted (x ∷ xs) = rw (any-insert x (sorted xs), any-sorted xs) refl

    all-insert : (x : A) (ys : List A) → all test (insert_sorted x ys) ≡ (test x && all test ys)
    unfolding insert_sorted
    all-insert x [] = refl
    all-insert x (y ∷ ys) = elim (Bool-cases (lt y x)) [
      | inl after ↦ rw (after, all-insert x ys) (ground arith)
      | inr before ↦ rw before refl
    ]

    pub all-sorted : (xs : List A) → all test (sorted xs) ≡ all test xs
    unfolding sorted
    all-sorted [] = refl
    all-sorted (x ∷ xs) = rw (all-insert x (sorted xs), all-sorted xs) refl
