-- ===== src/Prelude/Sums.antt =====
-- Sums of weights over a list, by which two lists are seen to have the same entries.
use Prim.Native.Nat.{ℕ, ◌+◌}
use mathlib.Core.Path.{◌≡◌, refl}
use mathlib.Core.Bool.{Bool, not}
use mathlib.Core.Logic.{inl, inr}
use mathlib.Core.List.{List, [], ◌∷◌, ◌++◌, map}
use native.Mathlib.Omega.{arith}
use artifact_engine.Prelude.Tests.{if◌then◌else◌, Bool-cases}
use artifact_engine.Prelude.Lists.{keep}
use artifact_engine.Prelude.Sorting.{insert_sorted, sorted}

module _ {A : Type 0} where
  abbrev pub total : (A → ℕ) → List A → ℕ
  total w [] = 0
  total w (x ∷ xs) = w x + total w xs

  -- How many entries pass a test.
  abbrev pub count_of : (A → Bool) → List A → ℕ
  count_of test = total (λ x. if test x then 1 else 0)

  pub total-append : (w : A → ℕ) (xs ys : List A) → total w (xs ++ ys) ≡ total w xs + total w ys
  total-append w [] ys = omega arith
  total-append w (x ∷ xs) ys = omega (arith, total-append w xs ys)

  pub total-keep :
      (w : A → ℕ) (test : A → Bool) (xs : List A)
      → total w (keep test xs) + total w (keep (λ x. not (test x)) xs) ≡ total w xs
  total-keep w test [] = omega arith
  total-keep w test (x ∷ xs) = elim (Bool-cases (test x)) [
    | inl kept ↦ rw kept (omega (arith, total-keep w test xs))
    | inr lost ↦ rw lost (omega (arith, total-keep w test xs))
  ]

  module _ (lt : A → A → Bool) (w : A → ℕ) where
    total-insert : (x : A) (ys : List A) → total w (insert_sorted lt x ys) ≡ w x + total w ys
    unfolding insert_sorted
    total-insert x [] = refl
    total-insert x (y ∷ ys) = elim (Bool-cases (lt y x)) [
      | inl after ↦ rw after (omega (arith, total-insert x ys))
      | inr before ↦ rw before refl
    ]

    pub total-sorted : (xs : List A) → total w (sorted lt xs) ≡ total w xs
    unfolding sorted
    total-sorted [] = refl
    total-sorted (x ∷ xs) = omega (arith, total-insert x (sorted lt xs), total-sorted xs)

pub total-map :
    {A B : Type 0} (f : A → B) (w : B → ℕ) (xs : List A)
    → total w (map f xs) ≡ total (λ x. w (f x)) xs
total-map f w [] = refl
total-map f w (x ∷ xs) = rw (total-map f w xs) refl
