-- ===== src/Prelude/Lists.antt =====
-- Lists measured by native numbers, and predicates by recursion on a list.
use Prim.Native.Nat.{ℕ, zero, suc, ◌+◌}
use mathlib.Core.Path.{◌≡◌, refl, subst}
use mathlib.Core.Logic.{◌⊎◌, ◌↔◌, inl, inr}
use mathlib.Core.Bool.{Bool, true, false, ◌&&◌, ◌||◌}
use mathlib.Core.List.{List, [], ◌∷◌, ◌++◌, map}
use mathlib.Core.Option.{Option, none, some}
use native.Mathlib.Omega.{arith}
use artifact_engine.Prelude.Tests.{if◌then◌else◌, Bool-cases}

module _ {ℓ} {A : Type ℓ} where
  abbrev pub length : List A → ℕ
  length [] = 0
  length (x ∷ xs) = suc (length xs)

  abbrev pub get_elem? : List A → ℕ → Option A
  get_elem? [] i = none
  get_elem? (x ∷ xs) zero = some x
  get_elem? (x ∷ xs) (suc i) = get_elem? xs i

  pub length-append : (xs ys : List A) → length (xs ++ ys) ≡ length xs + length ys
  length-append [] ys = omega arith
  length-append (x ∷ xs) ys = omega (arith, length-append xs ys)

-- `any(test(x) for x in xs)` and `all(test(x) for x in xs)`
module _ {ℓ} {A : Type ℓ} where
  abbrev pub any : (A → Bool) → List A → Bool
  any test [] = false
  any test (x ∷ xs) = test x || any test xs

  abbrev pub all : (A → Bool) → List A → Bool
  all test [] = true
  all test (x ∷ xs) = test x && all test xs

  -- `[x for x in xs if test(x)]`
  abbrev pub keep : (A → Bool) → List A → List A
  keep test [] = []
  keep test (x ∷ xs) = let rest = keep test xs in if test x then x ∷ rest else rest

module _ {A : Type 0} where
  pub all-append :
      (test : A → Bool) (xs ys : List A) → all test (xs ++ ys) ≡ (all test xs && all test ys)
  all-append test [] ys = refl
  all-append test (x ∷ xs) ys = ground (arith, all-append test xs ys)

  pub all-keep :
      (test kept : A → Bool) (xs : List A) → all test xs ≡ true → all test (keep kept xs) ≡ true
  all-keep test kept [] h = refl
  all-keep test kept (x ∷ xs) h = elim (Bool-cases (kept x)) [
    | inl yes_kept ↦ rw yes_kept (ground (arith, h, all-keep test kept xs))
    | inr lost ↦ rw lost (all-keep test kept xs (ground (arith, h)))
  ]

  pub all-kept : (kept : A → Bool) (xs : List A) → all kept (keep kept xs) ≡ true
  all-kept kept [] = refl
  all-kept kept (x ∷ xs) = elim (Bool-cases (kept x)) [
    | inl here ↦ rw (here, here) (all-kept kept xs)
    | inr lost ↦ rw lost (all-kept kept xs)
  ]

  pub all-and :
      (test other : A → Bool) (xs : List A)
      → all test xs ≡ true
      → all other xs ≡ true
      → all (λ x. test x && other x) xs ≡ true
  all-and test other [] h k = refl
  all-and test other (x ∷ xs) h k = ground (arith, h, k, all-and test other xs)

pub any-map :
    {A B : Type 0} (f : A → B) (test : B → Bool) (xs : List A)
    → any test (map f xs) ≡ any (λ x. test (f x)) xs
any-map f test [] = refl
any-map f test (x ∷ xs) = rw (any-map f test xs) refl

-- Some entry, with its place; every entry.
module _ {ℓ} {A : Type ℓ} where
  abbrev pub Any : (A → Type 0) → List A → Type 0
  Any P [] = ⊥
  Any P (x ∷ xs) = P x ⊎ Any P xs

  abbrev pub All : (A → Type 0) → List A → Type 0
  All P [] = Unit
  All P (x ∷ xs) = P x × All P xs

  pub Any-append_left : (P : A → Type 0) (xs ys : List A) → Any P xs → Any P (xs ++ ys)
  Any-append_left P [] ys h = absurd h
  Any-append_left P (x ∷ xs) ys (inl h) = inl h
  Any-append_left P (x ∷ xs) ys (inr h) = inr (Any-append_left P xs ys h)

  pub Any-append_right : (P : A → Type 0) (xs ys : List A) → Any P ys → Any P (xs ++ ys)
  Any-append_right P [] ys h = h
  Any-append_right P (x ∷ xs) ys h = inr (Any-append_right P xs ys h)

  pub Any-mono : (P Q : A → Type 0) (xs : List A) → ((x : A) → P x → Q x) → Any P xs → Any Q xs
  Any-mono P Q [] f h = h
  Any-mono P Q (x ∷ xs) f (inl h) = inl (f x h)
  Any-mono P Q (x ∷ xs) f (inr h) = inr (Any-mono P Q xs f h)

  -- What holds of every entry holds of the one at hand.
  pub Any-of_All :
      (P Q R : A → Type 0) (xs : List A)
      → ((x : A) → P x → Q x → R x)
      → All P xs
      → Any Q xs
      → Any R xs
  Any-of_All P Q R [] f a h = h
  Any-of_All P Q R (x ∷ xs) f a (inl h) = inl (f x a.0 h)
  Any-of_All P Q R (x ∷ xs) f a (inr h) = inr (Any-of_All P Q R xs f a.1 h)

-- A test that decides a predicate decides whether some entry has it.
module _ {A : Type 0} (test : A → Bool) (P : A → Type 0) where
  abbrev pub Decides : Type 0
  Decides = (x : A) → (test x ≡ true) ↔ P x

  pub any-Any :
      (xs : List A)
      → Decides
      → (Any P xs × (any test xs ≡ true)) ⊎ ((¬ Any P xs) × (any test xs ≡ false))
  any-Any [] d = inr ((λ h. h), refl)
  any-Any (x ∷ xs) d = elim (Bool-cases (test x)) [
    | inl here ↦ inl (inl ((d x).0 here), rw here refl)
    | inr other ↦ elim (any-Any xs d) [
      | inl later ↦ inl (inr later.0, rw (other, later.1) refl)
      | inr never ↦ inr (no_entry other never.0, rw (other, never.1) refl)
    ]
  ]
    where
      no_entry : test x ≡ false → (¬ Any P xs) → ¬ Any P (x ∷ xs)
      no_entry other never (inl h) = cc ((d x).1 h, other)
      no_entry other never (inr h) = never h

-- Every entry, by its membership.
module _ {A : Type 0} where
  pub All-at : (P : A → Type 0) (xs : List A) (y : A) → All P xs → Any (λ x. x ≡ y) xs → P y
  All-at P [] y a h = absurd h
  All-at P (x ∷ xs) y a (inl h) = subst P h a.0
  All-at P (x ∷ xs) y a (inr h) = All-at P xs y a.1 h

  pub All-of_at : (P : A → Type 0) (xs : List A) → ((y : A) → Any (λ x. x ≡ y) xs → P y) → All P xs
  All-of_at P [] f = tt
  All-of_at P (x ∷ xs) f = (f x (inl refl), All-of_at P xs (λ y m. f y (inr m)))
