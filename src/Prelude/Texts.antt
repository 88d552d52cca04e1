-- ===== src/Prelude/Texts.antt =====
-- Names that the program only compares: native strings, and membership in lists of them.
pub use text.Mathlib.Text.{◌==◌ as str_eq}
use text.Mathlib.TextEquality.{eq_iff}
use mathlib.Core.Path.{◌≡◌, refl, sym, ◌∙◌}
use mathlib.Core.Logic.{inl, inr}
use mathlib.Core.Bool.{Bool, true, false, ◌||◌}
use mathlib.Core.List.{List, [], ◌∷◌, ◌++◌}
use Prim.Native.String.{String}
use native.Mathlib.Omega.{arith}
use artifact_engine.Prelude.Tests.{Bool-cases}
use artifact_engine.Prelude.Lists.{Any}

-- `x in xs`
abbrev pub has : String → List String → Bool
has x [] = false
has x (y ∷ ys) = str_eq x y || has x ys

abbrev pub Member : String → List String → Type 0
Member x xs = Any (λ y. y ≡ x) xs

pub eq_of_str_eq : (s t : String) → str_eq s t ≡ true → s ≡ t
eq_of_str_eq s t h = (eq_iff s t).0 h

pub str_eq_refl : (s : String) → str_eq s s ≡ true
str_eq_refl s = (eq_iff s s).1 refl

pub Member-has : (x : String) (xs : List String) → has x xs ≡ true → Member x xs
Member-has x [] h = cc
Member-has x (y ∷ ys) h = elim (Bool-cases (str_eq x y)) [
  | inl same ↦ inl (sym (eq_of_str_eq x y same))
  | inr other ↦ inr (Member-has x ys (rw other at h))
]

pub has-Member : (x : String) (xs : List String) → Member x xs → has x xs ≡ true
has-Member x [] h = absurd h
has-Member x (y ∷ ys) (inl e) = rw (e, str_eq_refl x)
has-Member x (y ∷ ys) (inr h) = ground (arith, has-Member x ys h)

-- No text twice.
abbrev pub DistinctTexts : List String → Type 0
DistinctTexts [] = Unit
DistinctTexts (x ∷ xs) = (has x xs ≡ false) × DistinctTexts xs

pub has-snoc_text :
    (x : String) (xs : List String) (y : String) → has x (xs ++ y ∷ []) ≡ (has x xs || str_eq x y)
has-snoc_text x [] y = ground arith
has-snoc_text x (z ∷ xs) y = ground (arith, has-snoc_text x xs y)

pub DistinctTexts-snoc :
    (xs : List String) (y : String)
    → DistinctTexts xs
    → has y xs ≡ false
    → DistinctTexts (xs ++ y ∷ [])
DistinctTexts-snoc [] y d h = (refl, tt)
DistinctTexts-snoc (x ∷ xs) y d h =
    (has-snoc_text x xs y ∙ ground (arith, d.0, apart), DistinctTexts-snoc xs y d.1 (ground arith))
  where
    apart : str_eq x y ≡ false
    apart = elim (Bool-cases (str_eq x y)) [
      | inl same ↦ let e = eq_of_str_eq x y same in ground (arith, str_eq_refl y)
      | inr other ↦ other
    ]
