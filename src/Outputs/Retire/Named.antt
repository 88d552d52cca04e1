-- ===== src/Outputs/Retire/Named.antt =====
-- Which names `retire` of src/artifact_engine/core/outputs.py is to remove the files of, said apart
-- from the tests of its loop.
use artifact_engine.Prelude.{
  ℕ, ◌≡◌, refl, ◌∙◌, ap, ◌↔◌, ◌⊎◌, inl, inr, Bool, true, false, ◌||◌, Option, none, some, List, [],
  ◌∷◌, ◌++◌, map, any, ==_iff, Bool-cases, arith,
}
use artifact_engine.Prelude.Chars.{Chars, chars_eq, eq_of_chars_eq}
use artifact_engine.Outputs.{System, fresh_names, is_in}
use artifact_engine.Outputs.Record.{Stamp, at, minus_one, Dict, lookup}
use artifact_engine.Outputs.Due.{HasName, IsOpen, is_in-HasName}
use artifact_engine.Outputs.Retire.{with_name, names_of, once, is_recorded_at, may_go}

-- The names of the record and those of the manifest.
abbrev pub known_names : Dict Stamp → List Chars → List Chars
known_names previous declared = map (λ (item : Chars × Stamp). item.0) previous ++ declared

module _ (sys : System) (previous : Dict Stamp) (declared : List Chars) where
  abbrev pub IsDeclaredOrRecorded : Chars → (now : ℕ) → Type 0
  IsDeclaredOrRecorded name now = HasName sys declared name ⊎ (lookup name previous ≡ some (at now))

  -- A name that has the file of `k`, with its stamp, removed.
  abbrev pub Retires : (fresh : List Chars) → (k : Chars) → (now : ℕ) → Chars → Type 0
  Retires fresh k now name = IsOpen sys fresh k name × IsDeclaredOrRecorded name now

-- A name put down once is as good as twice.
any-of_is_in :
    (test : Chars → Bool) (n : Chars) (names : List Chars)
    → is_in n names ≡ true
    → (test n || any test names) ≡ any test names
any-of_is_in test n [] h = cc h
any-of_is_in test n (m ∷ names) h = elim (Bool-cases (chars_eq n m)) [
  | inl same ↦ let e = eq_of_chars_eq n m same in rw e (ground arith)
  | inr other ↦ ground (arith, any-of_is_in test n names (rw other at h))
]

any-with_name :
    (test : Chars → Bool) (n : Chars) (names : List Chars)
    → any test (with_name n names) ≡ (test n || any test names)
any-with_name test n names = elim (Bool-cases (is_in n names)) [
  | inl here ↦ rw (here, any-of_is_in test n names here) refl
  | inr new ↦ rw new refl
]

any-once : (test : Chars → Bool) (names : List Chars) → any test (once names) ≡ any test names
any-once test [] = refl
any-once test (n ∷ names) =
    any-with_name test n (once names) ∙ ap (λ b. test n || b) (any-once test names)

pub any-names_of :
    (test : Chars → Bool) (previous : Dict Stamp) (declared : List Chars)
    → any test (names_of previous (once declared)) ≡ any test (known_names previous declared)
any-names_of test [] declared = any-once test declared
any-names_of test ((n, s) ∷ previous) declared =
    any-with_name test n (names_of previous (once declared))
    ∙ ap (λ b. test n || b) (any-names_of test previous declared)

is_recorded_at_iff :
    (stamp : Option Stamp) (now : ℕ) → (is_recorded_at stamp now ≡ true) ↔ (stamp ≡ some (at now))
is_recorded_at_iff none now = (λ h. cc h, λ h. cc h)
is_recorded_at_iff (some (at s)) now =
    (λ h. ap (λ n. some (at n)) ((==_iff s now).0 h), λ h. (==_iff s now).1 (cc h))
is_recorded_at_iff (some minus_one) now = (λ h. cc h, λ h. cc h)

either_iff :
    (a c : Bool) (A C : Type 0) → (a ≡ true) ↔ A → (c ≡ true) ↔ C → ((a || c) ≡ true) ↔ (A ⊎ C)
either_iff true c A C p q = (λ h. inl (p.0 refl), λ h. refl)
either_iff false c A C p q = (λ h. inr (q.0 h), from)
  where
    from : A ⊎ C → c ≡ true
    from (inl x) = cc (p.1 x)
    from (inr y) = q.1 y

pub may_go_iff :
    (sys : System) (previous : Dict Stamp) (declared skip : List Chars) (name : Chars) (now : ℕ)
    → (may_go sys previous (fresh_names sys declared) skip name now ≡ true)
      ↔ IsDeclaredOrRecorded sys previous declared name now
may_go_iff sys previous declared skip name now =
    either_iff (is_in (sys.casefold name) (fresh_names sys declared))
      (is_recorded_at (lookup name previous) now) (HasName sys declared name)
      (lookup name previous ≡ some (at now)) (is_in-HasName sys declared name)
      (is_recorded_at_iff (lookup name previous) now)
