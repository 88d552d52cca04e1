-- ===== src/Outputs/Due.antt =====
-- Which files `settle` and `retire` of src/artifact_engine/core/outputs.py are to remove, said of
-- names and stamps apart from the tests of the loops.
use artifact_engine.Prelude.{
  ℕ, ◌<◌, ◌≡◌, refl, sym, ◌↔◌, inl, inr, Bool, true, false, not, ◌&&◌, ◌||◌, Option, none, some,
  List, [], ◌∷◌, Any, Decides, ==_iff, Bool-cases, arith,
}
use artifact_engine.Prelude.Chars.{Chars, chars_eq, chars_eq_refl, eq_of_chars_eq}
use artifact_engine.Outputs.{System, Entry, fresh_names, is_in, same_file}
use artifact_engine.Outputs.Record.{Stamp, at, minus_one, is_safe}
use artifact_engine.Outputs.Settle.{Candidate, is_previous}
use artifact_engine.Outputs.Settle.Removal.{round_of}
use artifact_engine.Outputs.Rounds.{condemns}

module _ (sys : System) where
  -- Some name of the list is the given one, but for case.
  abbrev pub HasName : List Chars → Chars → Type 0
  HasName names name = Any (λ m. sys.casefold name ≡ sys.casefold m) names

  -- A name of the file of `k` that may be touched, and that is none of the names kept.
  abbrev pub IsOpen : List Chars → (k name : Chars) → Type 0
  IsOpen kept k name =
      (sys.resolved k ≡ sys.resolved name) × (is_safe name ≡ true) × (¬ HasName kept name)

  HasName-of_is_in :
      (names : List Chars) (name : Chars)
      → is_in (sys.casefold name) (fresh_names sys names) ≡ true
      → HasName names name
  HasName-of_is_in [] name h = cc h
  HasName-of_is_in (m ∷ names) name h =
      elim (Bool-cases (chars_eq (sys.casefold name) (sys.casefold m))) [
        | inl same ↦ inl (eq_of_chars_eq (sys.casefold name) (sys.casefold m) same)
        | inr other ↦ inr (HasName-of_is_in names name (rw other at h))
      ]

  is_in-of_HasName :
      (names : List Chars) (name : Chars)
      → HasName names name
      → is_in (sys.casefold name) (fresh_names sys names) ≡ true
  is_in-of_HasName [] name h = absurd h
  is_in-of_HasName (m ∷ names) name (inl e) = rw (e, chars_eq_refl (sys.casefold m)) refl
  is_in-of_HasName (m ∷ names) name (inr h) = ground (arith, is_in-of_HasName names name h)

  pub is_in-HasName :
      (names : List Chars) (name : Chars)
      → (is_in (sys.casefold name) (fresh_names sys names) ≡ true) ↔ HasName names name
  is_in-HasName names name = (HasName-of_is_in names name, is_in-of_HasName names name)

  -- The tests of a round of the loops, when the last of them decides `G`.
  pub judged-IsOpen :
      (kept : List Chars) (k name : Chars) (goes : Bool) (G : Type 0)
      → (goes ≡ true) ↔ G
      → ((not (not (is_safe name) || is_in (sys.casefold name) (fresh_names sys kept))
            && (same_file sys k name && goes))
          ≡ true)
        ↔ (IsOpen kept k name × G)
  judged-IsOpen kept k name goes G d = (to, from)
    where
      to :
          (not (not (is_safe name) || is_in (sys.casefold name) (fresh_names sys kept))
              && (same_file sys k name && goes))
            ≡ true
          → IsOpen kept k name × G
      to h =
          let clear : is_in (sys.casefold name) (fresh_names sys kept) ≡ false =
            ground (arith, h) in
          (
            (
              eq_of_chars_eq (sys.resolved k) (sys.resolved name) (ground (arith, h)),
              ground (arith, h),
              λ m. cc ((is_in-HasName kept name).1 m, clear),
            ),
            d.0 (ground (arith, h)),
          )

      from :
          IsOpen kept k name × G
          → (not (not (is_safe name) || is_in (sys.casefold name) (fresh_names sys kept))
              && (same_file sys k name && goes))
            ≡ true
      from ((same, safe, clear), g) =
          elim (Bool-cases (is_in (sys.casefold name) (fresh_names sys kept))) [
            | inl taken ↦ absurd (clear ((is_in-HasName kept name).0 taken))
            | inr free ↦ rw (safe, free, same, chars_eq_refl (sys.resolved name)) (d.1 g)
          ]

-- A file from the run before: it has the recorded stamp, or if there is no record, it is older than
-- the start of the run, which is known.
abbrev pub IsDue : ℕ → Option Stamp → ℕ → Type 0
IsDue started none now = (0 < started) × (now < started)
IsDue started (some (at s)) now = s ≡ now
IsDue started (some minus_one) now = ⊥

-- A candidate that has the file of `k` removed.
abbrev pub MustGo : System → List Chars → (started : ℕ) → Chars → ℕ → Candidate → Type 0
MustGo sys names started k now (name, stamp) = IsOpen sys names k name × IsDue started stamp now

pub is_previous-IsDue :
    (started : ℕ) (stamp : Option Stamp) (now : ℕ)
    → (is_previous started stamp now ≡ true) ↔ IsDue started stamp now
is_previous-IsDue started none now =
    (λ h. (ground (arith, h), ground (arith, h)), λ (p, q). ground (arith, p, q))
is_previous-IsDue started (some (at s)) now =
    (λ h. sym ((==_iff now s).0 h), λ e. (==_iff now s).1 (sym e))
is_previous-IsDue started (some minus_one) now = (λ h. cc h, λ h. absurd h)

pub condemns-MustGo :
    (sys : System) (names : List Chars) (started : ℕ) (k : Chars) (e : Entry)
    → Decides
        (λ c. condemns sys k e (round_of sys (fresh_names sys names) started c))
        (MustGo sys names started k e.stamp)
condemns-MustGo sys names started k e (name, stamp) =
    judged-IsOpen sys names k name (is_previous started stamp e.stamp) (IsDue started stamp e.stamp)
      (is_previous-IsDue started stamp e.stamp)
