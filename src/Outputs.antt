-- ===== src/Outputs.antt =====
-- The folder that a parser writes into, for src/artifact_engine/core/outputs.py: its files with
-- their stamps (`_stamp`), and the record and the marker of the parser, which `_safe` keeps apart
-- from them. What the operating system and the language do is a parameter.
pub mod Record
pub mod Settle
pub mod Retire
pub mod Rounds
pub mod Due
mod Tests
use artifact_engine.Prelude.{
  ℕ, ◌≡◌, refl, sym, ap, ◌∙◌, Bool, true, false, not, ◌&&◌, ◌||◌, Option, none, some, List, [], ◌∷◌,
  inl, inr, if◌then◌else◌, Bool-cases, arith,
}
use artifact_engine.Prelude.Chars.{Chars, chars_eq, chars_eq_refl, eq_of_chars_eq}

-- Which names stand for one file (as Windows resolves them, without case); `str.casefold`,
-- `str.isdigit`, `int` (`none`: ValueError) and `str` of a number.
pub record System : Type 0 where
  pub resolved : Chars → Chars
  pub casefold : Chars → Chars
  pub isdigit : Chars → Bool
  pub int : Chars → Option ℕ
  pub str : ℕ → Chars

-- The latest modification under a name, and what an attempt to remove it leaves: nothing, or after
-- an OSError something with that stamp (`rmtree` may have emptied a part of a directory).
pub record Entry : Type 0 where
  pub stamp : ℕ
  pub leaves : Option ℕ

abbrev pub Files : Type 0
Files = List (Chars × Entry)

-- The files; the text that a read of the record gives, if any; whether it can be written; whether
-- there is a `.done` marker; and whether the two can be removed.
pub record Folder : Type 0 where
  pub files : Files
  pub stored : Option Chars
  pub writable : Bool
  pub marker : Bool
  pub record_deletable : Bool
  pub marker_deletable : Bool

abbrev pub fresh_names : System → List Chars → List Chars
fresh_names sys [] = []
fresh_names sys (n ∷ names) = sys.casefold n ∷ fresh_names sys names

-- `x in xs`
abbrev pub is_in : Chars → List Chars → Bool
is_in x [] = false
is_in x (y ∷ ys) = chars_eq x y || is_in x ys

module _ (sys : System) where
  abbrev pub same_file : Chars → Chars → Bool
  same_file a b = chars_eq (sys.resolved a) (sys.resolved b)

  -- `_stamp(out_dir / name)`, with what a removal would do
  unfoldable pub stat : Chars → Files → Option Entry
  stat name [] = none
  stat name ((n, e) ∷ files) =
      let rest = stat name files in if same_file name n then some e else rest

  unfoldable pub unlink : Chars → Files → Files
  unlink name [] = []
  unlink name ((n, e) ∷ files) =
      let rest = unlink name files in if same_file name n then rest else (n, e) ∷ rest

  unfoldable pub restamp : Chars → ℕ → Files → Files
  restamp name s [] = []
  restamp name s ((n, e) ∷ files) =
      let rest = restamp name s files in
      if same_file name n then (n, record e { stamp = s }) ∷ rest else (n, e) ∷ rest

  -- `rmtree` or `unlink`, and what the files are then
  abbrev pub attempt : Chars → Option ℕ → Files → Files
  attempt name none files = unlink name files
  attempt name (some s) files = restamp name s files

  same_file_right : (a b n : Chars) → same_file b n ≡ true → same_file a n ≡ same_file a b
  same_file_right a b n h =
      ap (chars_eq (sys.resolved a)) (sym (eq_of_chars_eq (sys.resolved b) (sys.resolved n) h))

  same_file_left : (a b n : Chars) → same_file a b ≡ true → same_file a n ≡ same_file b n
  same_file_left a b n h =
      ap (λ r. chars_eq r (sys.resolved n)) (eq_of_chars_eq (sys.resolved a) (sys.resolved b) h)

  -- Two names of one file are looked up alike.
  pub same_file-stat :
      (a b : Chars) (files : Files) → same_file a b ≡ true → stat a files ≡ stat b files
  unfolding stat
  same_file-stat a b [] h = refl
  same_file-stat a b ((n, e) ∷ files) h =
      rw (eq_of_chars_eq (sys.resolved a) (sys.resolved b) h, same_file-stat a b files h) refl

  -- What a removal makes of the names.
  pub stat-unlink :
      (a b : Chars) (files : Files)
      → stat a (unlink b files) ≡ (if same_file a b then none else stat a files)
  unfolding stat unlink
  stat-unlink a b [] = ground arith
  stat-unlink a b ((n, e) ∷ files) = elim (Bool-cases (same_file b n)) [
    | inl same ↦ rw (same, same_file_right a b n same, stat-unlink a b files) (ground arith)
    | inr other ↦ elim (Bool-cases (same_file a b)) [
      | inl one ↦ rw (other, one, same_file_left a b n one, other, stat-unlink a b files, one) refl
      | inr apart ↦ rw (other, apart, stat-unlink a b files, apart) refl
    ]
  ]

  pub stat-restamp :
      (a b : Chars) (s : ℕ) (files : Files)
      → same_file a b ≡ false
      → stat a (restamp b s files) ≡ stat a files
  unfolding stat restamp
  stat-restamp a b s [] h = refl
  stat-restamp a b s ((n, e) ∷ files) h = elim (Bool-cases (same_file b n)) [
    | inl same ↦ rw (same, same_file_right a b n same, h, stat-restamp a b s files h) refl
    | inr other ↦ rw (other, stat-restamp a b s files h) refl
  ]
