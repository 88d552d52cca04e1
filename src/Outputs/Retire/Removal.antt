-- ===== src/Outputs/Retire/Removal.antt =====
-- What is in the folder behind `retire` of src/artifact_engine/core/outputs.py.
use artifact_engine.Prelude.{
  ℕ, ◌≡◌, refl, ap, ◌∙◌, inl, inr, false, not, ◌||◌, Option, none, some, List, [], ◌∷◌, any, Any,
  any-map, map, any-Any, ◌⊎◌, Decides, if◌then◌else◌, Bool-cases, arith,
}
use artifact_engine.Prelude.Chars.{Chars, chars_lt, eq_of_chars_eq}
use artifact_engine.Prelude.Sorting.{sorted, any-sorted}
use artifact_engine.Outputs.{System, Entry, Folder, fresh_names, is_in, same_file, stat, attempt}
use artifact_engine.Outputs.Record.{Dict, Stamp, is_safe, read}
use artifact_engine.Outputs.Rounds.{
  Round, condemns, found_round, round, rounds, rounds-spare, rounds-stat,
}
use artifact_engine.Outputs.Settle.Outcome.{file_after, OneFold, is_in-fresh}
use artifact_engine.Outputs.Due.{judged-IsOpen}
use artifact_engine.Outputs.Retire.Named.{
  known_names, any-names_of, Retires, IsDeclaredOrRecorded, may_go_iff,
}
use artifact_engine.Outputs.Retire.{
  once, names_of, may_go, Retiring, retire_entry, retire_found, retire_one, retire_all, drop_traces,
  previous_of, retire_with, retire,
}

module _ (sys : System) (previous : Dict Stamp) (owned skip : List Chars) where
  -- The round of a name.
  abbrev pub round_of : Chars → Round
  round_of name = record {
    name = name;
    spared = not (is_safe name) || is_in (sys.casefold name) skip;
    goes = may_go sys previous owned skip name;
  }

  retire_entry-files :
      (name : Chars) (leaves : Option ℕ) (r : Retiring)
      → (retire_entry sys previous owned skip name leaves r).files ≡ attempt sys name leaves r.files
  retire_entry-files name none r = refl
  retire_entry-files name (some s) r = refl

  retire_found-files :
      (name : Chars) (found : Option Entry) (r : Retiring)
      → (retire_found sys previous owned skip name found r).files
        ≡ found_round sys (round_of name) found r.files
  retire_found-files name none r = refl
  retire_found-files name (some e) r =
      elim (Bool-cases (may_go sys previous owned skip name e.stamp)) [
        | inl goes ↦ rw goes (retire_entry-files name e.leaves r)
        | inr stays ↦ rw stays refl
      ]

  retire_one-files :
      (name : Chars) (r : Retiring)
      → (retire_one sys previous owned skip name r).files ≡ round sys (round_of name) r.files
  unfolding retire_one
  retire_one-files name r =
      elim (Bool-cases (not (is_safe name) || is_in (sys.casefold name) skip)) [
        | inl spared ↦ rw spared refl
        | inr judged ↦ rw judged (retire_found-files name (stat sys name r.files) r)
      ]

  retire_all-files :
      (names : List Chars) (r : Retiring)
      → (retire_all sys previous owned skip names r).files ≡ rounds sys (map round_of names) r.files
  unfolding retire_all
  retire_all-files [] r = refl
  retire_all-files (n ∷ names) r =
      retire_all-files names (retire_one sys previous owned skip n r)
      ∙ ap (rounds sys (map round_of names)) (retire_one-files n r)

drop_traces-files :
    (sys : System) (left : List Chars) (f : Folder) → (drop_traces sys left f).files ≡ f.files
drop_traces-files sys [] f = refl
drop_traces-files sys (n ∷ left) f = refl

module _ (sys : System) (declared fresh : List Chars) (f : Folder) (previous : Dict Stamp) where
  -- The round of a name that the record or the manifest has.
  abbrev pub retiring_round : Chars → Round
  retiring_round = round_of sys previous (fresh_names sys declared) (fresh_names sys fresh)

  abbrev pub retired_names : List Chars
  retired_names = names_of previous (once declared)

  retire_with-files :
      (retire_with sys declared fresh f previous).1.files
      ≡ rounds sys (map retiring_round (sorted chars_lt retired_names)) f.files
  unfolding retire_with
  retire_with-files =
      let r0 : Retiring = record { files = f.files; left = [] } in
      let r =
        retire_all sys previous (fresh_names sys declared) (fresh_names sys fresh)
          (sorted chars_lt retired_names) r0 in
      drop_traces-files sys r.left (record f { files = r.files })
      ∙ retire_all-files sys previous (fresh_names sys declared) (fresh_names sys fresh)
          (sorted chars_lt retired_names) r0

  retire-eq :
      (k : Chars)
      → previous_of sys (read sys f.stored) ≡ some previous
      → file_after sys k (retire sys declared fresh f)
        ≡ some
            (stat sys k (rounds sys (map retiring_round (sorted chars_lt retired_names)) f.files))
  unfolding retire
  retire-eq k h = rw (h, retire_with-files) refl

  any-retired :
      (k : Chars) (e : Entry)
      → any (condemns sys k e) (map retiring_round (sorted chars_lt retired_names))
        ≡ any (λ n. condemns sys k e (retiring_round n)) retired_names
  any-retired k e =
      any-map retiring_round (condemns sys k e) (sorted chars_lt retired_names)
      ∙ any-sorted chars_lt (λ n. condemns sys k e (retiring_round n)) retired_names

  retire-judged :
      (k : Chars) (e : Entry)
      → previous_of sys (read sys f.stored) ≡ some previous
      → stat sys k f.files ≡ some e
      → e.leaves ≡ none
      → file_after sys k (retire sys declared fresh f)
        ≡ some (
            if any (λ n. condemns sys k e (retiring_round n)) (known_names previous declared)
            then none
            else some e)
  retire-judged k e readable here free =
      rw
        (
          retire-eq k readable,
          rounds-stat sys k e (map retiring_round (sorted chars_lt retired_names)) f.files here
              free,
          any-retired k e,
          any-names_of (λ n. condemns sys k e (retiring_round n)) previous declared,
        )
        refl

  condemns-Retires :
      (k : Chars) (e : Entry)
      → Decides
          (λ n. condemns sys k e (retiring_round n))
          (Retires sys previous declared fresh k e.stamp)
  condemns-Retires k e name =
      judged-IsOpen sys fresh k name
        (may_go sys previous (fresh_names sys declared) (fresh_names sys fresh) name e.stamp)
        (IsDeclaredOrRecorded sys previous declared name e.stamp)
        (may_go_iff sys previous declared (fresh_names sys fresh) name e.stamp)

  -- `retire` removes a file that can be removed exactly if a name that the record or the manifest has
  -- is of this file, safe and but for case none of the fresh ones, and is but for case a declared one,
  -- or has the stamp of the file in the record; else the file is as it was. This when the record, if
  -- any, can be read.
  pub retire_removes :
      (k : Chars) (e : Entry)
      → previous_of sys (read sys f.stored) ≡ some previous
      → stat sys k f.files ≡ some e
      → e.leaves ≡ none
      → (Any (Retires sys previous declared fresh k e.stamp) (known_names previous declared)
          × (file_after sys k (retire sys declared fresh f) ≡ some none))
        ⊎ ((¬ Any (Retires sys previous declared fresh k e.stamp) (known_names previous declared))
            × (file_after sys k (retire sys declared fresh f) ≡ some (some e)))
  retire_removes k e readable here free =
      let after = retire-judged k e readable here free in
      elim (any-Any (λ n. condemns sys k e (retiring_round n))
        (Retires sys previous declared fresh k e.stamp) (known_names previous declared)
        (condemns-Retires k e)) [
          | inl (goes, h) ↦ inl (goes, rw h at after)
          | inr (stays, h) ↦ inr (stays, rw h at after)
        ]

  fresh_is_spared :
      (n : Chars) (e : Entry) (m : Chars)
      → OneFold sys
      → Any (λ x. x ≡ n) fresh
      → condemns sys n e (retiring_round m) ≡ false
  fresh_is_spared n e m one h = elim (Bool-cases (same_file sys n m)) [
    | inl same ↦
        let fold : sys.casefold n ≡ sys.casefold m =
          one n m (eq_of_chars_eq (sys.resolved n) (sys.resolved m) same) in
        let skipped = rw fold at (is_in-fresh sys n fresh h) in ground (arith, skipped)
    | inr apart ↦ ground (arith, apart)
  ]

  fresh_are_spared :
      (n : Chars) (e : Entry) (names : List Chars)
      → OneFold sys
      → Any (λ x. x ≡ n) fresh
      → any (λ m. condemns sys n e (retiring_round m)) names ≡ false
  fresh_are_spared n e [] one h = refl
  fresh_are_spared n e (m ∷ names) one h =
      rw (fresh_is_spared n e m one h, fresh_are_spared n e names one h) refl

  -- The names that `retire` is given as fresh have the files that they had.
  pub retire_spares :
      (n : Chars)
      → previous_of sys (read sys f.stored) ≡ some previous
      → OneFold sys
      → Any (λ x. x ≡ n) fresh
      → file_after sys n (retire sys declared fresh f) ≡ some (stat sys n f.files)
  retire_spares n readable one h =
      rw
        (
          retire-eq n readable,
          rounds-spare sys n (map retiring_round (sorted chars_lt retired_names)) f.files
              (stat sys n f.files) refl
              (λ e. any-retired n e ∙ fresh_are_spared n e retired_names one h),
        )
        refl
