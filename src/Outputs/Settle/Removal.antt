-- ===== src/Outputs/Settle/Removal.antt =====
-- The loop of `settle` (src/artifact_engine/core/outputs.py) as rounds over the files.
use artifact_engine.Prelude.{
  ℕ, ◌≡◌, refl, ap, ◌∙◌, inl, inr, Option, none, some, List, [], ◌∷◌, map, Bool-cases,
}
use artifact_engine.Prelude.Chars.{Chars}
use artifact_engine.Outputs.{System, Entry, stat, attempt}
use artifact_engine.Outputs.Record.{Stamp}
use artifact_engine.Outputs.Rounds.{Round, found_round, round, rounds}
use artifact_engine.Outputs.Settle.{
  Candidate, Removing, is_previous, is_spared, removal_of, judge, settle_one, settle_all,
}

module _ (sys : System) (fresh : List Chars) (started : ℕ) where
  -- The round of a candidate.
  abbrev pub round_of : Candidate → Round
  round_of (name, stamp) = record {
    name = name;
    spared = is_spared sys fresh started name;
    goes = is_previous started stamp;
  }

  removal_of-files :
      (name : Chars) (now : ℕ) (leaves : Option ℕ) (r : Removing)
      → (removal_of sys fresh started name now leaves r).files ≡ attempt sys name leaves r.files
  removal_of-files name now none r = refl
  removal_of-files name now (some s) r = refl

  judge-files :
      (name : Chars) (stamp : Option Stamp) (found : Option Entry) (r : Removing)
      → (judge sys fresh started name stamp found r).files
        ≡ found_round sys (round_of (name, stamp)) found r.files
  judge-files name stamp none r = refl
  judge-files name stamp (some e) r = elim (Bool-cases (is_previous started stamp e.stamp)) [
    | inl stale ↦ rw stale (removal_of-files name e.stamp e.leaves r)
    | inr other ↦ rw other refl
  ]

  settle_one-files :
      (c : Candidate) (r : Removing)
      → (settle_one sys fresh started c r).files ≡ round sys (round_of c) r.files
  unfolding settle_one
  settle_one-files (name, stamp) r = elim (Bool-cases (is_spared sys fresh started name)) [
    | inl spared ↦ rw spared refl
    | inr judged ↦ rw judged (judge-files name stamp (stat sys name r.files) r)
  ]

  pub settle_all-files :
      (cs : List Candidate) (r : Removing)
      → (settle_all sys fresh started cs r).files ≡ rounds sys (map round_of cs) r.files
  unfolding settle_all
  settle_all-files [] r = refl
  settle_all-files (c ∷ cs) r =
      settle_all-files cs (settle_one sys fresh started c r)
      ∙ ap (rounds sys (map round_of cs)) (settle_one-files c r)
