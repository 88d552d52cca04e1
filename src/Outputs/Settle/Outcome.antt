-- ===== src/Outputs/Settle/Outcome.antt =====
-- What is in the folder behind `settle` of src/artifact_engine/core/outputs.py.
use artifact_engine.Prelude.{
  ℕ, ◌≡◌, refl, ◌∙◌, inl, inr, true, false, Option, none, some, List, [], ◌∷◌, any, any-map, map,
  any-Any, ◌⊎◌, Any, if◌then◌else◌, Bool-cases, arith,
}
use artifact_engine.Prelude.Chars.{Chars, chars_eq_refl, eq_of_chars_eq}
use artifact_engine.Prelude.Sorting.{sorted, any-sorted}
use artifact_engine.Outputs.{System, Entry, Folder, fresh_names, is_in, same_file, stat}
use artifact_engine.Outputs.Record.{Stamp, update, Dict, item_lt, read, write}
use artifact_engine.Outputs.Settle.{
  Candidate, current, Removing, candidates_of, settle_with, settle, settle_all,
}
use artifact_engine.Outputs.Settle.Removal.{round_of, settle_all-files}
use artifact_engine.Outputs.Due.{MustGo, condemns-MustGo}
use artifact_engine.Outputs.Rounds.{Round, condemns, rounds, rounds-spare, rounds-stat}

pub write-files :
    (sys : System) (items : Dict Stamp) (f : Folder) → (write sys items f).files ≡ f.files
unfolding write
write-files sys items f = elim (Bool-cases f.writable) [ inl w ↦ rw w refl | inr w ↦ rw w refl ]

-- The file of a name in the folder that a step gave; nothing when it raised.
abbrev pub file_after {ℓ} :
    {A : Type ℓ} → System → Chars → Option (A × Folder) → Option (Option Entry)
file_after sys k none = none
file_after sys k (some (x, f)) = some (stat sys k f.files)

-- Two names of one file are equal without case, as the file system has it.
abbrev pub OneFold : System → Type 0
OneFold sys = (a b : Chars) → sys.resolved a ≡ sys.resolved b → sys.casefold a ≡ sys.casefold b

pub is_in-fresh :
    (sys : System) (n : Chars) (names : List Chars)
    → Any (λ m. m ≡ n) names
    → is_in (sys.casefold n) (fresh_names sys names) ≡ true
is_in-fresh sys n [] h = absurd h
is_in-fresh sys n (m ∷ names) (inl h) = rw (h, chars_eq_refl (sys.casefold n)) refl
is_in-fresh sys n (m ∷ names) (inr h) = ground (arith, is_in-fresh sys n names h)

-- The rounds of `settle`, over the candidates in their order.
abbrev pub rounds_of : System → (names : List Chars) → ℕ → List Candidate → List Round
rounds_of sys names started cs =
    map (round_of sys (fresh_names sys names) started) (sorted item_lt cs)

module _ (sys : System) (names declared : List Chars) (started : ℕ) (f : Folder) where
  settle_with-files :
      (cs : List Candidate)
      → (settle_with sys cs names started f).1.files
        ≡ rounds sys (rounds_of sys names started cs) f.files
  unfolding settle_with
  settle_with-files cs =
      let r0 : Removing = record { files = f.files; removed = []; kept = [] } in
      let r = settle_all sys (fresh_names sys names) started (sorted item_lt cs) r0 in
      write-files sys (update r.kept (current sys r.files names)) (record f { files = r.files })
      ∙ settle_all-files sys (fresh_names sys names) started (sorted item_lt cs) r0

  settle-eq :
      (k : Chars) (cs : List Candidate)
      → candidates_of sys (read sys f.stored) declared ≡ some cs
      → file_after sys k (settle sys names declared started f)
        ≡ some (stat sys k (rounds sys (rounds_of sys names started cs) f.files))
  unfolding settle
  settle-eq k cs h = rw (h, settle_with-files cs) refl

  any-rounds_of :
      (k : Chars) (e : Entry) (cs : List Candidate)
      → any (condemns sys k e) (rounds_of sys names started cs)
        ≡ any (λ c. condemns sys k e (round_of sys (fresh_names sys names) started c)) cs
  any-rounds_of k e cs =
      any-map (round_of sys (fresh_names sys names) started) (condemns sys k e) (sorted item_lt cs)
      ∙ any-sorted item_lt (λ c. condemns sys k e (round_of sys (fresh_names sys names) started c))
          cs

  settle-judged :
      (k : Chars) (e : Entry) (cs : List Candidate)
      → candidates_of sys (read sys f.stored) declared ≡ some cs
      → stat sys k f.files ≡ some e
      → e.leaves ≡ none
      → file_after sys k (settle sys names declared started f)
        ≡ some (
            if any (λ c. condemns sys k e (round_of sys (fresh_names sys names) started c)) cs
            then none
            else some e)
  settle-judged k e cs readable here free =
      rw
        (
          settle-eq k cs readable,
          rounds-stat sys k e (rounds_of sys names started cs) f.files here free,
          any-rounds_of k e cs,
        )
        refl

  -- `settle` removes a file that can be removed exactly if a candidate must go: it has a safe name of
  -- this file, which but for case is none of those that the run produced, and its recorded stamp is
  -- the one the file has, or without a record, the file is older than a known start of the run. Else
  -- the file is as it was. This when the record, if any, can be read.
  pub settle_removes :
      (k : Chars) (e : Entry) (cs : List Candidate)
      → candidates_of sys (read sys f.stored) declared ≡ some cs
      → stat sys k f.files ≡ some e
      → e.leaves ≡ none
      → (Any (MustGo sys names started k e.stamp) cs
          × (file_after sys k (settle sys names declared started f) ≡ some none))
        ⊎ ((¬ Any (MustGo sys names started k e.stamp) cs)
            × (file_after sys k (settle sys names declared started f) ≡ some (some e)))
  settle_removes k e cs readable here free =
      let after = settle-judged k e cs readable here free in
      elim (any-Any (λ c. condemns sys k e (round_of sys (fresh_names sys names) started c))
        (MustGo sys names started k e.stamp) cs (condemns-MustGo sys names started k e)) [
          | inl (goes, h) ↦ inl (goes, rw h at after)
          | inr (stays, h) ↦ inr (stays, rw h at after)
        ]

  fresh_is_spared :
      (n : Chars) (e : Entry) (c : Candidate)
      → OneFold sys
      → Any (λ m. m ≡ n) names
      → condemns sys n e (round_of sys (fresh_names sys names) started c) ≡ false
  fresh_is_spared n e (name, stamp) one m = elim (Bool-cases (same_file sys n name)) [
    | inl same ↦
        let fold : sys.casefold n ≡ sys.casefold name =
          one n name (eq_of_chars_eq (sys.resolved n) (sys.resolved name) same) in
        let h = rw fold at (is_in-fresh sys n names m) in ground (arith, h)
    | inr apart ↦ ground (arith, apart)
  ]

  fresh_are_spared :
      (n : Chars) (e : Entry) (cs : List Candidate)
      → OneFold sys
      → Any (λ m. m ≡ n) names
      → any (λ c. condemns sys n e (round_of sys (fresh_names sys names) started c)) cs ≡ false
  fresh_are_spared n e [] one m = refl
  fresh_are_spared n e (c ∷ cs) one m =
      rw (fresh_is_spared n e c one m, fresh_are_spared n e cs one m) refl

  -- What the run just produced is in the folder behind `settle` as it was before, whatever the
  -- record or the manifest name, if the record can be read, and names of one file are equal without
  -- case.
  pub settle_keeps_fresh :
      (n : Chars) (cs : List Candidate)
      → candidates_of sys (read sys f.stored) declared ≡ some cs
      → OneFold sys
      → Any (λ m. m ≡ n) names
      → file_after sys n (settle sys names declared started f) ≡ some (stat sys n f.files)
  settle_keeps_fresh n cs readable one m =
      rw
        (
          settle-eq n cs readable,
          rounds-spare sys n (rounds_of sys names started cs) f.files (stat sys n f.files) refl
              (λ e. any-rounds_of n e cs ∙ fresh_are_spared n e cs one m),
        )
        refl
