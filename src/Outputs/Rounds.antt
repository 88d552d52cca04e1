-- ===== src/Outputs/Rounds.antt =====
-- What one round of the loops of `settle` and `retire` (src/artifact_engine/core/outputs.py) does to
-- the files: a name that is not spared has its file removed, if its stamp allows it.
use artifact_engine.Prelude.{
  ℕ, ◌≡◌, refl, sym, ◌∙◌, inl, inr, Bool, true, false, not, ◌&&◌, Option, none, some, List, [], ◌∷◌,
  any, if◌then◌else◌, Bool-cases, arith,
}
use artifact_engine.Prelude.Chars.{Chars}
use artifact_engine.Outputs.{
  System, Entry, Files, attempt, same_file, stat, stat-unlink, stat-restamp, same_file-stat,
}

-- A name, whether it is spared, and the stamps at which its file goes.
pub record Round : Type 0 where
  pub name : Chars
  pub spared : Bool
  pub goes : ℕ → Bool

module _ (sys : System) where
  abbrev pub found_round : Round → Option Entry → Files → Files
  found_round c none files = files
  found_round c (some e) files = if c.goes e.stamp then attempt sys c.name e.leaves files else files

  abbrev pub round : Round → Files → Files
  round c files = if c.spared then files else found_round c (stat sys c.name files) files

  abbrev pub rounds : List Round → Files → Files
  rounds [] files = files
  rounds (c ∷ cs) files = rounds cs (round c files)

  module _ (k : Chars) where
    -- A round that has the file of a name removed.
    abbrev pub condemns : Entry → Round → Bool
    condemns e c = not c.spared && (same_file sys k c.name && c.goes e.stamp)

    attempt-other :
        (name : Chars) (leaves : Option ℕ) (files : Files)
        → same_file sys k name ≡ false
        → stat sys k (attempt sys name leaves files) ≡ stat sys k files
    attempt-other name none files apart = rw (stat-unlink sys k name files, apart) refl
    attempt-other name (some s) files apart = stat-restamp sys k name s files apart

    found-other :
        (c : Round) (found : Option Entry) (files : Files)
        → same_file sys k c.name ≡ false
        → stat sys k (found_round c found files) ≡ stat sys k files
    found-other c none files apart = refl
    found-other c (some e) files apart = elim (Bool-cases (c.goes e.stamp)) [
      | inl stale ↦ rw stale (attempt-other c.name e.leaves files apart)
      | inr other ↦ rw other refl
    ]

    found-own :
        (e : Entry) (c : Round) (found : Option Entry) (files : Files)
        → found ≡ some e
        → same_file sys k c.name ≡ true
        → c.goes e.stamp ≡ true
        → e.leaves ≡ none
        → stat sys k (found_round c found files) ≡ none
    found-own e c found files here same goes free =
        rw (here, goes, free, stat-unlink sys k c.name files, same) refl

    found-stays :
        (e : Entry) (c : Round) (found : Option Entry) (files : Files)
        → found ≡ some e
        → c.goes e.stamp ≡ false
        → found_round c found files ≡ files
    found-stays e c found files here stays = rw (here, stays) refl

    round-stays :
        (e : Entry) (c : Round) (files : Files)
        → stat sys k files ≡ some e
        → condemns e c ≡ false
        → stat sys k (round c files) ≡ some e
    round-stays e c files h off = elim (Bool-cases c.spared) [
      | inl spared ↦ rw spared h
      | inr judged ↦ elim (Bool-cases (same_file sys k c.name)) [
        | inl same ↦
            let here = sym (same_file-stat sys k c.name files same) ∙ h in
            rw
              (
                judged,
                found-stays e c (stat sys c.name files) files here (rw (judged, same) at off),
              )
              h
        | inr apart ↦ rw judged (found-other c (stat sys c.name files) files apart ∙ h)
      ]
    ]

    round-removes :
        (e : Entry) (c : Round) (files : Files)
        → stat sys k files ≡ some e
        → condemns e c ≡ true
        → e.leaves ≡ none
        → stat sys k (round c files) ≡ none
    round-removes e c files h on free = elim (Bool-cases c.spared) [
      | inl spared ↦ cc (rw spared at on)
      | inr judged ↦ elim (Bool-cases (same_file sys k c.name)) [
        | inl same ↦ rw judged (
            found-own e c (stat sys c.name files) files
              (sym (same_file-stat sys k c.name files same) ∙ h) same (rw (judged, same) at on)
              free)
        | inr apart ↦ cc (rw (judged, apart) at on)
      ]
    ]

    round-gone :
        (c : Round) (files : Files) → stat sys k files ≡ none → stat sys k (round c files) ≡ none
    round-gone c files h = elim (Bool-cases c.spared) [
      | inl spared ↦ rw spared h
      | inr judged ↦ elim (Bool-cases (same_file sys k c.name)) [
        | inl same ↦ rw (judged, sym (same_file-stat sys k c.name files same) ∙ h) h
        | inr apart ↦ rw judged (found-other c (stat sys c.name files) files apart ∙ h)
      ]
    ]

    rounds-gone :
        (cs : List Round) (files : Files)
        → stat sys k files ≡ none
        → stat sys k (rounds cs files) ≡ none
    rounds-gone [] files h = h
    rounds-gone (c ∷ cs) files h = rounds-gone cs (round c files) (round-gone c files h)

    -- A file that no round condemns stays as it is.
    rounds_stay :
        (e : Entry) (cs : List Round) (files : Files)
        → stat sys k files ≡ some e
        → any (condemns e) cs ≡ false
        → stat sys k (rounds cs files) ≡ some e
    rounds_stay e [] files h off = h
    rounds_stay e (c ∷ cs) files h off =
        rounds_stay e cs (round c files) (round-stays e c files h (ground (arith, off)))
          (ground (arith, off))

    -- A name of which no file is ever condemned is looked up as before.
    pub rounds-spare :
        (cs : List Round) (files : Files) (found : Option Entry)
        → stat sys k files ≡ found
        → ((e : Entry) → any (condemns e) cs ≡ false)
        → stat sys k (rounds cs files) ≡ found
    rounds-spare cs files none h off = rounds-gone cs files h
    rounds-spare cs files (some e) h off = rounds_stay e cs files h (off e)

    -- A file that can be removed goes exactly if a round condemns it.
    pub rounds-stat :
        (e : Entry) (cs : List Round) (files : Files)
        → stat sys k files ≡ some e
        → e.leaves ≡ none
        → stat sys k (rounds cs files) ≡ (if any (condemns e) cs then none else some e)
    rounds-stat e [] files h free = h
    rounds-stat e (c ∷ cs) files h free = elim (Bool-cases (condemns e c)) [
      | inl gone ↦ rw gone (rounds-gone cs (round c files) (round-removes e c files h gone free))
      | inr stays ↦ rw stays (rounds-stat e cs (round c files) (round-stays e c files h stays) free)
    ]
