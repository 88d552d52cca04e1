-- ===== src/RegexLiterals/LiteralGate/Answers.antt =====
-- The answers of `LiteralGate` of src/artifact_engine/core/regex_literals.py over a run of texts.
use artifact_engine.Prelude.{
  ℕ, suc, ◌≡◌, refl, sym, ap, ◌∙◌, ◌⊎◌, inl, inr, Bool, true, false, ◌||◌, Option, none, some, List,
  [], ◌∷◌, map, leb, any, if◌then◌else◌, Any, All, arith, Bool-cases,
}
use artifact_engine.Prelude.Chars.{Chars}
use artifact_engine.SigmaPrefilter.Gate.{Search}
use artifact_engine.RegexLiterals.Tree.{Engine, fold}
use artifact_engine.RegexLiterals.Options.{Choice}
use artifact_engine.RegexLiterals.Options.Sound.{HasEach}
use artifact_engine.RegexLiterals.LiteralGate.{
  calibrate, Counted, Rule, Settled, State, start_rules, start, settle, count, count_all, observe,
  passes, answer, ask, ask_all,
}
use artifact_engine.RegexLiterals.LiteralGate.Exact.{HasCounted, Hit, passes-settle}

module _ (r : Engine) (re : Search) where
  -- One of the regexes matches the text.
  abbrev matched : List Rule → Chars → Bool
  matched rules text = any (λ rule. rule.matches text) rules

  -- A text that the regex matches has a text of each of its sets.
  abbrev IsTrue : Chars → Rule → Type 0
  IsTrue text rule = (rule.matches text ≡ false) ⊎ All (HasCounted r re text) rule.options

  matched-Hit :
      (text : Chars) (rules : List Rule)
      → All (IsTrue text) rules
      → matched rules text ≡ true
      → Any (Hit r re text) rules
  matched-Hit text [] h e = cc
  matched-Hit text (rule ∷ rules) h e = elim (Bool-cases (rule.matches text)) [
    | inl hit ↦ elim h.0 [ inl miss ↦ cc | inr holds ↦ inl (hit, holds) ]
    | inr miss ↦ inr (matched-Hit text rules h.1 (ground arith))
  ]

  count-All :
      (low text : Chars) (options : List Counted)
      → All (HasCounted r re text) options
      → All (HasCounted r re text) (count r re low options)
  unfolding count
  count-All low text [] h = tt
  count-All low text ((o, n) ∷ options) h = (h.0, count-All low text options h.1)

  count_all-IsTrue :
      (low text : Chars) (rules : List Rule)
      → All (IsTrue text) rules
      → All (IsTrue text) (count_all r re low rules)
  unfolding count_all
  count_all-IsTrue low text [] h = tt
  count_all-IsTrue low text (rule ∷ rules) h = (
    elim h.0 [ inl miss ↦ inl miss | inr holds ↦ inr (count-All low text rule.options holds) ],
    count_all-IsTrue low text rules h.1,
  )

  matched-count_all :
      (low text : Chars) (rules : List Rule)
      → matched (count_all r re low rules) text ≡ matched rules text
  unfolding count_all
  matched-count_all low text [] = refl
  matched-count_all low text (rule ∷ rules) =
      ap (λ b. rule.matches text || b) (matched-count_all low text rules)

  module _ (whole : Chars → Bool) where
    -- What is chosen lets through each text that the whole regex matches.
    abbrev IsOpen : Option Settled → Type 0
    IsOpen none = Unit
    IsOpen (some s) = (text : Chars) → (whole text ≡ false) ⊎ (passes r re s text ≡ true)

    record IsGood (st : State) : Type 0 where
      holds : (text : Chars) → All (IsTrue text) st.rules
      same : (text : Chars) → whole text ≡ matched st.rules text
      opened : IsOpen st.settled

    settle-IsOpen :
        (seen : ℕ) (rules : List Rule)
        → ((text : Chars) → All (IsTrue text) rules)
        → ((text : Chars) → whole text ≡ matched rules text)
        → IsOpen (some (settle seen rules))
    settle-IsOpen seen rules h e text = elim (Bool-cases (whole text)) [
      | inl hit ↦ inr (
          passes-settle r re text seen rules (matched-Hit text rules (h text) (sym (e text) ∙ hit)))
      | inr miss ↦ inl miss
    ]

    IsOpen-if : (b : Bool) (s : Settled) → IsOpen (some s) → IsOpen (if b then some s else none)
    IsOpen-if true s h = h
    IsOpen-if false s h = tt

    observe-IsGood : (low : Chars) (st : State) → IsGood st → IsGood (observe r re low st)
    unfolding observe
    observe-IsGood low st g =
        let holds = λ (text : Chars). count_all-IsTrue low text st.rules (g.holds text) in
        let same : (text : Chars) → whole text ≡ matched (count_all r re low st.rules) text =
          λ text. g.same text ∙ sym (matched-count_all low text st.rules) in
        record {
          holds = holds;
          same = same;
          opened =
              IsOpen-if (leb calibrate (suc st.seen))
                (settle (suc st.seen) (count_all r re low st.rules))
                (settle-IsOpen (suc st.seen) (count_all r re low st.rules) holds same);
        }

    answer-whole :
        (settled : Option Settled) (text : Chars) (st : State)
        → IsOpen settled
        → (answer r re settled whole text st).0 ≡ whole text
    answer-whole none text st h = refl
    answer-whole (some s) text st h = elim (h text) [
      | inl miss ↦ ground (arith, miss)
      | inr through ↦ ground (arith, through)
    ]

    answer-IsGood :
        (settled : Option Settled) (text : Chars) (st : State)
        → IsGood st
        → IsGood (answer r re settled whole text st).1
    answer-IsGood none text st g = observe-IsGood (fold r text) st g
    answer-IsGood (some s) text st g = g

    ask_all-whole :
        (texts : List Chars) (st : State)
        → IsGood st
        → ask_all r re (some whole) texts st ≡ map whole texts
    unfolding ask_all ask
    ask_all-whole [] st g = refl
    ask_all-whole (text ∷ texts) st g =
        rw
          (
            answer-whole st.settled text st g.opened,
            ask_all-whole texts (answer r re st.settled whole text st).1
                (answer-IsGood st.settled text st g),
          )
          refl

  All-start_rules :
      (text : Chars) (regexes : List ((Chars → Bool) × List Choice))
      → All (λ g. (g.0 text ≡ false) ⊎ HasEach r text g.1) regexes
      → All (IsTrue text) (start_rules regexes)
  All-start_rules text [] h = tt
  All-start_rules text ((m, options) ∷ regexes) h = (
    elim h.0 [ inl miss ↦ inl miss | inr each ↦ inr (zeros options each) ],
    All-start_rules text regexes h.1,
  )
    where
      zeros :
          (os : List Choice) → HasEach r text os → All (HasCounted r re text) (map (λ o. (o, 0)) os)
      zeros [] k = tt
      zeros (o ∷ os) k = (k.0, zeros os k.1)

  matched-start_rules :
      (text : Chars) (regexes : List ((Chars → Bool) × List Choice))
      → matched (start_rules regexes) text ≡ any (λ g. g.0 text) regexes
  matched-start_rules text [] = refl
  matched-start_rules text ((m, options) ∷ regexes) =
      ap (λ b. m text || b) (matched-start_rules text regexes)

  -- A new gate answers every text of a run as the combination of its regexes does, when that
  -- matches what one of them matches, and a text that one of them matches has a text of each set
  -- offered for it.
  pub ask_all-start :
      (regexes : List ((Chars → Bool) × List Choice)) (whole : Chars → Bool) (texts : List Chars)
      → ((text : Chars) → whole text ≡ any (λ g. g.0 text) regexes)
      → ((text : Chars) → All (λ g. (g.0 text ≡ false) ⊎ HasEach r text g.1) regexes)
      → ask_all r re (some whole) texts (start regexes) ≡ map whole texts
  ask_all-start regexes whole texts e h = ask_all-whole whole texts (start regexes) (record {
    holds = λ text. All-start_rules text regexes (h text);
    same = λ text. e text ∙ sym (matched-start_rules text regexes);
    opened = tt;
  })
