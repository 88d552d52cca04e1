-- ===== src/RegexLiterals/LiteralGate/Exact.antt =====
-- `LiteralGate` of src/artifact_engine/core/regex_literals.py answers as the regexes themselves do,
-- before, at and after its calibration.
use artifact_engine.Prelude.{
  ℕ, ◌*◌, ◌≡◌, refl, ◌∙◌, ◌⊎◌, inl, inr, Bool, true, ◌||◌, List, [], ◌∷◌, ◌++◌, ltb, any, Any, All,
  arith, Bool-cases,
}
use artifact_engine.Prelude.Chars.{chars_lt, Chars, Occurs}
use artifact_engine.Prelude.CharSets.{Any-union_left, Any-union_right}
use artifact_engine.Prelude.Sorting.{sorted, Any-sorted}
use artifact_engine.SigmaPrefilter.Gate.{Search}
use artifact_engine.SigmaPrefilter.Gate.Found.{search-trie_pattern}
use artifact_engine.RegexLiterals.Tree.{Engine, fold}
use artifact_engine.RegexLiterals.Options.Sound.{HasOne}
use artifact_engine.RegexLiterals.LiteralGate.{
  Counted, Rule, is_better, least, Chosen, choose, choose_rule, choose_all, open_rule, open_rules,
  first_of, settle, finds, passes,
}

any-append_last :
    (text : Chars) (xs : List (Chars → Bool)) (m : Chars → Bool)
    → any (λ g. g text) (xs ++ m ∷ []) ≡ (any (λ g. g text) xs || m text)
any-append_last text [] m = ground arith
any-append_last text (x ∷ xs) m = ground (arith, any-append_last text xs m)

All-least :
    (P : Counted → Type 0) (o : Counted) (options : List Counted)
    → All P (o ∷ options)
    → P (least o options)
unfolding least
All-least P o [] h = h.0
All-least P o (p ∷ options) h = elim (Bool-cases (is_better p o)) [
  | inl better ↦ rw better (All-least P p options h.1)
  | inr worse ↦ rw worse (All-least P o options (h.0, h.1.1))
]

module _ (r : Engine) (re : Search) (text : Chars) where
  abbrev pub HasCounted : Counted → Type 0
  HasCounted c = HasOne r text c.0

  -- A regex that matches the text, which holds a text of each of its sets.
  abbrev pub Hit : Rule → Type 0
  Hit rule = (rule.matches text ≡ true) × All HasCounted rule.options

  abbrev IsThrough : Chosen → Type 0
  IsThrough c = (any (λ g. g text) c.opened ≡ true) ⊎ HasOne r text c.lits

  choose-old :
      (seen : ℕ) (m : Chars → Bool) (o : Counted) (c : Chosen)
      → IsThrough c
      → IsThrough (choose seen m o c)
  unfolding choose
  choose-old seen m (o, n) c h = elim (Bool-cases (ltb seen (n * 2))) [
    | inl common ↦ rw common (elim h [
      | inl opened ↦ inl (any-append_last text c.opened m ∙ ground (arith, opened))
      | inr held ↦ inr held
    ])
    | inr rare ↦ rw rare (elim h [
      | inl opened ↦ inl opened
      | inr held ↦ inr (Any-union_left (λ s. Occurs s (fold r text)) c.lits o held)
    ])
  ]

  choose-new :
      (seen : ℕ) (m : Chars → Bool) (o : Counted) (c : Chosen)
      → m text ≡ true
      → HasCounted o
      → IsThrough (choose seen m o c)
  unfolding choose
  choose-new seen m (o, n) c e h = elim (Bool-cases (ltb seen (n * 2))) [
    | inl common ↦ rw common (inl (any-append_last text c.opened m ∙ ground (arith, e)))
    | inr rare ↦ rw rare (inr (Any-union_right (λ s. Occurs s (fold r text)) c.lits o h))
  ]

  choose_rule-old :
      (seen : ℕ) (m : Chars → Bool) (options : List Counted) (c : Chosen)
      → IsThrough c
      → IsThrough (choose_rule seen m options c)
  choose_rule-old seen m [] c h = h
  choose_rule-old seen m (o ∷ options) c h = choose-old seen m (least o options) c h

  -- A matching regex is open, or it gets the text through.
  choose_rule-new :
      (seen : ℕ) (m : Chars → Bool) (options : List Counted) (c : Chosen)
      (rest : List (Chars → Bool))
      → m text ≡ true
      → All HasCounted options
      → (any (λ g. g text) (open_rule m options rest) ≡ true)
        ⊎ IsThrough (choose_rule seen m options c)
  choose_rule-new seen m [] c rest e h = inl (ground (arith, e))
  choose_rule-new seen m (o ∷ options) c rest e h =
      inr (choose-new seen m (least o options) c e (All-least HasCounted o options h))

  open_rule-rest :
      (m : Chars → Bool) (options : List Counted) (rest : List (Chars → Bool))
      → any (λ g. g text) rest ≡ true
      → any (λ g. g text) (open_rule m options rest) ≡ true
  open_rule-rest m [] rest h = ground (arith, h)
  open_rule-rest m (o ∷ options) rest h = h

  choose_all-old :
      (seen : ℕ) (rules : List Rule) (c : Chosen)
      → IsThrough c
      → IsThrough (choose_all seen rules c)
  unfolding choose_all
  choose_all-old seen [] c h = h
  choose_all-old seen (rule ∷ rules) c h =
      choose_all-old seen rules (choose_rule seen rule.matches rule.options c)
        (choose_rule-old seen rule.matches rule.options c h)

  choose_all-new :
      (seen : ℕ) (rules : List Rule) (c : Chosen)
      → Any Hit rules
      → (any (λ g. g text) (open_rules rules) ≡ true) ⊎ IsThrough (choose_all seen rules c)
  unfolding choose_all open_rules
  choose_all-new seen [] c h = absurd h
  choose_all-new seen (rule ∷ rules) c (inl (e, h)) =
      elim (choose_rule-new seen rule.matches rule.options c (open_rules rules) e h) [
        | inl opened ↦ inl opened
        | inr through ↦
            inr (choose_all-old seen rules (choose_rule seen rule.matches rule.options c) through)
      ]
  choose_all-new seen (rule ∷ rules) c (inr h) =
      elim (choose_all-new seen rules (choose_rule seen rule.matches rule.options c) h) [
        | inl opened ↦ inl (open_rule-rest rule.matches rule.options (open_rules rules) opened)
        | inr through ↦ inr through
      ]

  finds-first_of :
      (lits : List Chars) → HasOne r text lits → finds r re (first_of lits) (fold r text) ≡ true
  finds-first_of [] h = absurd h
  finds-first_of (s ∷ lits) h =
      search-trie_pattern re (fold r text) (sorted chars_lt (s ∷ lits))
        (Any-sorted chars_lt (λ l. Occurs l (fold r text)) (s ∷ lits) h)

  -- Whatever the counts, the chosen literals and the open regexes let through a text that a regex
  -- matches.
  pub passes-settle :
      (seen : ℕ) (rules : List Rule) → Any Hit rules → passes r re (settle seen rules) text ≡ true
  unfolding settle
  passes-settle seen rules h =
      let opened : Chosen = record { opened = open_rules rules; lits = [] } in
      let c = choose_all seen rules opened in
      let through : IsThrough c = elim (choose_all-new seen rules opened h) [
        | inl o ↦ choose_all-old seen rules opened (inl o)
        | inr t ↦ t
      ] in
      elim through [
        | inl o ↦ ground (arith, o)
        | inr held ↦ let e = finds-first_of c.lits held in rw e refl
      ]
