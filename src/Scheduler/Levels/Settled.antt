-- ===== src/Scheduler/Levels/Settled.antt =====
-- What the memo of `_levels` (src/artifact_engine/core/scheduler.py) holds, when the dependencies have
-- no cycle.
use artifact_engine.Prelude.{
  ℕ, zero, suc, max, ◌≤◌, ◌≡◌, refl, sym, ap, ◌∙◌, subst, String, ◌⊎◌, inl, inr, true, Option, none,
  some, List, [], ◌∷◌, arith, Any, All, All-at, Bool-cases, Option-cases,
}
use artifact_engine.Prelude.Texts.{str_eq, eq_of_str_eq}
use artifact_engine.Scheduler.Manifest.{Parser, by_id}
use artifact_engine.Scheduler.Topo.Order.{Ranked}
use artifact_engine.Scheduler.Levels.{
  Memo, level_at, then_level, known_deps, max_level, set_level, level_over, lvl,
}
use artifact_engine.Scheduler.Levels.Chain.{greatest, one_above, Below, deps-Below, depth, depth_eq}

then_level-eq-some :
    (m : Option (ℕ × Memo)) (f : ℕ → Memo → Option (ℕ × Memo)) (n : ℕ) (left : Memo)
    → then_level m f ≡ some (n, left)
    → (k : ℕ) × (mid : Memo) × (m ≡ some (k, mid)) × (f k mid ≡ some (n, left))
then_level-eq-some none f n left e = cc
then_level-eq-some (some (k, mid)) f n left e = (k, mid, refl, e)

module _ (parsers : List Parser) (rank : String → ℕ) (ranked : Ranked parsers rank)
    (unique : All (λ p. by_id parsers p.id ≡ some p) parsers) where
  abbrev pub InSet : Parser → Type 0
  InSet q = Any (λ p. p ≡ q) parsers

  abbrev pub level_of : Parser → ℕ
  level_of = depth parsers rank ranked

  pub same_parser : (p q : Parser) → InSet p → InSet q → str_eq q.id p.id ≡ true → q ≡ p
  same_parser p q mp mq same =
      let e = eq_of_str_eq q.id p.id same in
      let of_p = All-at (λ p. by_id parsers p.id ≡ some p) parsers p unique mp in
      let of_q = All-at (λ p. by_id parsers p.id ≡ some p) parsers q unique mq in
      let both : some q ≡ some p = sym of_q ∙ ap (by_id parsers) e ∙ of_p in cc

  -- What the memo has is right, or of a parser whose level is being found.
  abbrev pub Good : ℕ → Memo → Type 0
  Good bound memo =
      (q : Parser) (n : ℕ)
      → InSet q
      → level_at q.id memo ≡ some n
      → (n ≡ level_of q) ⊎ (bound ≤ rank q.id)

  abbrev pub Grown : Memo → Memo → Type 0
  Grown memo left =
      (q : Parser) (n : ℕ)
      → InSet q
      → level_at q.id left ≡ some n
      → (level_at q.id memo ≡ some n) ⊎ (n ≡ level_of q)

  pub Good-Grown :
      (bound : ℕ) (memo left : Memo) → Good bound memo → Grown memo left → Good bound left
  Good-Grown bound memo left h g q n m e = elim (g q n m e) [
    | inl before ↦ h q n m before
    | inr right ↦ inl right
  ]

  abbrev Finds : ℕ → (Parser → Memo → Option (ℕ × Memo)) → Type 0
  Finds bound go =
      (q : Parser) (memo : Memo) (n : ℕ) (left : Memo)
      → Below parsers rank ranked bound q
      → Good bound memo
      → go q memo ≡ some (n, left)
      → (n ≡ level_of q) × Grown memo left

  max_level-greatest :
      (go : Parser → Memo → Option (ℕ × Memo)) (deps : List Parser) (bound best : ℕ) (memo : Memo)
      (n : ℕ) (left : Memo)
      → Finds bound go
      → All (Below parsers rank ranked bound) deps
      → Good bound memo
      → max_level parsers go deps best memo ≡ some (n, left)
      → (n ≡ max best (greatest level_of deps)) × Grown memo left
  unfolding max_level
  max_level-greatest go [] bound best memo n left finds below h e =
      let same_level : n ≡ best = cc e in
      let same_memo : left ≡ memo = cc e in
      (
        omega (arith, same_level),
        λ q k m there. inl (subst (λ l. level_at q.id l ≡ some k) same_memo there),
      )
  max_level-greatest go (q ∷ deps) bound best memo n left finds below h e =
      let (k, mid, first, rest) =
        then_level-eq-some (go q memo) (λ n left. max_level parsers go deps (max best n) left) n
          left e in
      let (right, grown) = finds q memo k mid below.0 h first in
      let (most, more) =
        max_level-greatest go deps bound (max best k) mid n left finds below.1
          (Good-Grown bound memo mid h grown) rest in
      (
        omega (arith, most, right),
        λ r l m e. elim (more r l m e) [ inl before ↦ grown r l m before | inr there ↦ inr there ],
      )

  level_over-one_above :
      (go : Parser → Memo → Option (ℕ × Memo)) (x : String) (deps : List Parser) (bound : ℕ)
      (memo : Memo) (n : ℕ) (left : Memo)
      → Finds bound go
      → All (Below parsers rank ranked bound) deps
      → Good bound memo
      → level_over parsers go x deps memo ≡ some (n, left)
      → (n ≡ one_above level_of deps) × ((mid : Memo) × (left ≡ (x, n) ∷ mid) × Grown memo mid)
  unfolding level_over
  level_over-one_above go x [] bound memo n left finds below h e =
      let zero_level : n ≡ 0 = cc e in
      (zero_level, (memo, rw zero_level (cc e), λ q k m there. inl there))
  level_over-one_above go x (q ∷ deps) bound memo n left finds below h e =
      let (k, mid, found, placed) =
        then_level-eq-some (max_level parsers go (q ∷ deps) 0 memo)
          (λ best left. set_level x (suc best) left) n left e in
      let (most, grown) = max_level-greatest go (q ∷ deps) bound 0 memo k mid finds below h found in
      let up : n ≡ suc k = cc placed in (omega (arith, up, most), (mid, rw up (cc placed), grown))

  -- A parser whose level is being found is held at 0.
  Good-start :
      (p : Parser) (memo : Memo) → Good (suc (rank p.id)) memo → Good (rank p.id) ((p.id, 0) ∷ memo)
  unfolding level_at
  Good-start p memo h q n mq there = elim (Bool-cases (str_eq q.id p.id)) [
    | inl same ↦ inr (rw (eq_of_str_eq q.id p.id same) (omega arith))
    | inr other ↦ elim (h q n mq (rw other at there)) [
      | inl right ↦ inl right
      | inr above ↦ inr (omega (arith, above))
    ]
  ]

  Grown-set :
      (p : Parser) (memo mid : Memo) (n : ℕ)
      → InSet p
      → n ≡ level_of p
      → Grown ((p.id, 0) ∷ memo) mid
      → Grown memo ((p.id, n) ∷ mid)
  unfolding level_at
  Grown-set p memo mid n m exact grown q k mq there = elim (Bool-cases (str_eq q.id p.id)) [
    | inl same ↦
        let level : some n ≡ some k = rw same at there in
        let found : n ≡ k = cc level in
        inr (subst (λ r. k ≡ level_of r) (sym (same_parser p q m mq same)) (sym found ∙ exact))
    | inr other ↦ elim (grown q k mq (rw other at there)) [
      | inl before ↦ inl (rw other at before)
      | inr right ↦ inr right
    ]
  ]

  pub lvl-level_of :
      (f : ℕ) (p : Parser) (memo : Memo) (n : ℕ) (left : Memo)
      → InSet p
      → Good (suc (rank p.id)) memo
      → lvl parsers f p memo ≡ some (n, left)
      → (n ≡ level_of p) × Grown memo left
  unfolding lvl
  lvl-level_of zero p memo n left m h e = cc
  lvl-level_of (suc f) p memo n left m h e = elim (Option-cases (level_at p.id memo)) [
    | inl fresh ↦
        let started : Memo = (p.id, 0) ∷ memo in
        let computed : level_over parsers (lvl parsers f) p.id (known_deps parsers p.depends_on)
              started
            ≡ some (n, left) =
          rw (fresh, lvl) at e in
        let (right, (mid, placed, grown)) =
          level_over-one_above (lvl parsers f) p.id (known_deps parsers p.depends_on) (rank p.id)
            started n left
            (λ q memo n left below good found.
              lvl-level_of f q memo n left below.0
                (λ r k m there. elim (good r k m there) [
                  | inl settled ↦ inl settled
                  | inr above ↦ inr (omega (arith, above, below.1))
                ])
                found)
            (deps-Below parsers rank ranked p m) (Good-start p memo h) computed in
        let exact : n ≡ level_of p = right ∙ sym (depth_eq parsers rank ranked p m) in
        (exact, subst (Grown memo) (sym placed) (Grown-set p memo mid n m exact grown))
    | inr (k, before) ↦
        let held : some (k, memo) ≡ some (n, left) = rw (before, lvl) at e in
        let same_level : k ≡ n = cc held in
        let same_memo : memo ≡ left = cc held in
        (
          elim (h p k m before) [
            | inl right ↦ sym same_level ∙ right
            | inr above ↦ absurd (omega (arith, above))
          ],
          subst (Grown memo) same_memo (λ q k mq there. inl there),
        )
  ]
