-- ===== src/Scheduler/Levels/Longest.antt =====
-- The levels that `_levels` of src/artifact_engine/core/scheduler.py finds, when the dependencies have
-- no cycle.
use artifact_engine.Prelude.{
  ℕ, suc, ◌<◌, ◌≡◌, refl, sym, ap, subst, String, ◌⊎◌, inl, inr, true, Option, none, some, List, [],
  ◌∷◌, length, Any, All, All-of_at, Bool-cases,
}
use artifact_engine.Prelude.Texts.{str_eq, str_eq_refl}
use artifact_engine.Scheduler.Manifest.{Parser, by_id}
use artifact_engine.Scheduler.Topo.Order.{Ranked}
use artifact_engine.Scheduler.Levels.{
  Memo, level_at, known_deps, lvl, then_all, levels_from, levels,
}
use artifact_engine.Scheduler.Levels.Ends.{levels_total}
use artifact_engine.Scheduler.Levels.Chain.{one_above, one_above-lt, depth, depth_eq}
use artifact_engine.Scheduler.Levels.Settled.{same_parser, Good, Good-Grown, lvl-level_of}

then_all-eq-some :
    (m : Option (ℕ × Memo)) (f : ℕ → Memo → Option Memo) (result : Memo)
    → then_all m f ≡ some result
    → (k : ℕ) × (mid : Memo) × (m ≡ some (k, mid)) × (f k mid ≡ some result)
then_all-eq-some none f result e = cc
then_all-eq-some (some (k, mid)) f result e = (k, mid, refl, e)

module _ (parsers : List Parser) (rank : String → ℕ) (ranked : Ranked parsers rank)
    (unique : All (λ p. by_id parsers p.id ≡ some p) parsers) where
  abbrev level_of : Parser → ℕ
  level_of = depth parsers rank ranked

  -- Every parser of the set has its level in the result, once it is passed.
  levels_from_at :
      (f : ℕ) (ps : List Parser) (out memo result : Memo)
      → ((q : Parser) → Any (λ p. p ≡ q) ps → Any (λ p. p ≡ q) parsers)
      → ((bound : ℕ) → Good parsers rank ranked unique bound memo)
      → levels_from parsers f ps out memo ≡ some result
      → (q : Parser) → Any (λ p. p ≡ q) parsers
      → Any (λ p. p ≡ q) ps ⊎ (level_at q.id out ≡ some (level_of q))
      → level_at q.id result ≡ some (level_of q)
  unfolding levels_from level_at
  levels_from_at f [] out memo result sub good e q mq (inl none_left) = absurd none_left
  levels_from_at f [] out memo result sub good e q mq (inr there) =
      let same : out ≡ result = cc e in subst (λ r. level_at q.id r ≡ some (level_of q)) same there
  levels_from_at f (p ∷ ps) out memo result sub good e q mq h =
      let (n, left, first, rest) =
        then_all-eq-some (lvl parsers f p memo)
          (λ n left. levels_from parsers f ps ((p.id, n) ∷ out) left) result e in
      let (exact, grown) =
        lvl-level_of parsers rank ranked unique f p memo n left (sub p (inl refl))
          (good (suc (rank p.id))) first in
      levels_from_at f ps ((p.id, n) ∷ out) left result (λ r m. sub r (inr m))
        (λ bound. Good-Grown parsers rank ranked unique bound memo left (good bound) grown) rest q
        mq
        (elim (Bool-cases (str_eq q.id p.id)) [
          | inl same ↦
              let e = same_parser parsers rank ranked unique p q (sub p (inl refl)) mq same in
              inr (rw (same, exact) (ap (λ r. some (level_of r)) (sym e)))
          | inr other ↦ elim h [
            | inl (inl here) ↦ let same : str_eq q.id p.id ≡ true = rw here (str_eq_refl q.id) in cc
            | inl (inr later) ↦ inl later
            | inr there ↦ inr (rw other there)
          ]
        ])

  -- If a rank falls along every dependency and an id names one parser of the set, the levels are found,
  -- and that of each parser is the length of its longest chain of dependencies in the set; so it lies
  -- above the levels of all those that it depends on.
  pub levels_longest :
      (result : Memo) × (levels parsers ≡ some result)
      × All (λ p. level_at p.id result ≡ some (level_of p)) parsers
      × All (λ p. All (λ q. level_of q < level_of p) (known_deps parsers p.depends_on)) parsers
  unfolding levels level_at
  levels_longest =
      let (result, e, _) = levels_total parsers in
      (
        result,
        e,
        All-of_at (λ p. level_at p.id result ≡ some (level_of p)) parsers
            (λ q m.
              levels_from_at (suc (length parsers)) parsers [] [] result (λ r m. m)
                (λ bound r n m none_held. cc) e q m (inl m)),
        All-of_at (λ p. All (λ q. level_of q < level_of p) (known_deps parsers p.depends_on))
            parsers
            (λ p m. rw (depth_eq parsers rank ranked p m) (
              All-of_at (λ q. level_of q < one_above level_of (known_deps parsers p.depends_on))
                (known_deps parsers p.depends_on)
                (one_above-lt level_of (known_deps parsers p.depends_on)))),
      )
