-- ===== src/Scheduler/Levels/Chain.antt =====
-- The length of a parser's longest chain of dependencies, when these have no cycle
-- (src/artifact_engine/core/scheduler.py).
use artifact_engine.Prelude.{
  ℕ, zero, suc, max, ◌<◌, ◌≡◌, refl, ap, subst, String, ◌⊎◌, inl, inr, none, List, [], ◌∷◌, arith,
  Any, All, All-at, Option-cases,
}
use artifact_engine.Scheduler.Manifest.{Parser, by_id, by_id-id, by_id-mem}
use artifact_engine.Scheduler.Topo.Order.{Ranked}
use artifact_engine.Scheduler.Levels.{known_deps}

abbrev pub greatest : (Parser → ℕ) → List Parser → ℕ
greatest level [] = 0
greatest level (q ∷ deps) = max (level q) (greatest level deps)

-- One more than the greatest of the dependencies, if there are any.
abbrev pub one_above : (Parser → ℕ) → List Parser → ℕ
one_above level [] = 0
one_above level (q ∷ deps) = suc (greatest level (q ∷ deps))

-- The longest chain of dependencies, no longer than a bound.
pub chain : List Parser → ℕ → Parser → ℕ
chain parsers zero p = 0
chain parsers (suc f) p = one_above (chain parsers f) (known_deps parsers p.depends_on)

greatest-cong :
    (f g : Parser → ℕ) (P : Parser → Type 0) (deps : List Parser)
    → ((q : Parser) → P q → f q ≡ g q)
    → All P deps
    → greatest f deps ≡ greatest g deps
greatest-cong f g P [] h all = refl
greatest-cong f g P (q ∷ deps) h all = rw (h q all.0, greatest-cong f g P deps h all.1) refl

one_above-cong :
    (f g : Parser → ℕ) (P : Parser → Type 0) (deps : List Parser)
    → ((q : Parser) → P q → f q ≡ g q)
    → All P deps
    → one_above f deps ≡ one_above g deps
one_above-cong f g P [] h all = refl
one_above-cong f g P (q ∷ deps) h all = ap suc (greatest-cong f g P (q ∷ deps) h all)

pub one_above-lt :
    (level : Parser → ℕ) (deps : List Parser) (q : Parser)
    → Any (λ r. r ≡ q) deps
    → level q < one_above level deps
one_above-lt level [] q m = absurd m
one_above-lt level (r ∷ deps) q (inl e) =
    subst (λ s. level s < one_above level (r ∷ deps)) e (omega arith)
one_above-lt level (r ∷ []) q (inr m) = absurd m
one_above-lt level (r ∷ s ∷ deps) q (inr m) = omega (arith, one_above-lt level (s ∷ deps) q m)

module _ (parsers : List Parser) (rank : String → ℕ) (ranked : Ranked parsers rank) where
  -- A parser of the set, of a rank below the bound.
  abbrev pub Below : ℕ → Parser → Type 0
  Below bound q = Any (λ p. p ≡ q) parsers × (rank q.id < bound)

  known_deps-Below :
      (deps : List String) (bound : ℕ)
      → All (λ d. (by_id parsers d ≡ none) ⊎ (rank d < bound)) deps
      → All (Below bound) (known_deps parsers deps)
  unfolding known_deps
  known_deps-Below [] bound h = tt
  known_deps-Below (d ∷ deps) bound h = elim (Option-cases (by_id parsers d)) [
    | inl absent ↦ rw (absent, known_deps) (known_deps-Below deps bound h.1)
    | inr (q, found) ↦
        let below : rank d < bound = elim h.0 [ inl absent ↦ cc | inr less ↦ less ] in
        rw (found, known_deps)
          (
            (by_id-mem parsers d q found, rw (by_id-id parsers d q found) below),
            known_deps-Below deps bound h.1,
          )
  ]

  pub deps-Below :
      (p : Parser)
      → Any (λ q. q ≡ p) parsers
      → All (Below (rank p.id)) (known_deps parsers p.depends_on)
  deps-Below p m = known_deps-Below p.depends_on (rank p.id) (
      All-at (λ p. All (λ d. (by_id parsers d ≡ none) ⊎ (rank d < rank p.id)) p.depends_on) parsers
        p ranked m)

  -- Any bound above the rank gives the same length.
  chain_enough :
      (f g : ℕ) (p : Parser)
      → Any (λ q. q ≡ p) parsers
      → rank p.id < f
      → rank p.id < g
      → chain parsers f p ≡ chain parsers g p
  unfolding chain
  chain_enough zero g p m hf hg = absurd (omega (arith, hf))
  chain_enough (suc f) zero p m hf hg = absurd (omega (arith, hg))
  chain_enough (suc f) (suc g) p m hf hg =
      one_above-cong (chain parsers f) (chain parsers g) (Below (rank p.id))
        (known_deps parsers p.depends_on)
        (λ q h. chain_enough f g q h.0 (omega (arith, h.1, hf)) (omega (arith, h.1, hg)))
        (deps-Below p m)

  abbrev pub depth : Parser → ℕ
  depth p = chain parsers (suc (rank p.id)) p

  pub depth_eq :
      (p : Parser)
      → Any (λ q. q ≡ p) parsers
      → depth p ≡ one_above depth (known_deps parsers p.depends_on)
  unfolding chain
  depth_eq p m =
      one_above-cong (chain parsers (rank p.id)) depth (Below (rank p.id))
        (known_deps parsers p.depends_on)
        (λ q h. chain_enough (rank p.id) (suc (rank q.id)) q h.0 h.1 (omega arith)) (deps-Below p m)
