-- ===== src/Scheduler/Levels/Ends.antt =====
-- `_levels` of src/artifact_engine/core/scheduler.py ends, also when the dependencies have a cycle.
use artifact_engine.Prelude.{
  ℕ, zero, suc, max, ◌<◌, ◌≡◌, refl, String, inl, inr, true, false, Option, none, some, List, [],
  ◌∷◌, length, arith, Any, All, All-at, All-of_at, Bool-cases, Option-cases,
}
use artifact_engine.Prelude.Texts.{has, str_eq, str_eq_refl}
use artifact_engine.Scheduler.Manifest.{Parser, by_id, by_id-mem}
use artifact_engine.Scheduler.Topo.Total.{unseen, unseen-le, unseen-see, length-unseen, Grows}
use artifact_engine.Scheduler.Levels.{
  Memo, level_at, then_level, known_deps, max_level, set_level, level_over, lvl, levels_from,
  levels,
}

abbrev pub keys : Memo → List String
keys [] = []
keys ((x, n) ∷ memo) = x ∷ keys memo

level_at-none : (x : String) (memo : Memo) → level_at x memo ≡ none → has x (keys memo) ≡ false
unfolding level_at
level_at-none x [] e = refl
level_at-none x ((y, n) ∷ memo) e = ground (arith, e, level_at-none x memo)

level_at-has :
    (x : String) (memo : Memo) → has x (keys memo) ≡ true → (n : ℕ) × (level_at x memo ≡ some n)
unfolding level_at
level_at-has x [] h = cc
level_at-has x ((y, n) ∷ memo) h = elim (Bool-cases (str_eq x y)) [
  | inl same ↦ (n, rw same refl)
  | inr other ↦ let (k, e) = level_at-has x memo (ground (arith, h, other)) in (k, rw other e)
]

-- A step ends, and keeps the keys of the memo.
abbrev Ends : Memo → Option (ℕ × Memo) → Type 0
Ends memo r = (n : ℕ) × (left : Memo) × (r ≡ some (n, left)) × Grows (keys memo) (keys left)

Ends-bind :
    (memo : Memo) (r : Option (ℕ × Memo)) (f : ℕ → Memo → Option (ℕ × Memo))
    → Ends memo r
    → ((n : ℕ) (left : Memo) → Grows (keys memo) (keys left) → Ends left (f n left))
    → Ends memo (then_level r f)
Ends-bind memo r f (n, left, e, g) next =
    let (k, last, e', g') = next n left g in (k, last, rw e e', λ x h. g' x (g x h))

Ends-set : (x : String) (n : ℕ) (memo : Memo) → Ends memo (set_level x n memo)
Ends-set x n memo = (n, (x, n) ∷ memo, refl, λ y h. ground (arith, h))

module _ (parsers : List Parser) where
  max_level-Ends :
      (go : Parser → Memo → Option (ℕ × Memo)) (deps : List Parser) (bound best : ℕ) (memo : Memo)
      → ((q : Parser) (m : Memo)
          → Any (λ p. p ≡ q) parsers
          → unseen parsers (keys m) < bound
          → Ends m (go q m))
      → All (λ q. Any (λ p. p ≡ q) parsers) deps
      → unseen parsers (keys memo) < bound
      → Ends memo (max_level parsers go deps best memo)
  unfolding max_level
  max_level-Ends go [] bound best memo h in_set few = (best, memo, refl, λ x k. k)
  max_level-Ends go (q ∷ deps) bound best memo h in_set few =
      Ends-bind memo (go q memo) (λ n left. max_level parsers go deps (max best n) left)
        (h q memo in_set.0 few)
        (λ n left g.
          max_level-Ends go deps bound (max best n) left h in_set.1
            (omega (arith, unseen-le parsers (keys memo) (keys left) g)))

  pub known_deps-in_set :
      (deps : List String) → All (λ q. Any (λ p. p ≡ q) parsers) (known_deps parsers deps)
  unfolding known_deps
  known_deps-in_set [] = tt
  known_deps-in_set (d ∷ deps) = elim (Option-cases (by_id parsers d)) [
    | inl absent ↦ rw (absent, known_deps) (known_deps-in_set deps)
    | inr (q, found) ↦ rw (found, known_deps) (by_id-mem parsers d q found, known_deps-in_set deps)
  ]

  level_over-Ends :
      (go : Parser → Memo → Option (ℕ × Memo)) (x : String) (deps : List Parser) (bound : ℕ)
      (memo : Memo)
      → ((q : Parser) (m : Memo)
          → Any (λ p. p ≡ q) parsers
          → unseen parsers (keys m) < bound
          → Ends m (go q m))
      → All (λ q. Any (λ p. p ≡ q) parsers) deps
      → unseen parsers (keys memo) < bound
      → Ends memo (level_over parsers go x deps memo)
  unfolding level_over
  level_over-Ends go x [] bound memo h in_set few = Ends-set x 0 memo
  level_over-Ends go x (q ∷ deps) bound memo h in_set few =
      Ends-bind memo (max_level parsers go (q ∷ deps) 0 memo)
        (λ best left. set_level x (suc best) left)
        (max_level-Ends go (q ∷ deps) bound 0 memo h in_set few)
        (λ best left g. Ends-set x (suc best) left)

  lvl-Ends :
      (f : ℕ) (p : Parser) (memo : Memo)
      → Any (λ q. q ≡ p) parsers
      → unseen parsers (keys memo) < f
      → Ends memo (lvl parsers f p memo)
  unfolding lvl
  lvl-Ends zero p memo m few = absurd (omega arith)
  lvl-Ends (suc f) p memo m few = elim (Option-cases (level_at p.id memo)) [
    | inl fresh ↦
        let (n, left, e, g) =
          level_over-Ends (lvl parsers f) p.id (known_deps parsers p.depends_on) f
            ((p.id, 0) ∷ memo) (λ q u member less. lvl-Ends f q u member less)
            (known_deps-in_set p.depends_on)
            (omega (arith, unseen-see parsers p (keys memo) m (level_at-none p.id memo fresh))) in
        rw (fresh, lvl, e) (n, left, refl, λ x h. g x (ground (arith, h)))
    | inr (n, before) ↦ rw (before, lvl) (n, memo, refl, λ x h. h)
  ]

  -- The dictionary is made to its end, and has every parser that it had or passes.
  levels_from-some :
      (f : ℕ) (ps : List Parser) (out memo : Memo)
      → ((q : Parser) → Any (λ p. p ≡ q) ps → Any (λ p. p ≡ q) parsers)
      → unseen parsers (keys memo) < f
      → (result : Memo) × (levels_from parsers f ps out memo ≡ some result)
        × ((x : String) → has x (keys out) ≡ true → has x (keys result) ≡ true)
        × All (λ p. has p.id (keys result) ≡ true) ps
  unfolding levels_from
  levels_from-some f [] out memo sub few = (out, refl, (λ x h. h), tt)
  levels_from-some f (p ∷ ps) out memo sub few =
      let (n, left, e, g) = lvl-Ends f p memo (sub p (inl refl)) few in
      let (result, done, kept, there) =
        levels_from-some f ps ((p.id, n) ∷ out) left (λ q m. sub q (inr m))
          (omega (arith, unseen-le parsers (keys memo) (keys left) g)) in
      (
        result,
        rw e done,
        (λ x h. kept x (ground (arith, h))),
        (kept p.id (ground (arith, str_eq_refl p.id)), there),
      )

  -- The levels are found for every list of parsers, whatever they depend on, and each has one.
  pub levels_total :
      (result : Memo) × (levels parsers ≡ some result)
      × All (λ p. (n : ℕ) × (level_at p.id result ≡ some n)) parsers
  unfolding levels
  levels_total =
      let (result, e, kept, there) =
        levels_from-some (suc (length parsers)) parsers [] [] (λ q m. m)
          (omega (arith, length-unseen parsers [])) in
      (
        result,
        e,
        All-of_at (λ p. (n : ℕ) × (level_at p.id result ≡ some n)) parsers
            (λ p m.
              level_at-has p.id result
                (All-at (λ p. has p.id (keys result) ≡ true) parsers p there m)),
      )
