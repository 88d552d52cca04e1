-- ===== src/Scheduler/Topo/Total.antt =====
-- `_topo_order` of src/artifact_engine/core/scheduler.py ends, also when the dependencies have a
-- cycle.
use artifact_engine.Prelude.{
  ℕ, zero, suc, ◌≤◌, ◌<◌, ◌≡◌, refl, String, inl, inr, true, false, Option, some, List, [], ◌∷◌,
  ◌++◌, arith, length, Any, Bool-cases, Option-cases, if◌then◌else◌,
}
use artifact_engine.Prelude.Texts.{has, str_eq_refl}
use artifact_engine.Scheduler.Manifest.{Parser, by_id, by_id-mem}
use artifact_engine.Scheduler.Topo.{Visit, ◌>>=◌, see, visit_deps, visit, visit_all, topo_order}

-- How many of the parsers are not in `seen`.
pub unseen : List Parser → List String → ℕ
unseen [] seen = 0
unseen (p ∷ ps) seen = if has p.id seen then unseen ps seen else suc (unseen ps seen)

abbrev pub Grows : List String → List String → Type 0
Grows old now = (x : String) → has x old ≡ true → has x now ≡ true

pub unseen-le :
    (ps : List Parser) (old now : List String) → Grows old now → unseen ps now ≤ unseen ps old
unfolding unseen
unseen-le [] old now g = omega arith
unseen-le (p ∷ ps) old now g = elim (Bool-cases (has p.id old)) [
  | inl before ↦ rw (before, g p.id before) (unseen-le ps old now g)
  | inr fresh ↦ rw fresh (ground (arith, unseen-le ps old now g))
]

pub unseen-see :
    (ps : List Parser) (p : Parser) (seen : List String)
    → Any (λ q. q ≡ p) ps
    → has p.id seen ≡ false
    → unseen ps (p.id ∷ seen) < unseen ps seen
unfolding unseen
unseen-see [] p seen m fresh = absurd m
unseen-see (q ∷ ps) p seen (inl e) fresh =
    rw (e, fresh, str_eq_refl p.id)
      (omega (arith, unseen-le ps seen (p.id ∷ seen) (λ x h. ground arith)))
unseen-see (q ∷ ps) p seen (inr m) fresh = ground (arith, unseen-see ps p seen m fresh)

pub length-unseen : (ps : List Parser) (seen : List String) → unseen ps seen ≤ length ps
unfolding unseen
length-unseen [] seen = omega arith
length-unseen (p ∷ ps) seen = ground (arith, length-unseen ps seen)

-- A step ends, and what was seen stays seen.
abbrev Ends : Visit → Option Visit → Type 0
Ends v r = (w : Visit) × (r ≡ some w) × Grows v.seen w.seen

module _ (parsers : List Parser) where
  Ends-bind :
      (v : Visit) (r : Option Visit) (f : Visit → Option Visit)
      → Ends v r
      → ((w : Visit) → Grows v.seen w.seen → Ends w (f w))
      → Ends v (r >>= f)
  Ends-bind v r f (w, e, g) next = let (z, e', g') = next w g in (z, rw e e', λ x h. g' x (g x h))

  visit_deps-Ends :
      (go : Parser → Visit → Option Visit) (deps : List String) (bound : ℕ) (v : Visit)
      → ((q : Parser) (w : Visit)
          → Any (λ p. p ≡ q) parsers
          → unseen parsers w.seen < bound
          → Ends w (go q w))
      → unseen parsers v.seen < bound
      → Ends v (visit_deps parsers go deps v)
  unfolding visit_deps
  visit_deps-Ends go [] bound v h few = (v, refl, λ x k. k)
  visit_deps-Ends go (d ∷ deps) bound v h few = elim (Option-cases (by_id parsers d)) [
    | inl outside ↦ rw (outside, visit_deps) (visit_deps-Ends go deps bound v h few)
    | inr (q, found) ↦
        rw (found, visit_deps)
          (Ends-bind v (go q v) (λ w. visit_deps parsers go deps w)
            (h q v (by_id-mem parsers d q found) few)
            (λ w g.
              visit_deps-Ends go deps bound w h (omega (arith, unseen-le parsers v.seen w.seen g))))
  ]

  visit-Ends :
      (f : ℕ) (p : Parser) (v : Visit)
      → Any (λ q. q ≡ p) parsers
      → unseen parsers v.seen < f
      → Ends v (visit parsers f p v)
  unfolding visit
  visit-Ends zero p v m few = absurd (omega arith)
  visit-Ends (suc f) p v m few = elim (Bool-cases (has p.id v.seen)) [
    | inl before ↦ rw (before, visit) (v, refl, λ x h. h)
    | inr fresh ↦
        let (w, e, g) =
          visit_deps-Ends (visit parsers f) p.depends_on f (see p.id v)
            (λ q u member less. visit-Ends f q u member less)
            (omega (arith, unseen-see parsers p v.seen m fresh)) in
        rw (fresh, visit, e)
          (record w { ordered = w.ordered ++ p ∷ [] }, refl, λ x h. g x (ground arith))
  ]

  visit_all-Ends :
      (f : ℕ) (ps : List Parser) (v : Visit)
      → ((q : Parser) → Any (λ p. p ≡ q) ps → Any (λ p. p ≡ q) parsers)
      → unseen parsers v.seen < f
      → Ends v (visit_all parsers f ps v)
  unfolding visit_all
  visit_all-Ends f [] v sub few = (v, refl, λ x h. h)
  visit_all-Ends f (p ∷ ps) v sub few =
      Ends-bind v (visit parsers f p v) (λ w. visit_all parsers f ps w)
        (visit-Ends f p v (sub p (inl refl)) few)
        (λ w g.
          visit_all-Ends f ps w (λ q m. sub q (inr m))
            (omega (arith, unseen-le parsers v.seen w.seen g)))

  pub visit_all-some :
      (w : Visit) × (visit_all parsers
          (suc (length parsers))
          parsers
          (record { seen = []; ordered = [] })
        ≡ some w)
  visit_all-some =
      let (w, e, _) =
        visit_all-Ends (suc (length parsers)) parsers (record { seen = []; ordered = [] })
          (λ q m. m) (omega (arith, length-unseen parsers [])) in
      (w, e)

  -- The order is computed for every list of parsers, whatever they depend on.
  pub topo_order_total : (ordered : List Parser) × (topo_order parsers ≡ some ordered)
  unfolding topo_order
  topo_order_total = let (w, e) = visit_all-some in (w.ordered, rw e)
