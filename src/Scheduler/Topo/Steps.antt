-- ===== src/Scheduler/Topo/Steps.antt =====
-- What a successful step of `_topo_order` (src/artifact_engine/core/scheduler.py) consists of.
use artifact_engine.Prelude.{
  ℕ, zero, suc, ◌≡◌, refl, String, ◌⊎◌, inl, inr, true, false, Option, none, some, List, [], ◌∷◌,
  ◌++◌, Bool-cases, Option-cases,
}
use artifact_engine.Prelude.Texts.{has}
use artifact_engine.Scheduler.Manifest.{Parser, by_id}
use artifact_engine.Scheduler.Topo.{Visit, ◌>>=◌, see, place, visit_deps, visit, visit_all}

bind-eq-some :
    (m : Option Visit) (f : Visit → Option Visit) (w : Visit)
    → (m >>= f) ≡ some w
    → (z : Visit) × (m ≡ some z) × (f z ≡ some w)
bind-eq-some none f w e = cc
bind-eq-some (some z) f w e = (z, refl, e)

-- The two ways in which a dependency is handled.
pub data Handled (parsers : List Parser) (go : Parser → Visit → Option Visit) (d : String)
    (deps : List String) (v w : Visit) : Type 0 where
  outside :
      by_id parsers d ≡ none → visit_deps parsers go deps v ≡ some w → Handled parsers go d deps v w
  visited :
      (q : Parser) (z : Visit)
      → by_id parsers d ≡ some q
      → go q v ≡ some z
      → visit_deps parsers go deps z ≡ some w
      → Handled parsers go d deps v w

module _ (parsers : List Parser) where
  pub visit_deps-cons :
      (go : Parser → Visit → Option Visit) (d : String) (deps : List String) (v w : Visit)
      → visit_deps parsers go (d ∷ deps) v ≡ some w
      → Handled parsers go d deps v w
  unfolding visit_deps
  visit_deps-cons go d deps v w e = elim (Option-cases (by_id parsers d)) [
    | inl absent ↦ outside absent (rw (absent, visit_deps) at e)
    | inr (q, found) ↦
        let (z, gone, rest) =
          bind-eq-some (go q v) (λ z. visit_deps parsers go deps z) w
            (rw (found, visit_deps) at e) in
        visited q z found gone rest
  ]

  -- Seen before, or its dependencies and then itself.
  pub visit-suc :
      (f : ℕ) (p : Parser) (v w : Visit)
      → visit parsers (suc f) p v ≡ some w
      → ((has p.id v.seen ≡ true) × (w ≡ v))
        ⊎ ((has p.id v.seen ≡ false)
            × ((z : Visit) × (visit_deps parsers (visit parsers f) p.depends_on (see p.id v)
                  ≡ some z)
                × (w ≡ record z { ordered = z.ordered ++ p ∷ [] })))
  unfolding visit
  visit-suc f p v w e = elim (Bool-cases (has p.id v.seen)) [
    | inl before ↦ inl (before, cc (rw (before, visit) at e))
    | inr new ↦
        let (z, deps, placed) =
          bind-eq-some (visit_deps parsers (visit parsers f) p.depends_on (see p.id v)) (place p) w
            (rw (new, visit) at e) in
        inr (new, (z, deps, cc placed))
  ]

  pub visit_all-cons :
      (f : ℕ) (p : Parser) (ps : List Parser) (v w : Visit)
      → visit_all parsers f (p ∷ ps) v ≡ some w
      → (z : Visit) × (visit parsers f p v ≡ some z) × (visit_all parsers f ps z ≡ some w)
  unfolding visit_all
  visit_all-cons f p ps v w e = bind-eq-some (visit parsers f p v) (visit_all parsers f ps) w e

  pub visit_deps-nil :
      (go : Parser → Visit → Option Visit) (v w : Visit)
      → visit_deps parsers go [] v ≡ some w
      → v ≡ w
  unfolding visit_deps
  visit_deps-nil go v w e = cc

  pub visit_all-nil : (f : ℕ) (v w : Visit) → visit_all parsers f [] v ≡ some w → v ≡ w
  unfolding visit_all
  visit_all-nil f v w e = cc

  pub visit-zero : (p : Parser) (v w : Visit) → visit parsers zero p v ≡ some w → ⊥
  unfolding visit
  visit-zero p v w e = cc
