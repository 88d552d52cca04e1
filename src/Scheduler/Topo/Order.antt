-- ===== src/Scheduler/Topo/Order.antt =====
-- `_topo_order` of src/artifact_engine/core/scheduler.py puts each parser behind the parsers that it
-- depends on, when the dependencies have no cycle.
use artifact_engine.Prelude.{
  ℕ, zero, suc, ◌≤◌, ◌<◌, ◌≡◌, refl, String, ◌⊎◌, inl, inr, Bool, true, false, Option, none, some,
  List, [], ◌∷◌, ◌++◌, arith, length, Any, All, All-at, Bool-cases, ◌||◌, subst,
}
use artifact_engine.Prelude.Texts.{has, str_eq, eq_of_str_eq}
use artifact_engine.Scheduler.Manifest.{Parser, by_id, by_id-id, by_id-mem}
use artifact_engine.Scheduler.Topo.{Visit, see, visit_deps, visit, visit_all, topo_order}
use artifact_engine.Scheduler.Topo.Total.{visit_all-some}
use artifact_engine.Scheduler.Topo.Steps.{
  outside, visited, visit_deps-cons, visit-suc, visit_all-cons, visit_deps-nil, visit_all-nil,
  visit-zero,
}
use artifact_engine.Scheduler.Topo.Once.{
  ids, Inv, Kept, Kept-refl, Kept-trans, Inv-see, Kept-place, has-snoc_self, start-Inv,
}

abbrev pub none_known : String → Bool
none_known d = false

module _ (parsers : List Parser) where
  -- The dependencies that are in the set are among the known ids.
  abbrev pub DepsIn : (String → Bool) → List String → Type 0
  DepsIn known deps = All (λ d. (by_id parsers d ≡ none) ⊎ (known d ≡ true)) deps

  -- Each parser stands behind the parsers it depends on.
  abbrev pub Closed : (String → Bool) → List Parser → Type 0
  Closed known [] = Unit
  Closed known (p ∷ ps) = DepsIn known p.depends_on × Closed (λ d. str_eq d p.id || known d) ps

  DepsIn-mono :
      (known more : String → Bool) (deps : List String)
      → ((d : String) → known d ≡ true → more d ≡ true)
      → DepsIn known deps
      → DepsIn more deps
  DepsIn-mono known more [] f h = tt
  DepsIn-mono known more (d ∷ deps) f h = (
    elim h.0 [ inl absent ↦ inl absent | inr old ↦ inr (f d old) ],
    DepsIn-mono known more deps f h.1,
  )

  Closed-snoc :
      (known : String → Bool) (ps : List Parser) (p : Parser)
      → Closed known ps
      → DepsIn (λ d. known d || has d (ids ps)) p.depends_on
      → Closed known (ps ++ p ∷ [])
  Closed-snoc known [] p c h =
      (DepsIn-mono (λ d. known d || false) known p.depends_on (λ d k. ground arith) h, tt)
  Closed-snoc known (q ∷ ps) p c h = (
    c.0,
    Closed-snoc (λ d. str_eq d q.id || known d) ps p c.1
        (DepsIn-mono (λ d. known d || (str_eq d q.id || has d (ids ps)))
          (λ d. (str_eq d q.id || known d) || has d (ids ps)) p.depends_on (λ d k. ground arith) h),
  )

module _ (parsers : List Parser) (rank : String → ℕ) where
  -- Every dependency in the set has a lower rank: there is no cycle.
  abbrev pub Ranked : Type 0
  Ranked =
      All (λ p. All (λ d. (by_id parsers d ≡ none) ⊎ (rank d < rank p.id)) p.depends_on) parsers

  -- What was seen is placed, or waits for what is below `bound`.
  abbrev Waits : ℕ → Visit → Type 0
  Waits bound v =
      (x : String) → has x v.seen ≡ true → (has x (ids v.ordered) ≡ true) ⊎ (bound ≤ rank x)

  Waits-Kept : (bound : ℕ) (v w : Visit) → Waits bound v → Kept v w → Waits bound w
  Waits-Kept bound v w h k x seen = elim (k.settled x seen) [
    | inl before ↦ elim (h x before) [
      | inl placed ↦ inl (k.placed x placed)
      | inr above ↦ inr above
    ]
    | inr placed ↦ inl placed
  ]

  abbrev IsClosed : Visit → Type 0
  IsClosed v = Closed parsers none_known v.ordered

  -- What the visit of a parser of a rank below `bound` does.
  abbrev Visits : ℕ → (Parser → Visit → Option Visit) → Type 0
  Visits bound go =
      (q : Parser) (v w : Visit)
      → Any (λ p. p ≡ q) parsers
      → rank q.id < bound
      → Inv v
      → Waits bound v
      → IsClosed v
      → go q v ≡ some w
      → Kept v w × IsClosed w × (has q.id (ids w.ordered) ≡ true)

  visit_deps-Closed :
      (go : Parser → Visit → Option Visit) (deps : List String) (bound : ℕ) (v w : Visit)
      → Visits bound go
      → All (λ d. (by_id parsers d ≡ none) ⊎ (rank d < bound)) deps
      → Inv v
      → Waits bound v
      → IsClosed v
      → visit_deps parsers go deps v ≡ some w
      → Kept v w × IsClosed w × DepsIn parsers (λ d. has d (ids w.ordered)) deps
  visit_deps-Closed go [] bound v w h low i wait c e =
      let same = visit_deps-nil parsers go v w e in
      (subst (Kept v) same (Kept-refl v i), subst IsClosed same c, tt)
  visit_deps-Closed go (d ∷ deps) bound v w h low i wait c e =
      elim (visit_deps-cons parsers go d deps v w e) [
        | outside absent rest ↦
            let (k, c', all) = visit_deps-Closed go deps bound v w h low.1 i wait c rest in
            (k, c', (inl absent, all))
        | visited q z found gone rest ↦
            let named = by_id-id parsers d q found in
            let below : rank d < bound = elim low.0 [ inl absent ↦ cc | inr less ↦ less ] in
            let (k, cz, placed) =
              h q v z (by_id-mem parsers d q found) (rw named below) i wait c gone in
            let (l, cw, all) =
              visit_deps-Closed go deps bound z w h low.1 k.inv (Waits-Kept bound v z wait k) cz
                rest in
            (Kept-trans v z w k l, cw, (inr (rw (← named) (l.placed q.id placed)), all))
      ]

  Waits-see : (p : Parser) (v : Visit) → Waits (suc (rank p.id)) v → Waits (rank p.id) (see p.id v)
  Waits-see p v h x seen = elim (Bool-cases (str_eq x p.id)) [
    | inl same ↦ inr (rw (eq_of_str_eq x p.id same) (omega arith))
    | inr other ↦ elim (h x (rw other at seen)) [
      | inl placed ↦ inl placed
      | inr above ↦ inr (omega arith)
    ]
  ]

  visit-Closed :
      (f : ℕ) (p : Parser) (v w : Visit)
      → Ranked
      → Any (λ q. q ≡ p) parsers
      → Inv v
      → Waits (suc (rank p.id)) v
      → IsClosed v
      → visit parsers f p v ≡ some w
      → Kept v w × IsClosed w × (has p.id (ids w.ordered) ≡ true)
  visit-Closed zero p v w ranked m i wait c e = absurd (visit-zero parsers p v w e)
  visit-Closed (suc f) p v w ranked m i wait c e = elim (visit-suc parsers f p v w e) [
    | inl (before, same) ↦ elim (wait p.id before) [
      | inl placed ↦ rw same (Kept-refl v i, c, placed)
      | inr above ↦ absurd (omega arith)
    ]
    | inr (new, (z, deps, same)) ↦
        let (k, cz, all) =
          visit_deps-Closed (visit parsers f) p.depends_on (rank p.id) (see p.id v) z
            (λ q u y member low j wait' cu gone.
              visit-Closed f q u y ranked member j
                (λ x seen. elim (wait' x seen) [
                  | inl placed ↦ inl placed
                  | inr above ↦ inr (omega arith)
                ])
                cu gone)
            (All-at (λ p. All (λ d. (by_id parsers d ≡ none) ⊎ (rank d < rank p.id)) p.depends_on)
              parsers p ranked m)
            (Inv-see p v i) (Waits-see p v wait) c deps in
        rw same (
          Kept-place p v z i new k,
          Closed-snoc parsers none_known z.ordered p cz (
              DepsIn-mono parsers (λ d. has d (ids z.ordered)) (λ d. false || has d (ids z.ordered))
                p.depends_on (λ d h. h) all),
          has-snoc_self z.ordered p,
        )
  ]

  visit_all-Closed :
      (f : ℕ) (ps : List Parser) (v w : Visit)
      → Ranked
      → ((q : Parser) → Any (λ p. p ≡ q) ps → Any (λ p. p ≡ q) parsers)
      → Inv v
      → ((x : String) → has x v.seen ≡ true → has x (ids v.ordered) ≡ true)
      → IsClosed v
      → visit_all parsers f ps v ≡ some w
      → IsClosed w
  visit_all-Closed f [] v w ranked sub i idle c e = subst IsClosed (visit_all-nil parsers f v w e) c
  visit_all-Closed f (p ∷ ps) v w ranked sub i idle c e =
      let (z, first, rest) = visit_all-cons parsers f p ps v w e in
      let (k, cz, _) =
        visit-Closed f p v z ranked (sub p (inl refl)) i (λ x seen. inl (idle x seen)) c first in
      visit_all-Closed f ps z w ranked (λ q m. sub q (inr m)) k.inv
        (λ x seen. elim (k.settled x seen) [
          | inl before ↦ k.placed x (idle x before)
          | inr placed ↦ placed
        ])
        cz rest

  -- If a rank falls along every dependency, each parser of the order stands behind all the parsers of
  -- the set that it depends on.
  pub topo_order_sound :
      (ordered : List Parser)
      → Ranked
      → topo_order parsers ≡ some ordered
      → Closed parsers none_known ordered
  unfolding topo_order
  topo_order_sound ordered ranked e =
      let (w, done) = visit_all-some parsers in
      let same : w.ordered ≡ ordered = cc done in
      subst (Closed parsers none_known) same (
        visit_all-Closed (suc (length parsers)) parsers (record { seen = []; ordered = [] }) w
          ranked (λ q m. m) (start-Inv parsers) (λ x h. h) tt done)
