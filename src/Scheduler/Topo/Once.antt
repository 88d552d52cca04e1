-- ===== src/Scheduler/Topo/Once.antt =====
-- `_topo_order` of src/artifact_engine/core/scheduler.py places every id exactly once, cycles or
-- not.
use artifact_engine.Prelude.{
  ℕ, zero, suc, ◌≡◌, refl, ◌∙◌, String, ◌⊎◌, inl, inr, true, false, Option, some, List, [], ◌∷◌,
  ◌++◌, arith, length, Any, All, All-of_at, Bool-cases, ◌||◌, subst,
}
use artifact_engine.Prelude.Texts.{has, str_eq, str_eq_refl, eq_of_str_eq}
use artifact_engine.Scheduler.Manifest.{Parser}
use artifact_engine.Scheduler.Topo.{Visit, see, visit_deps, visit, visit_all, topo_order}
use artifact_engine.Scheduler.Topo.Total.{visit_all-some}
use artifact_engine.Scheduler.Topo.Steps.{
  outside, visited, visit_deps-cons, visit-suc, visit_all-cons, visit_deps-nil, visit_all-nil,
  visit-zero,
}

abbrev pub ids : List Parser → List String
ids [] = []
ids (p ∷ ps) = p.id ∷ ids ps

pub has-snoc :
    (x : String) (ps : List Parser) (p : Parser)
    → has x (ids (ps ++ p ∷ [])) ≡ (has x (ids ps) || str_eq x p.id)
has-snoc x [] p = ground arith
has-snoc x (q ∷ ps) p = ground (arith, has-snoc x ps p)

-- No id twice.
abbrev pub Distinct : List Parser → Type 0
Distinct [] = Unit
Distinct (p ∷ ps) = (has p.id (ids ps) ≡ false) × Distinct ps

Distinct-snoc :
    (ps : List Parser) (p : Parser)
    → Distinct ps
    → has p.id (ids ps) ≡ false
    → Distinct (ps ++ p ∷ [])
Distinct-snoc [] p d h = (refl, tt)
Distinct-snoc (q ∷ ps) p d h = (other, Distinct-snoc ps p d.1 (ground arith))
  where
    apart : str_eq q.id p.id ≡ false
    apart = elim (Bool-cases (str_eq q.id p.id)) [
      | inl same ↦ cc (str_eq_refl p.id, rw (eq_of_str_eq q.id p.id same) at h)
      | inr differ ↦ differ
    ]

    other : has q.id (ids (ps ++ p ∷ [])) ≡ false
    other = has-snoc q.id ps p ∙ ground (arith, apart)

-- What is placed was seen, once.
pub record Inv (v : Visit) : Type 0 where
  pub placed_seen : (x : String) → has x (ids v.ordered) ≡ true → has x v.seen ≡ true
  pub distinct : Distinct v.ordered

-- What a step leaves of an earlier state: it forgets nothing, it places only what was not seen, and
-- what it sees it places.
pub record Kept (v w : Visit) : Type 0 where
  pub seen : (x : String) → has x v.seen ≡ true → has x w.seen ≡ true
  pub placed : (x : String) → has x (ids v.ordered) ≡ true → has x (ids w.ordered) ≡ true
  pub fresh :
      (x : String)
      → has x (ids w.ordered) ≡ true
      → (has x (ids v.ordered) ≡ true) ⊎ (has x v.seen ≡ false)
  pub settled :
      (x : String) → has x w.seen ≡ true → (has x v.seen ≡ true) ⊎ (has x (ids w.ordered) ≡ true)
  pub inv : Inv w

pub Kept-refl : (v : Visit) → Inv v → Kept v v
Kept-refl v i = record {
  seen = λ x h. h;
  placed = λ x h. h;
  fresh = λ x h. inl h;
  settled = λ x h. inl h;
  inv = i;
}

pub Kept-trans : (u v w : Visit) → Kept u v → Kept v w → Kept u w
Kept-trans u v w a b = record {
  seen = λ x h. b.seen x (a.seen x h);
  placed = λ x h. b.placed x (a.placed x h);
  fresh = λ x h. elim (b.fresh x h) [
    | inl old ↦ a.fresh x old
    | inr new ↦ elim (Bool-cases (has x u.seen)) [
      | inl was ↦ cc (a.seen x was)
      | inr not_was ↦ inr not_was
    ]
  ];
  settled = λ x h. elim (b.settled x h) [
    | inl old ↦ elim (a.settled x old) [ inl older ↦ inl older | inr done ↦ inr (b.placed x done) ]
    | inr new ↦ inr new
  ];
  inv = b.inv;
}

pub has-snoc_self : (ps : List Parser) (p : Parser) → has p.id (ids (ps ++ p ∷ [])) ≡ true
has-snoc_self ps p = ground (arith, has-snoc p.id ps p, str_eq_refl p.id)

has-snoc_old :
    (x : String) (ps : List Parser) (p : Parser)
    → has x (ids ps) ≡ true
    → has x (ids (ps ++ p ∷ [])) ≡ true
has-snoc_old x ps p h = ground (arith, has-snoc x ps p)

has-snoc_cases :
    (x : String) (ps : List Parser) (p : Parser)
    → has x (ids (ps ++ p ∷ [])) ≡ true
    → (has x (ids ps) ≡ true) ⊎ (x ≡ p.id)
has-snoc_cases x ps p h = elim (Bool-cases (has x (ids ps))) [
  | inl old ↦ inl old
  | inr new ↦ inr (eq_of_str_eq x p.id (ground (arith, has-snoc x ps p)))
]

-- Seeing an id, the steps of its dependencies, and placing it.
pub Kept-place :
    (p : Parser) (v w : Visit)
    → Inv v
    → has p.id v.seen ≡ false
    → Kept (see p.id v) w
    → Kept v (record w { ordered = w.ordered ++ p ∷ [] })
Kept-place p v w i new k = record {
  seen = λ x h. k.seen x (ground arith);
  placed = λ x h. has-snoc_old x w.ordered p (k.placed x h);
  fresh = λ x h. elim (has-snoc_cases x w.ordered p h) [
    | inl old ↦ elim (k.fresh x old) [ inl before ↦ inl before | inr unseen ↦ inr (ground arith) ]
    | inr same ↦ inr (rw same new)
  ];
  settled = λ x h. elim (k.settled x h) [
    | inl old ↦ elim (Bool-cases (str_eq x p.id)) [
      | inl same ↦ inr (rw (eq_of_str_eq x p.id same) (has-snoc_self w.ordered p))
      | inr other ↦ inl (ground arith)
    ]
    | inr done ↦ inr (has-snoc_old x w.ordered p done)
  ];
  inv = record {
    placed_seen = λ x h. elim (has-snoc_cases x w.ordered p h) [
      | inl old ↦ k.inv.placed_seen x old
      | inr same ↦ rw same (k.seen p.id (ground (arith, str_eq_refl p.id)))
    ];
    distinct = Distinct-snoc w.ordered p k.inv.distinct not_placed;
  };
}
  where
    not_placed : has p.id (ids w.ordered) ≡ false
    not_placed = elim (Bool-cases (has p.id (ids w.ordered))) [
      | inl done ↦ elim (k.fresh p.id done) [
        | inl before ↦ cc (i.placed_seen p.id before)
        | inr unseen ↦ ground (arith, str_eq_refl p.id)
      ]
      | inr not_done ↦ not_done
    ]

pub Inv-see : (p : Parser) (v : Visit) → Inv v → Inv (see p.id v)
Inv-see p v i = record {
  placed_seen = λ x h. ground (arith, i.placed_seen x h);
  distinct = i.distinct;
}

module _ (parsers : List Parser) where
  visit_deps-Kept :
      (go : Parser → Visit → Option Visit) (deps : List String) (v w : Visit)
      → ((q : Parser) (u z : Visit) → Inv u → go q u ≡ some z → Kept u z)
      → Inv v
      → visit_deps parsers go deps v ≡ some w
      → Kept v w
  visit_deps-Kept go [] v w h i e =
      let same = visit_deps-nil parsers go v w e in subst (Kept v) same (Kept-refl v i)
  visit_deps-Kept go (d ∷ deps) v w h i e = elim (visit_deps-cons parsers go d deps v w e) [
    | outside absent rest ↦ visit_deps-Kept go deps v w h i rest
    | visited q z found gone rest ↦
        let first = h q v z i gone in
        Kept-trans v z w first (visit_deps-Kept go deps z w h first.inv rest)
  ]

  pub visit-Kept :
      (f : ℕ) (p : Parser) (v w : Visit) → Inv v → visit parsers f p v ≡ some w → Kept v w
  visit-Kept zero p v w i e = absurd (visit-zero parsers p v w e)
  visit-Kept (suc f) p v w i e = elim (visit-suc parsers f p v w e) [
    | inl (before, same) ↦ rw same (Kept-refl v i)
    | inr (new, (z, deps, same)) ↦ rw same (
        Kept-place p v z i new (
          visit_deps-Kept (visit parsers f) p.depends_on (see p.id v) z
            (λ q u y j gone. visit-Kept f q u y j gone) (Inv-see p v i) deps))
  ]

  -- After its visit an id is seen.
  visit-seen :
      (f : ℕ) (p : Parser) (v w : Visit)
      → Inv v
      → visit parsers f p v ≡ some w
      → has p.id w.seen ≡ true
  visit-seen zero p v w i e = absurd (visit-zero parsers p v w e)
  visit-seen (suc f) p v w i e = elim (visit-suc parsers f p v w e) [
    | inl (before, same) ↦ rw same before
    | inr (new, (z, deps, same)) ↦ rw same (
        (visit_deps-Kept (visit parsers f) p.depends_on (see p.id v) z
            (λ q u y j gone. visit-Kept f q u y j gone) (Inv-see p v i) deps).seen
          p.id (ground (arith, str_eq_refl p.id)))
  ]

  visit_all-Kept :
      (f : ℕ) (ps : List Parser) (v w : Visit)
      → Inv v
      → visit_all parsers f ps v ≡ some w
      → Kept v w × ((p : Parser) → Any (λ q. q ≡ p) ps → has p.id w.seen ≡ true)
  visit_all-Kept f [] v w i e =
      let same = visit_all-nil parsers f v w e in
      (subst (Kept v) same (Kept-refl v i), λ p m. absurd m)
  visit_all-Kept f (p ∷ ps) v w i e =
      let (z, first, rest) = visit_all-cons parsers f p ps v w e in
      let k = visit-Kept f p v z i first in
      let (l, all_seen) = visit_all-Kept f ps z w k.inv rest in
      (
        Kept-trans v z w k l,
        λ q m. elim m [
          | inl same ↦ rw (← same) (l.seen p.id (visit-seen f p v z i first))
          | inr later ↦ all_seen q later
        ],
      )

  pub start-Inv : Inv (record { seen = []; ordered = [] })
  start-Inv = record { placed_seen = λ x h. h; distinct = tt }

  -- The order has every given parser's id, each id once, and no other parsers.
  pub topo_order_once :
      (ordered : List Parser)
      → topo_order parsers ≡ some ordered
      → Distinct ordered × All (λ p. has p.id (ids ordered) ≡ true) parsers
  unfolding topo_order
  topo_order_once ordered e =
      let (w, done) = visit_all-some parsers in
      let (k, all_seen) =
        visit_all-Kept (suc (length parsers)) parsers (record { seen = []; ordered = [] }) w
          start-Inv done in
      let same : w.ordered ≡ ordered = cc done in
      rw (← same) (
        k.inv.distinct,
        All-of_at (λ p. has p.id (ids w.ordered) ≡ true) parsers
            (λ p m. elim (k.settled p.id (all_seen p m)) [ inl never ↦ cc | inr placed ↦ placed ]),
      )
